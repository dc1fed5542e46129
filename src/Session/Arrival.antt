-- ===== src/Session/Arrival.antt =====
-- A write of any length, frame by frame at the peer (src/yamux_session.c, src/yamux_stream.c,
-- src/yamux_handlers.c).
use tiny_yamux.Base.{
  Bool, ◌⊎◌, ℕ, zero, suc, ◌+◌, ◌^◌, ◌<◌, ◌≤◌, ◌≡◌, inl, inr, refl, ap, ◌∙◌, arith, false, some,
  List, [], ◌∷◌, ◌++◌, ◌||◌, length, ◌==◌, append_assoc, append-nil, length-append, if◌then◌else◌,
}
use mathlib.Core.Path.{subst}
use tiny_yamux.Protocol.{
  max_data_frame_size, Result, ok, is_ok, err_nomem, closed, fin_recv, state_code, type_data,
  window_update_threshold,
}
use tiny_yamux.Frame.{header_bytes}
use tiny_yamux.Buffer.{new_size, Buffer}
use tiny_yamux.Buffer.Queue.{Represents}
use tiny_yamux.World.{
  Purpose, with_allocator, for_buffer, for_recv_buf, Io, Ptr, Stream, Session, World, the_session,
  M, pure, ◌>>=◌, ◌>>◌, update,
}
use tiny_yamux.World.Laws.{At, At-update}
use tiny_yamux.World.Calls.{after_read}
use tiny_yamux.Table.Lookup.{IsTable, IsTable-same, stream_of, slots_of}
use tiny_yamux.Table.SameIds.{replace-SameIds, IsTable-SameIds, lookup-SameIds}
use tiny_yamux.Streams.{header}
use tiny_yamux.Streams.Frames.{data_frames, joined, Sized}
use tiny_yamux.Handlers.Delivery.{HasRead}
use tiny_yamux.Handlers.Filling.{filled}
use tiny_yamux.Handlers.RecvBuf.{HasRecvBuf}
use tiny_yamux.Session.{session_process}
use tiny_yamux.Session.Frames.{Receives, length-header_bytes}
use tiny_yamux.Session.Served.{chunk_served}

-- What the callback gives, read by read: each part whole, where as many bytes are asked for.
abbrev pub Feeds : {D : Type 0} → Io D → D → List (List ℕ) → Type 0
Feeds io c [] = Unit {0}
Feeds io c (part ∷ parts) =
    ((io.read c (length part)).0 ≡ some part) × Feeds io (io.read c (length part)).1 parts

-- The application's loop: frames are processed, at most `k`, until one is refused. The call behind which
-- `i` frames are left to process finds the allocator `allocators i`.
unfoldable pub process_frames : {D : Type 0} → (ℕ → Purpose → ℕ → Bool) → ℕ → M D Result
process_frames allocators zero = pure ok
process_frames allocators (suc k) =
    let rest = process_frames allocators k in
    do
      λ w. some (tt, with_allocator w (allocators k))
      r ← session_process the_session
      if is_ok r then rest else pure r

-- A session that is open and has the stream for `id` at `p`, neither closed nor in FIN_RECV, with the
-- unread bytes `q`.
pub record Listening {D : Type 0} (v : World D) (id : ℕ) (p : Ptr) (st : Stream) (q : List ℕ)
    : Type 0 where
  pub table : IsTable v.heap v.session
  pub found : stream_of v id ≡ p
  pub at : At v.heap p st
  pub alive :
      (state_code st.state == state_code closed || state_code st.state == state_code fin_recv)
      ≡ false
  pub unread : Represents st.recvbuf q
  pub has_buf : HasRecvBuf v.session
  pub is_open : v.session.go_away_received ≡ false

module _ {D : Type 0} {v v' : World D} {id : ℕ} {p : Ptr} {st : Stream} {q : List ℕ} {n : ℕ}
    (l : Listening v id p st q) (read : HasRead (after_read v 12) n v') where
  same_io : v'.session.io ≡ v.session.io
  unfolding after_read
  same_io = ap {A = Session D} (λ s. s.io) read.rest_same

  -- One frame later.
  Listening-filled :
      {b : Buffer} {bytes : List ℕ}
      → v'.heap ≡ update v.heap p (some (filled st b n))
      → Represents b bytes
      → Listening v' id p (filled st b n) bytes
  unfolding after_read
  Listening-filled {b} heap rep =
      let same = replace-SameIds v.heap (filled st b n) l.at refl in
      record {
        table = rw heap (
            IsTable-same (ap {A = Session D} (λ s. s.streams) read.rest_same)
              (ap {A = Session D} (λ s. s.stream_count) read.rest_same)
              (ap {A = Session D} (λ s. s.stream_capacity) read.rest_same)
              (IsTable-SameIds v.heap (update v.heap p (some (filled st b n))) same v.session
                l.table));
        found =
            rw (heap, ap {A = Session D} (λ s. slots_of s) read.rest_same)
              (lookup-SameIds v.heap (update v.heap p (some (filled st b n))) same
                  (slots_of v.session) id l.table.live
                ∙ l.found);
        at = rw heap (At-update v.heap p _ l.at.ne_null);
        alive = l.alive;
        unread = rep;
        has_buf = read.has_buf;
        is_open = ap {A = Session D} (λ s. s.go_away_received) read.rest_same ∙ l.is_open;
      }

-- Another allocator.
Listening-with :
    {D : Type 0} {v : World D} {id : ℕ} {p : Ptr} {st : Stream} {q : List ℕ}
    (grants : Purpose → ℕ → Bool)
    → Listening v id p st q
    → Listening (with_allocator v grants) id p st q
Listening-with grants l = record {
  table = l.table;
  found = l.found;
  at = l.at;
  alive = l.alive;
  unread = l.unread;
  has_buf = l.has_buf;
  is_open = l.is_open;
}

-- The allocator of one of `k` calls refuses what a frame of `n` bytes, 1 to 16384, needs, for the
-- session's receive buffer, or for the stream's buffer, which has no room for them.
abbrev pub Lacks : (ℕ → Purpose → ℕ → Bool) → (k : ℕ) → Stream → Type 0
Lacks allocators k st =
    (i : ℕ) × (n : ℕ) × (i < k)
    × ((1 ≤ n) × (n ≤ max_data_frame_size))
    × ((allocators i for_recv_buf n ≡ false)
        ⊎ ((st.recvbuf.size < st.recvbuf.used + n)
            × (allocators i for_buffer (new_size st.recvbuf n) ≡ false)))

module _ {D : Type 0} (allocators : ℕ → Purpose → ℕ → Bool) where
  -- What the frames of `chunks` leave: all are processed, and their bytes are behind those unread
  -- before; or one of them finds memory short, and the bytes of those before it are there.
  pub data Served (k : ℕ) (v : World D) (id : ℕ) (p : Ptr) (q bytes : List ℕ) : Type 0 where
    all_served :
        (v' : World D) (st : Stream)
        → process_frames allocators k v ≡ some (ok, v')
        → Listening v' id p st (q ++ bytes)
        → Served k v id p q bytes
    memory_short :
        (v' : World D) (st : Stream) (before behind : List ℕ)
        → process_frames allocators k v ≡ some (err_nomem, v')
        → At v'.heap p st
        → Represents st.recvbuf (q ++ before)
        → before ++ behind ≡ bytes
        → Lacks allocators k st
        → Served k v id p q bytes

  -- One frame, and then the others.
  Served-next :
      {k : ℕ} {v v' : World D} {id : ℕ} {p : Ptr} {q : List ℕ} (chunk : List ℕ) {bytes : List ℕ}
      → session_process the_session (with_allocator v (allocators k)) ≡ some (ok, v')
      → Served k v' id p (q ++ chunk) bytes
      → Served (suc k) v id p q (chunk ++ bytes)
  unfolding process_frames
  Served-next {id} {p} {q} chunk {bytes} e (all_served v'' st e' l) =
      all_served v'' st (rw (process_frames, ◌>>=◌, ◌>>◌, e) e')
        (subst (λ xs. Listening v'' id p st xs) (append_assoc q chunk bytes) l)
  Served-next {q} chunk {bytes} e (memory_short v'' st before behind e' at rep whole lacks) =
      let (i, n, early, sized, denied) = lacks in
      memory_short v'' st (chunk ++ before) behind (rw (process_frames, ◌>>=◌, ◌>>◌, e) e') at
        (subst (λ xs. Represents st.recvbuf xs) (append_assoc q chunk before) rep)
        (append_assoc chunk before behind ∙ ap (λ xs. chunk ++ xs) whole)
        (i, n, omega (arith, early), sized, denied)

  -- The frame that finds memory short.
  Served-stop :
      {k : ℕ} {v v' : World D} {id : ℕ} {p : Ptr} {st : Stream} {q : List ℕ} (bytes : List ℕ)
      → session_process the_session (with_allocator v (allocators k)) ≡ some (err_nomem, v')
      → v'.heap ≡ v.heap
      → Listening v id p st q
      → Lacks allocators (suc k) st
      → Served (suc k) v id p q bytes
  unfolding process_frames
  Served-stop {v'} {st} {q} bytes e heap l lacks =
      memory_short v' st [] bytes (rw (process_frames, ◌>>=◌, ◌>>◌, e) refl) (rw heap l.at)
        (rw (append-nil q) l.unread) refl lacks

  -- The frames of `chunks`, read one after another.
  pub frames-Served :
      {id : ℕ} {p : Ptr} (chunks : List (List ℕ)) {v : World D} {st : Stream} {q : List ℕ}
      → Listening v id p st q
      → id < 2 ^ 32
      → Sized chunks
      → st.recvbuf.used + length (joined chunks) < 2 ^ 64
      → window_update_threshold + length (joined chunks) ≤ st.recv_window
      → st.recv_window < 2 ^ 32
      → Feeds v.session.io v.ctx (data_frames id chunks)
      → Served (length chunks) v id p q (joined chunks)
  unfolding process_frames joined data_frames after_read
  frames-Served [] {v} {st} {q} l id_fits sized fits room small feeds =
      all_served v st refl (rw (append-nil q) l)
  frames-Served {id} {p} (chunk ∷ chunks) {v} {st} {q} l id_fits (sized, rest) fits room small
        (head, (body, feeds)) =
      elim (chunk_served v₁ id chunk l.table at l.alive l.unread l.has_buf id_fits receives got
        (omega arith) (omega (arith, both)) (omega (arith, both)) small) [
          | inr (v', e, heap, _, refused) ↦ Served-stop (chunk ++ joined chunks) e heap l (
            length chunks,
            length chunk,
            omega arith,
            sized,
            elim refused [ inl (_, denied) ↦ inl denied | inr (full, denied) ↦ inr (full, denied) ],
          )
          | inl (v', b, e, rep, used, heap, _, read) ↦ Served-next chunk e (
              frames-Served chunks
                (Listening-filled (Listening-with (allocators (length chunks)) l) read
                  (heap ∙ ap (λ a. update v.heap a (some (filled st b (length chunk)))) l.found)
                  rep)
                id_fits rest (omega (arith, both, used)) (omega (arith, both)) (omega arith)
                (rw (same_io (Listening-with (allocators (length chunks)) l) read, read.ctx)
                  (rw twelve at feeds)))
        ]
    where
      v₁ : World D
      v₁ = with_allocator v (allocators (length chunks))

      twelve : length (header_bytes (header type_data 0 id (length chunk))) ≡ 12
      twelve = length-header_bytes (header type_data 0 id (length chunk))

      both : length (chunk ++ joined chunks) ≡ length chunk + length (joined chunks)
      both = length-append chunk (joined chunks)

      at : At v.heap (stream_of v id) st
      at = rw l.found l.at

      receives : Receives v₁ (header type_data 0 id (length chunk))
      receives = record { is_open = l.is_open; reads = rw twelve at head }

      got : (v.session.io.read (after_read v 12).ctx (length chunk)).0 ≡ some chunk
      got = rw twelve at body
