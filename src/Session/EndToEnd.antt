-- ===== src/Session/EndToEnd.antt =====
-- What one session reports as written is what the other reads (src/yamux_stream.c,
-- src/yamux_session.c, src/yamux_handlers.c).
use tiny_yamux.Base.{
  Bool, ℕ, ◌+◌, ◌^◌, ◌<◌, ◌≤◌, ◌≡◌, ◌≢◌, ◌⊎◌, inl, inr, sym, ap, ◌∙◌, arith, false, some, List,
  ◌++◌, take, length, append-nil, ◌==◌, append_cancel, length-take, eq_of_some,
}
use mathlib.Core.Path.{subst}
use tiny_yamux.Protocol.{ok, err_nomem, closed, fin_recv, state_code, window_update_threshold}
use tiny_yamux.Buffer.Queue.{Represents}
use tiny_yamux.World.{Purpose, Ptr, Stream, World}
use tiny_yamux.World.Laws.{At}
use tiny_yamux.Streams.Frames.{data_frames, joined}
use tiny_yamux.Streams.HalfClose.{or_false_left}
use tiny_yamux.Streams.Read.{stream_read_takes}
use tiny_yamux.Streams.Transfer.{stream_read, stream_write}
use tiny_yamux.Streams.WriteCall.{finished, Sends, stream_write-Sends}
use tiny_yamux.Session.Arrival.{
  Lacks, Feeds, process_frames, Listening, Served, all_served, memory_short, frames-Served,
}

-- A peer that processes `k` frames, each with an allocator of its own: a read of `m` bytes then gives
-- the first `m` of those unread before and of `bytes` behind them; or one of the allocators refuses the
-- memory for a frame, and unread are those from before and some first bytes of `bytes`.
abbrev pub Arrives :
    {D : Type 0}
    → (ℕ → Purpose → ℕ → Bool)
    → ℕ
    → World D
    → Ptr
    → (q bytes : List ℕ) → (m : ℕ) → Type 0
Arrives {D} allocators k v p q bytes m =
    ((v' : World D) × (v'' : World D) × (process_frames allocators k v ≡ some (ok, v'))
      × (stream_read p m v' ≡ some ((ok, take m (q ++ bytes)), v'')))
    ⊎ ((v' : World D) × (st : Stream) × (before : List ℕ) × (behind : List ℕ) × (process_frames
            allocators k v
          ≡ some (err_nomem, v'))
        × At v'.heap p st
        × Represents st.recvbuf (q ++ before)
        × (before ++ behind ≡ bytes)
        × Lacks allocators k st)

Served-Arrives :
    {D : Type 0} {allocators : ℕ → Purpose → ℕ → Bool} {k : ℕ} {v : World D} {id : ℕ} {p : Ptr}
    {q bytes : List ℕ} (m : ℕ)
    → m ≢ 0
    → Served allocators k v id p q bytes
    → Arrives allocators k v p q bytes m
Served-Arrives m ne (all_served v' st e l) =
    let (v'', b, run, _, _, _) =
      stream_read_takes v' m l.at
        (or_false_left (state_code st.state == state_code closed)
          (state_code st.state == state_code fin_recv) l.alive)
        l.unread ne in
    inl (v', v'', e, run)
Served-Arrives m ne (memory_short v' st before behind e at rep whole lacks) =
    inr (v', st, before, behind, e, at, rep, whole, lacks)

-- A write of `len` bytes, 0 < `len` < 2^64, on a stream that is not closing, that reported success and a
-- count `n`, and sent `parts`: let a peer have the stream, with the room for `n` bytes in its buffer
-- and in its window, of which half of the default is left, and let its callback give `parts`, read by
-- read. Then there is a number of frames that the peer can process, after which a read of `m` bytes,
-- 0 < `m`, gives the first `m` of what was unread before and, behind it, the first `n` bytes of what
-- was written; or the allocator that one of these calls of the peer finds, each its own, refuses memory
-- for its frame, and unread is what was, and some first bytes of those `n`.
pub stream_write-Arrives :
    {C D : Type 0} (w : World C) {w' : World C} {v : World D} {p p' : Ptr} {st st' : Stream}
    {q : List ℕ} (buf : List ℕ) (len n m : ℕ) (parts : List (List ℕ))
    (allocators : ℕ → Purpose → ℕ → Bool)
    → At w.heap p st
    → finished st.state ≡ false
    → 0 < len
    → len < 2 ^ 64
    → len ≤ length buf
    → 0 < st.send_window
    → st.send_window < 2 ^ 32
    → st.id < 2 ^ 32
    → stream_write p (some buf) len w ≡ some ((ok, n), w')
    → w'.sent ≡ w.sent ++ parts
    → Listening v st.id p' st' q
    → st'.recvbuf.used + n < 2 ^ 64
    → window_update_threshold + n ≤ st'.recv_window
    → st'.recv_window < 2 ^ 32
    → Feeds v.session.io v.ctx parts
    → m ≢ 0
    → (k : ℕ) × Arrives allocators k v p' q (take n buf) m
stream_write-Arrives {C} w {w'} {v} {p} {p'} {st} {st'} {q} buf len n m parts allocators at live
      some_bytes small inb some_room window id_fits e sent l fits room peer_window feeds ne =
    let (r₁, n₁, w₁, e₁, sends₁) =
      stream_write-Sends w buf len at live some_bytes small inb some_room window in
    let sends : Sends w p st buf len ok n w' =
      subst (λ o. Sends w p st buf len o.0.0 o.0.1 o.1) (eq_of_some (sym e₁ ∙ e)) sends₁ in
    let f = sends.frames in
    elim f.ending [
      | inr (failed, _) ↦ cc
      | inl (_, no_rest, _) ↦
          let taken : length (joined f.chunks) ≡ n =
            ap (λ xs. length xs) f.carried ∙ omega (arith, length-take n buf, sends.within_len) in
          let same = append_cancel w.sent parts (data_frames st.id f.chunks) (
            sym sent
            ∙ f.sent
            ∙ ap (λ r. w.sent ++ (data_frames st.id f.chunks ++ r)) no_rest
            ∙ ap (λ xs. w.sent ++ xs) (append-nil (data_frames st.id f.chunks))) in
          (
            length f.chunks,
            subst (λ xs. Arrives allocators (length f.chunks) v p' q xs m) f.carried
                (Served-Arrives m ne (
                  frames-Served allocators f.chunks l id_fits f.sized (rw taken fits)
                    (rw taken room) peer_window (rw (← same) feeds))),
          )
    ]
