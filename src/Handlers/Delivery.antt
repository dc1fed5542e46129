-- ===== src/Handlers/Delivery.antt =====
-- The payload of a DATA frame reaches the stream's buffer (src/yamux_handlers.c).
use tiny_yamux.Base.{
  ℕ, ◌+◌, ◌^◌, ◌<◌, ◌≤◌, ◌≡◌, ◌⊎◌, inl, inr, refl, sym, arith, false, ◌||◌, Option, some, List,
  ◌++◌, length, drop, ◌==◌, ==-false, take-append_exact, length-append, length-drop,
}
use mathlib.Core.Path.{subst}
use tiny_yamux.Protocol.{
  Result, ok, err_nomem, closed, fin_recv, type_data, state_code, has, window_update_threshold,
}
use tiny_yamux.Buffer.{new_size, Buffer}
use tiny_yamux.Buffer.Queue.{Represents}
use tiny_yamux.World.{
  for_buffer, for_recv_buf, Ptr, Stream, World, the_session, ◌>>=◌, ◌>>◌, update,
}
use tiny_yamux.World.Laws.{At, not_null, load-At}
use tiny_yamux.World.Calls.{replaced, after_read}
use tiny_yamux.Table.Lookup.{IsTable, stream_of, get_stream-stream_of}
use tiny_yamux.Streams.{header}
use tiny_yamux.Handlers.{deliver, read_payload, handle_data}
use tiny_yamux.Handlers.RecvBuf.{
  HasRecvBuf, read_payload-received, rebuffered, received, reserve_recv_buf-Outcome,
}
use tiny_yamux.Handlers.Filling.{deliver-appends, filled}

-- The session and the connection after one payload of `n` bytes: another receive buffer, of the size
-- noted, and one read.
pub record HasRead {C : Type 0} (w : World C) (n : ℕ) (w' : World C) : Type 0 where
  pub same_grants : w'.grants ≡ w.grants
  pub ctx : w'.ctx ≡ (w.session.io.read w.ctx n).1
  pub has_buf : HasRecvBuf w'.session
  pub rest_same : w'.session ≡ record w.session {
    recv_buf = w'.session.recv_buf;
    recv_buf_size = w'.session.recv_buf_size;
  }

-- The allocator refuses the memory that `len` more bytes for the stream need: for the session's receive
-- buffer, which is shorter, or for the stream's buffer, which has no room for them.
abbrev pub IsRefused : {C : Type 0} → World C → Stream → (len : ℕ) → Type 0
IsRefused w st len =
    ((w.session.recv_buf_size < len) × (w.grants for_recv_buf len ≡ false))
    ⊎ ((st.recvbuf.size < st.recvbuf.used + len)
        × (w.grants for_buffer (new_size st.recvbuf len) ≡ false))

-- The outcomes of a frame with `bytes` for the stream `st` at `p`.
abbrev pub DataOutcome :
    {C : Type 0} → World C → Ptr → Stream → List ℕ → List ℕ → Option (Result × World C) → Type 0
DataOutcome {C} w p st q bytes o =
    ((w' : World C) × (b' : Buffer) × (o ≡ some (ok, w'))
      × Represents b' (q ++ bytes)
      × (b'.used ≡ st.recvbuf.used + length bytes)
      × (w'.heap ≡ update w.heap p (some (filled st b' (length bytes))))
      × (w'.sent ≡ w.sent)
      × HasRead w (length bytes) w')
    ⊎ ((w' : World C) × (o ≡ some (err_nomem, w'))
        × (w'.heap ≡ w.heap)
        × (w'.sent ≡ w.sent)
        × IsRefused w st (length bytes))

module _ {C : Type 0} (w : World C) {st : Stream} {q : List ℕ} (bytes : List ℕ) {p : Ptr}
    (at : At w.heap p st) (b : Represents st.recvbuf q) (has_buf : HasRecvBuf w.session)
    (got : (w.session.io.read w.ctx (length bytes)).0 ≡ some bytes) (some_bytes : 0 < length bytes)
    (fits : st.recvbuf.used + length bytes < 2 ^ 64)
    (room : window_update_threshold + length bytes ≤ st.recv_window)
    (small : st.recv_window < 2 ^ 32) where
  received-Outcome :
      (block : List ℕ) (size : ℕ)
      → length block ≡ size
      → length bytes ≤ size
      → DataOutcome w p st q bytes (deliver p (length bytes) (received w bytes block size))
  unfolding received after_read rebuffered replaced
  received-Outcome block size sized inb =
      elim (deliver-appends (received w bytes block size)
        {source = bytes ++ drop (length bytes) block} (length bytes) at refl b
        (λ e. absurd (omega arith)) (omega (arith, length-append bytes (drop (length bytes) block)))
        fits room small) [
          | inl (b', rep, more, e) ↦ inl (
            _,
            b',
            e,
            rw (← take-append_exact bytes (drop (length bytes) block)) rep,
            more,
            refl,
            refl,
            record {
              same_grants = refl;
              ctx = refl;
              has_buf = record { is_sized = inr (bytes ++ drop (length bytes) block, refl, kept) };
              rest_same = refl;
            },
          )
          | inr (e, no_room, refused) ↦ inr (_, e, refl, refl, inr (no_room, refused))
        ]
    where
      kept : length (bytes ++ drop (length bytes) block) ≡ size
      kept =
          omega (
            arith,
            length-append bytes (drop (length bytes) block),
            length-drop (length bytes) block,
          )

  read_payload-Outcome : DataOutcome w p st q bytes (read_payload p (length bytes) w)
  unfolding read_payload
  read_payload-Outcome = elim (reserve_recv_buf-Outcome w (length bytes) has_buf some_bytes) [
    | inl (block, size, reserved, sized, inb) ↦
        rw (read_payload-received w bytes block size got sized inb some_bytes p reserved)
          (received-Outcome block size sized inb)
    | inr (e, short, refused) ↦
        inr (w, simp (read_payload, ◌>>=◌, e) refl, refl, refl, inl (short, refused))
  ]

-- A DATA frame without flags, for a stream in the table that is neither closed nor in FIN_RECV, with
-- a payload of at least one byte that the callback has in full and that leaves the stream's receive
-- window at no less than half of the default window: the handler either succeeds, and then the
-- stream's unread bytes are those it had and the payload, its buffer has as many bytes more in use, its
-- receive window has fallen by the payload's length, no other stream has changed, and of the session
-- only the receive buffer; or it reports that memory is short, and then the allocator refused what the
-- receive buffer or the stream's buffer lacked, and no stream has changed. Nothing is sent, and a
-- success reads the payload and no more. (The session's receive buffer has the size that it notes, and
-- the stream's buffer is well formed and stays below 2^64 bytes.)
pub data_delivered :
    {C : Type 0} (w : World C) {st : Stream} {q : List ℕ} (id : ℕ) (bytes : List ℕ)
    → IsTable w.heap w.session
    → At w.heap (stream_of w id) st
    → (state_code st.state == state_code closed || state_code st.state == state_code fin_recv)
      ≡ false
    → Represents st.recvbuf q
    → HasRecvBuf w.session
    → (w.session.io.read w.ctx (length bytes)).0 ≡ some bytes
    → 0 < length bytes
    → st.recvbuf.used + length bytes < 2 ^ 64
    → window_update_threshold + length bytes ≤ st.recv_window
    → st.recv_window < 2 ^ 32
    → DataOutcome w
        (stream_of w id)
        st
        q
        bytes
        (handle_data the_session (header type_data 0 id (length bytes)) w)
unfolding handle_data has
data_delivered w {st} {q} id bytes t at alive b has_buf got some_bytes fits room small =
    subst (λ o. DataOutcome w (stream_of w id) st q bytes o) (sym handled)
      (read_payload-Outcome w bytes at b has_buf got some_bytes fits room small)
  where
    handled :
        handle_data the_session (header type_data 0 id (length bytes)) w
        ≡ read_payload (stream_of w id) (length bytes) w
    handled =
        simp
          (
            handle_data,
            has,
            ◌>>=◌,
            ◌>>◌,
            get_stream-stream_of w id t,
            not_null at,
            load-At w at,
            alive,
            ==-false (length bytes) 0 (λ e. absurd (omega arith)),
          )
          refl
