-- ===== src/Session/Message.antt =====
-- A message from one session to another: written, processed and read (src/yamux_session.c,
-- src/yamux_stream.c, src/yamux_handlers.c).
use tiny_yamux.Handlers.Delivery.{IsRefused}
use tiny_yamux.Base.{
  ℕ, ◌+◌, ◌^◌, ◌<◌, ◌≤◌, ◌≡◌, ◌⊎◌, inl, inr, ap, ◌∙◌, arith, false, some, List, [], ◌∷◌, ◌++◌, ◌||◌,
  take, length, ◌==◌, length-take, length-append, take_all,
}
use tiny_yamux.Protocol.{
  ok, err_nomem, type_data, closed, fin_recv, state_code, max_data_frame_size,
  window_update_threshold,
}
use tiny_yamux.Frame.{header_bytes}
use tiny_yamux.Buffer.Queue.{Represents}
use tiny_yamux.World.{Ptr, Stream, World, the_session}
use tiny_yamux.World.Laws.{At, At-update}
use tiny_yamux.World.Calls.{AcceptsAll, after_read}
use tiny_yamux.Table.Lookup.{IsTable, stream_of}
use tiny_yamux.Streams.{header}
use tiny_yamux.Streams.Transfer.{stream_read, stream_write}
use tiny_yamux.Streams.HalfClose.{or_false_left}
use tiny_yamux.Streams.OneFrame.{stream_write_one}
use tiny_yamux.Streams.Read.{stream_read_takes}
use tiny_yamux.Streams.WriteCall.{finished}
use tiny_yamux.Handlers.Filling.{filled}
use tiny_yamux.Handlers.RecvBuf.{HasRecvBuf}
use tiny_yamux.Session.{session_process}
use tiny_yamux.Session.Frames.{Receives}
use tiny_yamux.Session.Served.{chunk_served}

-- The receiver after the frame with `bytes` for its stream `st` at `p`, whose unread bytes were `q`: a
-- read gives them and then the bytes, or the allocator refused memory and the streams are as they were.
abbrev pub Received : {C : Type 0} → World C → Ptr → Stream → List ℕ → List ℕ → Type 0
Received {C} v p st q bytes =
    ((v' : World C) × (v'' : World C) × (session_process the_session v ≡ some (ok, v'))
      × (stream_read p (length q + length bytes) v' ≡ some ((ok, q ++ bytes), v'')))
    ⊎ ((v' : World C) × (session_process the_session v ≡ some (err_nomem, v'))
        × (v'.heap ≡ v.heap)
        × IsRefused v st (length bytes))

module _ {D : Type 0} (v : World D) {st : Stream} {q : List ℕ} (id : ℕ) (bytes : List ℕ)
    (t : IsTable v.heap v.session) (at : At v.heap (stream_of v id) st)
    (alive : (state_code st.state == state_code closed
        || state_code st.state == state_code fin_recv)
      ≡ false)
    (rep : Represents st.recvbuf q) (has_buf : HasRecvBuf v.session) (id_fits : id < 2 ^ 32)
    (some_bytes : 0 < length bytes) (fits : st.recvbuf.used + length bytes < 2 ^ 64)
    (room : window_update_threshold + length bytes ≤ st.recv_window)
    (small : st.recv_window < 2 ^ 32) where
  message-Received :
      Receives v (header type_data 0 id (length bytes))
      → (v.session.io.read (after_read v 12).ctx (length bytes)).0 ≡ some bytes
      → Received v (stream_of v id) st q bytes
  unfolding after_read
  message-Received r got =
      elim (chunk_served v id bytes t at alive rep has_buf id_fits r got some_bytes fits room
        small) [
          | inr (v', e, same, _, refused) ↦ inr (v', e, same, refused)
          | inl (v', b, e, rep', _, heap, _, _) ↦
              let at' : At v'.heap (stream_of v id) (filled st b (length bytes)) =
                rw heap (At-update v.heap (stream_of v id) _ at.ne_null) in
              let (v'', b', run, _, _, _) =
                stream_read_takes v' (length q + length bytes) at'
                  (or_false_left (state_code st.state == state_code closed)
                    (state_code st.state == state_code fin_recv) alive)
                  rep' (λ z. absurd (omega arith)) in
              inl (
                v',
                v'',
                e,
                run
                    ∙ ap (λ xs. some ((ok, xs), v''))
                        (take_all (length q + length bytes) (q ++ bytes)
                          (omega (arith, length-append q bytes))),
              )
        ]

-- A message of 1 to 16384 bytes, within the window of a stream that is not closing, through a callback
-- that takes every write whole: the write succeeds, and sends one frame, whose header and payload a
-- peer that has the stream open and reads exactly these bytes processes; a read of the peer's stream
-- then gives what was unread before, and behind it the message, byte for byte; or the peer's
-- allocator refused memory for it, which the peer reports, and its streams stay. (The peer's stream has
-- the room for it in its buffer and in its window, of which half of the default is left.)
pub message_passes :
    {C D : Type 0} (w : World C) (v : World D) {p : Ptr} {st st' : Stream} {q : List ℕ}
    (buf : List ℕ) (len : ℕ)
    → AcceptsAll w.session.io
    → At w.heap p st
    → finished st.state ≡ false
    → 0 < len
    → len ≤ max_data_frame_size
    → len ≤ length buf
    → len ≤ st.send_window
    → st.send_window < 2 ^ 32
    → st.id < 2 ^ 32
    → IsTable v.heap v.session
    → At v.heap (stream_of v st.id) st'
    → (state_code st'.state == state_code closed || state_code st'.state == state_code fin_recv)
      ≡ false
    → Represents st'.recvbuf q
    → HasRecvBuf v.session
    → st'.recvbuf.used + len < 2 ^ 64
    → window_update_threshold + len ≤ st'.recv_window
    → st'.recv_window < 2 ^ 32
    → Receives v (header type_data 0 st.id len)
    → (v.session.io.read (after_read v 12).ctx len).0 ≡ some (take len buf)
    → (w' : World C) × (stream_write p (some buf) len w ≡ some ((ok, len), w'))
      × (w'.sent ≡ w.sent ++ (header_bytes (header type_data 0 st.id len) ∷ take len buf ∷ []))
      × Received v (stream_of v st.id) st' q (take len buf)
message_passes w v {p} {st} {st'} {q} buf len all at live some_bytes small inb room window id_fits t
      at' alive rep has_buf fits peer_room peer_window r got =
    let (w', run, sent) = stream_write_one w buf len all at some_bytes small inb room window live in
    (
      w',
      run,
      sent,
      message-Received v st.id (take len buf) t at' alive rep has_buf id_fits (rw size some_bytes)
          (rw size fits) (rw size peer_room) peer_window (rw size r) (rw size got),
    )
  where
    size : length (take len buf) ≡ len
    size = omega (arith, length-take len buf)
