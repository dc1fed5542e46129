-- ===== src/Port/Calls.antt =====
-- What the public functions return (src/yamux_port.c).
use tiny_yamux.World.Calls.{AcceptsAll}
use tiny_yamux.Base.{
  ℕ, ◌^◌, ◌<◌, ◌≤◌, ◌≡◌, ◌≢◌, inl, inr, refl, arith, true, false, none, some, List, length, take,
  drop, ◌==◌, if◌then◌else◌, ==-false,
}
use tiny_yamux.Protocol.{Result, closed, state_code, is_ok}
use tiny_yamux.Buffer.{Buffer}
use tiny_yamux.Buffer.Queue.{Represents}
use tiny_yamux.World.{for_context, Purpose, Ptr, null, Stream, World, the_session, ◌>>=◌, update}
use tiny_yamux.World.Laws.{At, not_null}
use tiny_yamux.Table.Lookup.{IsTable, stream_of}
use tiny_yamux.Streams.Read.{stream_read_takes}
use tiny_yamux.Streams.Open.{id_taken, stream_open-Opened}
use tiny_yamux.Streams.Opening.{Opened}
use tiny_yamux.Streams.WriteCall.{finished, Sends, stream_write-Sends}
use tiny_yamux.Port.{
  int_of, negsuc, result_code, context, sizeof_stream_context, yamux_open_stream, yamux_read,
  yamux_write,
}

-- `yamux_read` for `len` bytes, 0 < `len`, on a stream that is not closed returns how many it took, as a C `int`: the
-- first `len` unread bytes, or all if there are fewer, which the stream keeps no longer.
yamux_read_takes :
    {C : Type 0} (w : World C) {p : Ptr} {st : Stream} {q : List ℕ} (len : ℕ)
    → At w.heap p st
    → (state_code st.state == state_code closed) ≡ false
    → Represents st.recvbuf q
    → len ≢ 0
    → (w' : World C) × (b' : Buffer) × (yamux_read p len w
        ≡ some ((int_of (length (take len q)), take len q), w'))
      × Represents b' (drop len q)
      × (w'.heap ≡ update w.heap p (some (record st { recvbuf = b' })))
unfolding yamux_read
yamux_read_takes w len at alive rep ne =
    let (w', b', run, rep', heap, _) = stream_read_takes w len at alive rep ne in
    (w', b', simp (yamux_read, ◌>>=◌, not_null at, ==-false len 0 ne, run) refl, rep', heap)

-- `yamux_write`, under the conditions and with the effects of `yamux_stream_write`, which gives a result
-- and a count: with YAMUX_OK it returns the count as a C `int`, which is negative from 2^31 on, and
-- otherwise, where the callback did not take a write whole, -3.
pub yamux_write-Sends :
    {C : Type 0} (w : World C) {p : Ptr} {st : Stream} (buf : List ℕ) (len : ℕ)
    → At w.heap p st
    → finished st.state ≡ false
    → 0 < len
    → len < 2 ^ 64
    → len ≤ length buf
    → 0 < st.send_window
    → st.send_window < 2 ^ 32
    → (r : Result) × (n : ℕ) × (w' : World C) × (yamux_write p (some buf) len w
        ≡ some (if is_ok r then int_of n else negsuc 2, w'))
      × Sends w p st buf len r n w'
unfolding yamux_write result_code
yamux_write-Sends w buf len at live some_bytes fits inb some_room small =
    let (r, n, w', run, sends) =
      stream_write-Sends w buf len at live some_bytes fits inb some_room small in
    (
      r,
      n,
      w',
      simp (yamux_write, ◌>>=◌, not_null at, ==-false len 0 (λ e. absurd (omega arith)), run)
          (elim sends.frames.ending [ inl (e, _, _) ↦ rw e refl | inr (e, _) ↦ rw e refl ]),
      sends,
    )

-- `yamux_open_stream` returns a new stream, opened as `yamux_stream_open_detailed` opens one for id 0,
-- under the conditions that that function succeeds on.
yamux_open_stream-Opened :
    {C : Type 0} (w : World C)
    → IsTable w.heap w.session
    → w.heap w.fresh ≡ none
    → 0 < w.fresh
    → w.session.go_away_received ≡ false
    → AcceptsAll w.session.io
    → ((purpose : Purpose) (n : ℕ) → w.grants purpose n ≡ true)
    → stream_of w w.session.next_stream_id ≡ null
    → (w' : World C) × (buffer : Buffer) × (yamux_open_stream (context the_session) w
        ≡ some (w.fresh, w'))
      × Opened w (id_taken w).session w.session.next_stream_id buffer w'
unfolding yamux_open_stream
yamux_open_stream-Opened w t vacant started is_open all grants absent =
    let (w', buffer, run, o, _) = stream_open-Opened w t vacant started is_open all grants absent in
    (
      w',
      buffer,
      simp (yamux_open_stream, ◌>>=◌, grants for_context sizeof_stream_context, run) refl,
      o,
    )
