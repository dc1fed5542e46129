-- ===== src/Streams/WriteCall.antt =====
-- The calls of `yamux_stream_write` (src/yamux_stream.c).

use tiny_yamux.Base.{
  or_right, ℕ, suc, ◌-◌, ◌^◌, ◌≤◌, ◌<◌, ◌≡◌, ◌≢◌, inl, inr, refl, arith, Bool, true, false, ◌||◌,
  some, List, take, drop, length, min, ltb, ◌==◌, if◌then◌else◌, ==-false, Bool-cases,
}
use tiny_yamux.Protocol.{
  Result, ok, err_closed, err_would_block, StreamState, state_code, closed, fin_sent, fin_recv,
}
use mathlib.Core.Path.{subst}
use tiny_yamux.World.{Ptr, Stream, World, ◌>>=◌}
use tiny_yamux.World.Laws.{At, not_null, load-At}
use tiny_yamux.Streams.Transfer.{write_checked, stream_write}
use tiny_yamux.Streams.Frames.{Wrote, FramesSent}
use tiny_yamux.Streams.Write.{write_loop-Ends}

-- The states in which a stream refuses to be written.
abbrev pub finished : StreamState → Bool
finished s =
    state_code s == state_code closed
    || (state_code s == state_code fin_sent || state_code s == state_code fin_recv)

-- What a call that reports `r` and writes `n` bytes of `buf` leaves: the window of the stream falls by
-- the count, which is within the length and the window, and the first `n` bytes went out as whole
-- frames that the callback took; what was sent more is the frame that it did not take, if there is one.
pub record Sends {C : Type 0} (w : World C) (p : Ptr) (st : Stream) (buf : List ℕ) (len : ℕ)
    (r : Result) (n : ℕ) (w' : World C) : Type 0 where
  pub within_len : n ≤ len
  pub within_window : n ≤ st.send_window
  pub stream : At w'.heap p (record st { send_window = st.send_window - n })
  pub others : (q : Ptr) → q ≢ p → w'.heap q ≡ w.heap q
  pub same_session : w'.session ≡ w.session
  pub frames : FramesSent w st.id (take n buf) (drop n buf) r w'

Sends-Wrote :
    {C : Type 0} {w w' : World C} {p : Ptr} {st : Stream} {buf : List ℕ} (len : ℕ) {r : Result}
    {n : ℕ}
    → Wrote w p st buf (min len st.send_window) 0 r n w'
    → Sends w p st buf len r n w'
Sends-Wrote {w} {w'} {p} {st} {buf} len {r} {n} wrote = record {
  within_len = omega (arith, wrote.within);
  within_window = omega (arith, wrote.within);
  stream =
      subst (λ k. At w'.heap p (record st { send_window = st.send_window - k })) from_zero
        wrote.stream;
  others = wrote.others;
  same_session = wrote.same_session;
  frames = subst (λ k. FramesSent w st.id (take k buf) (drop n buf) r w') from_zero wrote.frames;
}
  where
    from_zero : n - 0 ≡ n
    from_zero = omega arith

-- `yamux_stream_write` of `len` bytes, 0 < `len` < 2^64, from an array that holds them, on a stream
-- that is not closing and has a window of at least 1 and below 2^32, returns, with YAMUX_OK or
-- YAMUX_ERR_IO and a count that is at most `len` and the window. The window falls by exactly the
-- count; the other streams and the session stay. The callback took, each write whole, a list of DATA
-- frames of 1 to 16384 bytes each, header and payload apart, whose payloads join to the first bytes of
-- the array, as many as the count says. With YAMUX_OK no more was sent; with YAMUX_ERR_IO the header,
-- or the header and the payload, of a frame of the next bytes, of which a write was not taken whole.
pub stream_write-Sends :
    {C : Type 0} (w : World C) {p : Ptr} {st : Stream} (buf : List ℕ) (len : ℕ)
    → At w.heap p st
    → finished st.state ≡ false
    → 0 < len
    → len < 2 ^ 64
    → len ≤ length buf
    → 0 < st.send_window
    → st.send_window < 2 ^ 32
    → (r : Result) × (n : ℕ) × (w' : World C) × (stream_write p (some buf) len w
        ≡ some ((r, n), w'))
      × Sends w p st buf len r n w'
unfolding stream_write write_checked
stream_write-Sends w {p} {st} buf len at live some_bytes fits inb some_room small =
    let (r, n, w', e, done) =
      write_loop-Ends p buf m (suc m) w 0 (omega arith) at (omega arith) (omega arith) (omega arith)
        (omega arith) small in
    (
      r,
      n,
      w',
      simp
          (
            stream_write,
            write_checked,
            not_null at,
            ◌>>=◌,
            load-At w at,
            live,
            ==-false len 0 (omega arith),
            ==-false st.send_window 0 (omega arith),
            capped,
          )
          e,
      Sends-Wrote len done,
    )
  where
    m : ℕ
    m = min len st.send_window

    capped : (if ltb st.send_window len then st.send_window else len) ≡ m
    capped = ground arith

-- `yamux_stream_write` on a stream that is closed or closing, for a length of 0, or with no window
-- reports, in this order, a closed stream, success, or that it would block; it writes 0 bytes and
-- changes nothing.
stream_write_refused :
    {C : Type 0} (w : World C) {p : Ptr} {st : Stream} (buf : List ℕ) (len : ℕ)
    → At w.heap p st
    → (finished st.state || (len == 0 || st.send_window == 0)) ≡ true
    → stream_write p (some buf) len w
      ≡ some (
        (if finished st.state then err_closed else if len == 0 then ok else err_would_block, 0),
        w,
      )
unfolding stream_write write_checked
stream_write_refused w {p} {st} buf len at refused = elim (Bool-cases (finished st.state)) [
  | inl over ↦ simp (stream_write, write_checked, not_null at, ◌>>=◌, load-At w at, over) refl
  | inr live ↦ elim (Bool-cases (len == 0)) [
    | inl e ↦ simp (stream_write, write_checked, not_null at, ◌>>=◌, load-At w at, live, e) refl
    | inr ne ↦
        simp
          (
            stream_write,
            write_checked,
            not_null at,
            ◌>>=◌,
            load-At w at,
            live,
            ne,
            or_right (len == 0) (st.send_window == 0) ne
                (or_right (finished st.state) (len == 0 || st.send_window == 0) live refused),
          )
          refl
  ]
]
