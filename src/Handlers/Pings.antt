-- ===== src/Handlers/Pings.antt =====
-- The answer to a ping (src/yamux_handlers.c).
use tiny_yamux.Base.{
  ℕ, ◌≡◌, refl, false, Option, none, some, List, ◌++◌, length, take, drop, leb, if◌then◌else◌,
  Bool-cases, inl, inr,
}
use tiny_yamux.Protocol.{be32, Result, ok, err_io, flag_ack, type_ping, has}
use tiny_yamux.Frame.{header_bytes, encode_header}
use tiny_yamux.World.{World, io_write, io_write_null, the_session, ◌>>=◌, returned}
use tiny_yamux.World.Calls.{sent_world}
use tiny_yamux.Streams.{header}
use tiny_yamux.Handlers.{send_pong, read_ping_data, handle_ping}

-- The answer is encoded over the start of the receive buffer.
unfoldable pub ponging : {C : Type 0} → World C → List ℕ → World C
ponging w old = record w {
  session = record w.session {
    recv_buf = some (header_bytes (header type_ping flag_ack 0 0) ++ drop 12 old);
  };
}

-- The eight bytes that are sent of the answer's header.
abbrev pub pong : List ℕ
pong = take 8 (header_bytes (header type_ping flag_ack 0 0))

-- The outcome of the answer where the callback is called with NULL, by what that call does.
abbrev null_outcome : {C : Type 0} → World C → Option (Option ℕ × C) → Option (Result × World C)
null_outcome w none = none
null_outcome w (some (n, c)) = some (if returned n 8 then ok else err_io, record w { ctx = c })

-- The outcome of the answer, by the receive buffer.
abbrev pub pong_outcome : {C : Type 0} → World C → Option (List ℕ) → Option (Result × World C)
pong_outcome w none = null_outcome w (w.session.io.write_null w.ctx 8)
pong_outcome w (some old) =
    if leb 12 (length old)
    then some (
      if returned (w.session.io.write w.ctx pong).0 8 then ok else err_io,
      sent_world (ponging w old) pong,
    )
    else none

-- What sending the answer does, by the receive buffer.
abbrev sending : {C : Type 0} → World C → Option (List ℕ) → Option (Option ℕ × World C)
sending w none = elim (w.session.io.write_null w.ctx 8) [
  | none ↦ none
  | some (n, c) ↦ some (n, record w { ctx = c })
]
sending w (some old) =
    if leb 12 (length old)
    then some ((w.session.io.write w.ctx pong).0, sent_world (ponging w old) pong)
    else none

send_pong-with :
    {C : Type 0} (w : World C) (buffer : Option (List ℕ))
    → w.session.recv_buf ≡ buffer
    → send_pong (header type_ping flag_ack 0 0) w ≡ sending w buffer
unfolding send_pong encode_header ponging io_write io_write_null sent_world header_bytes be32
send_pong-with w none e = rw (send_pong, ◌>>=◌, e) refl
send_pong-with w (some old) e = elim (Bool-cases (leb 12 (length old))) [
  | inr short ↦ rw (send_pong, ◌>>=◌, e, short) refl
  | inl fits ↦ rw (send_pong, ◌>>=◌, e, fits) refl
]

handle_ping-null :
    {C : Type 0} (w : World C) (flags id : ℕ) (o : Option (Option ℕ × C))
    → w.session.io.write_null w.ctx 8 ≡ o
    → w.session.recv_buf ≡ none
    → has flags flag_ack ≡ false
    → handle_ping the_session (header type_ping flags id 0) w ≡ null_outcome w o
unfolding handle_ping read_ping_data
handle_ping-null w flags id none e' e request =
    simp (handle_ping, request) (rw (◌>>=◌, send_pong-with w none e, e') refl)
handle_ping-null w flags id (some (n, c)) e' e request =
    simp (handle_ping, request)
      (rw (◌>>=◌, send_pong-with w none e, e')
        (elim (Bool-cases (returned n 8)) [ inl r ↦ rw r refl | inr r ↦ rw r refl ]))

handle_ping-with :
    {C : Type 0} (w : World C) (flags id : ℕ) (buffer : Option (List ℕ))
    → w.session.recv_buf ≡ buffer
    → has flags flag_ack ≡ false
    → handle_ping the_session (header type_ping flags id 0) w ≡ pong_outcome w buffer
unfolding handle_ping read_ping_data
handle_ping-with w flags id none e request =
    handle_ping-null w flags id (w.session.io.write_null w.ctx 8) refl e request
handle_ping-with w flags id (some old) e request = elim (Bool-cases (leb 12 (length old))) [
  | inr short ↦ simp (handle_ping, request) (rw (◌>>=◌, send_pong-with w (some old) e, short) refl)
  | inl fits ↦
      simp (handle_ping, request)
        (rw (◌>>=◌, send_pong-with w (some old) e, fits)
          (elim (Bool-cases (returned (w.session.io.write w.ctx pong).0 8)) [
            | inl r ↦ rw r refl
            | inr r ↦ rw r refl
          ]))
]

-- A ping without data that is not an answer: with no receive buffer, the handler calls the write
-- callback with NULL, and what that call does it reports, an I/O error unless 8 bytes were taken; with
-- a buffer of less than twelve bytes its behaviour is undefined; with a longer one, it sends the first
-- eight of the twelve bytes of the answer's header, and reports whether the callback took them.
pub handle_ping_lem :
    {C : Type 0} (w : World C) (flags id : ℕ)
    → has flags flag_ack ≡ false
    → handle_ping the_session (header type_ping flags id 0) w ≡ pong_outcome w w.session.recv_buf
handle_ping_lem w flags id request = handle_ping-with w flags id w.session.recv_buf refl request
