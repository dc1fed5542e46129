-- ===== src/Session/Frames.antt =====
-- What the session does with the frames it reads, and with those that it sends itself
-- (src/yamux_session.c, src/yamux_handlers.c).
use tiny_yamux.Base.{
  ℕ, ◌<◌, ◌≡◌, ltb-false, refl, sym, ◌∙◌, arith, false, Option, none, some, List, [], length,
  if◌then◌else◌, ==-false, Bool-cases, if-false, inl, inr,
}
use tiny_yamux.Protocol.{be32, err_io, err_closed, Header, type_go_away, header_size}
use tiny_yamux.Frame.{decoded, decode_header, header_bytes}
use tiny_yamux.Frame.RoundTrip.{IsHeader, decode-header_bytes}
use tiny_yamux.World.{World, the_session, ◌>>=◌}
use tiny_yamux.World.Calls.{after_read, io_read-after, sent_world, io_write-sent}
use tiny_yamux.World.Laws.{encode_local_header, put_u32_length}
use tiny_yamux.Streams.{header}
use tiny_yamux.Session.{dispatch, session_process, send_go_away}

pub length-header_bytes : (h : Header) → length (header_bytes h) ≡ 12
unfolding header_bytes be32
length-header_bytes h = refl

decode_exact :
    (h : Header) → IsHeader h → decode_header (some (header_bytes h)) header_size ≡ decoded h
unfolding header_bytes be32
decode_exact h v = decode-header_bytes h v [] 12 (omega arith)

-- `yamux_session_process` on an open session, whose callback reads the twelve bytes of an encoded
-- header, does what the handler does for that header.
pub process_dispatches :
    {C : Type 0} (w : World C) (h : Header)
    → IsHeader h
    → w.session.go_away_received ≡ false
    → (w.session.io.read w.ctx 12).0 ≡ some (header_bytes h)
    → session_process the_session w ≡ dispatch the_session h (after_read w 12)
unfolding session_process
process_dispatches w h v opened got =
    simp (session_process, ◌>>=◌, opened, io_read-after w 12, got)
      (rw (length-header_bytes h, decode_exact h v) refl)

-- The callback fails, or has fewer bytes than a header's.
abbrev IsShort : Option (List ℕ) → Type 0
IsShort none = Unit {0}
IsShort (some bytes) = length bytes < 12

process_open :
    {C : Type 0} (w : World C) (got : Option (List ℕ))
    → w.session.go_away_received ≡ false
    → (w.session.io.read w.ctx 12).0 ≡ got
    → IsShort got
    → session_process the_session w ≡ some (err_io, after_read w 12)
unfolding session_process
process_open w none opened got short =
    simp (session_process, ◌>>=◌, opened, io_read-after w 12, got) refl
process_open w (some bytes) opened got short =
    simp (session_process, ◌>>=◌, opened, io_read-after w 12, got)
      (rw
        (
          ltb-false 12 (length bytes) (omega arith),
          ==-false (length bytes) 12 (λ e. absurd (omega arith)),
        )
        refl)

-- Where the callback fails or has fewer than twelve bytes, `yamux_session_process` reports an I/O
-- error and handles nothing; on a session that is shut down it reports that, and does not read.
process_refuses :
    {C : Type 0} (w : World C)
    → IsShort (w.session.io.read w.ctx 12).0
    → session_process the_session w ≡ (
        if w.session.go_away_received then some (err_closed, w) else some (err_io, after_read w 12))
unfolding session_process
process_refuses w short = elim (Bool-cases w.session.go_away_received) [
  | inl shut ↦ simp (session_process, ◌>>=◌, shut) refl
  | inr opened ↦
      process_open w (w.session.io.read w.ctx 12).0 opened refl short
      ∙ sym (if-false (some (err_closed, w)) (some (err_io, after_read w 12)) opened)
]

-- A peer that is open and reads, as its next twelve bytes, the header `h`.
pub record Receives {C : Type 0} (v : World C) (h : Header) : Type 0 where
  pub is_open : v.session.go_away_received ≡ false
  pub reads : (v.session.io.read v.ctx 12).0 ≡ some (header_bytes h)

pub send_go_away-sent :
    {C : Type 0} (w : World C) (err : ℕ)
    → send_go_away err w ≡ some (tt, sent_world w (header_bytes (header type_go_away 0 0 err)))
unfolding send_go_away
send_go_away-sent w err =
    simp
      (
        send_go_away,
        ◌>>=◌,
        encode_local_header (header type_go_away 0 0 4) w,
        put_u32_length (header type_go_away 0 0 4) err,
        io_write-sent w (header_bytes (header type_go_away 0 0 err)),
      )
      refl
