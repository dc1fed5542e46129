-- ===== src/Safety/Process.antt =====
-- Every frame that the handlers can take keeps a session in order (src/yamux_session.c,
-- src/yamux_handlers.c).
use tiny_yamux.Base.{
  ℕ, ◌^◌, ◌<◌, ◌≤◌, ◌≡◌, ◌⊎◌, inl, inr, arith, false, some, List, [], ◌∷◌, length, ltb, ◌==◌,
  Bool-cases, Option-cases, ==_iff, ltb-false,
}
use tiny_yamux.Protocol.{
  Result, err_protocol, Header, has, flag_ack, type_data, type_window_update, type_ping,
  type_go_away, header_size,
}
use tiny_yamux.Frame.{Decoded, decoded, refused, decode_header}
use tiny_yamux.Frame.Accepts.{decode_header_total}
use tiny_yamux.Frame.Fields.{decode_header-IsHeader}
use tiny_yamux.World.{World, the_session, ◌>>=◌, M, pure, undefined}
use tiny_yamux.World.Calls.{after_read, io_read-after}
use tiny_yamux.Session.{dispatch, session_process}
use tiny_yamux.Safety.{InOrder}
use tiny_yamux.Safety.Total.{Returns, Returns-pure}
use tiny_yamux.Safety.Keeps.{after_read-InOrder}
use tiny_yamux.Safety.Commands.{InOrderAfter}
use tiny_yamux.Safety.Data.{handle_data-InOrder}
use tiny_yamux.Safety.Updates.{handle_window_update-InOrder}
use tiny_yamux.Safety.Replies.{handle_go_away-InOrder, handle_ping-InOrder}

-- What the receive buffer, of `size` bytes, must be for a frame: PING is answered from it and echoes
-- at most eight bytes, and the reason of GO_AWAY is read into it.
pub record IsServable (size : ℕ) (h : Header) : Type 0 where
  pub ping : h.type ≡ type_ping → has h.flags flag_ack ≡ false → (h.length ≤ 8) × (12 ≤ size)
  pub go_away : h.type ≡ type_go_away → h.length ≡ 4 → 4 ≤ size

dispatch-InOrder :
    {C : Type 0} {w : World C}
    → InOrder w
    → (h : Header) → h.length < 2 ^ 32
    → IsServable w.session.recv_buf_size h
    → Returns (dispatch the_session h w) InOrderAfter
unfolding dispatch
dispatch-InOrder o h small fits = elim (Bool-cases (h.type == type_data)) [
  | inl payload ↦ rw payload (handle_data-InOrder o h small)
  | inr not_payload ↦ elim (Bool-cases (h.type == type_window_update)) [
    | inl update ↦ rw (not_payload, update) (handle_window_update-InOrder o h)
    | inr not_update ↦ elim (Bool-cases (h.type == type_ping)) [
      | inl ping ↦
          rw (not_payload, not_update, ping)
            (handle_ping-InOrder o h (fits.ping ((==_iff _ _).0 ping)))
      | inr not_ping ↦ elim (Bool-cases (h.type == type_go_away)) [
        | inl go_away ↦
            rw (not_payload, not_update, not_ping, go_away)
              (handle_go_away-InOrder o h (fits.go_away ((==_iff _ _).0 go_away)))
        | inr unknown ↦ rw (not_payload, not_update, not_ping, unknown) (Returns-pure o)
      ]
    ]
  ]
]

-- The next frame, if there is one, is servable.
abbrev pub NextServable : {C : Type 0} → World C → Type 0
NextServable w =
    (bytes : List ℕ) (h : Header)
    → (w.session.io.read w.ctx header_size).0 ≡ some bytes
    → decode_header (some bytes) header_size ≡ decoded h
    → IsServable w.session.recv_buf_size h

-- Twelve bytes are a frame's header, or refused.
decode_header-cases :
    (bytes : List ℕ)
    → length bytes ≡ header_size
    → ((h : Header) × (decode_header (some bytes) header_size ≡ decoded h))
      ⊎ (decode_header (some bytes) header_size ≡ refused err_protocol)
decode_header-cases (v ∷ t ∷ rest) e =
    elim (decode_header_total v t rest header_size (omega arith) (omega arith)) [
      | inl (_, _, (h, e', _)) ↦ inl (h, e')
      | inr (_, e') ↦ inr e'
    ]
decode_header-cases (v ∷ []) e = absurd (omega arith)
decode_header-cases [] e = absurd (omega arith)

module _ {C : Type 0} {w : World C} (o : InOrder w) (servable : NextServable w)
    (is_open : w.session.go_away_received ≡ false) where
  -- Once twelve bytes are there.
  process_read :
      (bytes : List ℕ)
      → (w.session.io.read w.ctx header_size).0 ≡ some bytes
      → length bytes ≡ header_size
      → Returns
          ((elim (decode_header (some bytes) header_size) as (λ _. M C Result) [
            | refused r ↦ pure r
            | Decoded.undefined ↦ undefined
            | decoded h ↦ dispatch the_session h
          ])
            (after_read w header_size))
          InOrderAfter
  unfolding after_read
  process_read bytes got whole =
      let o₁ = after_read-InOrder header_size o in
      elim (decode_header-cases bytes whole) [
        | inr e ↦ rw e (Returns-pure o₁)
        | inl (h, e) ↦ rw e (
            dispatch-InOrder o₁ h
              (decode_header-IsHeader bytes header_size h (o.reader w.ctx header_size bytes got).1
                e).length_u32
              (same_size (servable bytes h got e)))
      ]
    where
      same_size :
          {h : Header}
          → IsServable w.session.recv_buf_size h
          → IsServable (after_read w header_size).session.recv_buf_size h
      same_size fits = fits

-- A call of `yamux_session_process` on a session that is in order and whose next frame is servable
-- returns and leaves the session in order, whatever the frame is and whatever the callbacks say.
pub session_process-InOrder :
    {C : Type 0} {w : World C}
    → InOrder w
    → NextServable w
    → Returns (session_process the_session w) InOrderAfter
unfolding session_process
session_process-InOrder {w} o servable = elim (Bool-cases w.session.go_away_received) [
  | inl shut ↦ simp (session_process, ◌>>=◌, shut) (Returns-pure o)
  | inr is_open ↦ elim (Option-cases (w.session.io.read w.ctx header_size).0) [
    | inl lost ↦
        simp (session_process, ◌>>=◌, is_open, io_read-after w header_size, lost)
          (Returns-pure (after_read-InOrder header_size o))
    | inr (bytes, got) ↦
        let within : ltb header_size (length bytes) ≡ false =
          ltb-false header_size (length bytes) (o.reader w.ctx header_size bytes got).0 in
        elim (Bool-cases (length bytes == header_size)) [
          | inr short ↦
              simp
                (session_process, ◌>>=◌, is_open, io_read-after w header_size, got, within, short)
                (Returns-pure (after_read-InOrder header_size o))
          | inl whole ↦
              simp
                (session_process, ◌>>=◌, is_open, io_read-after w header_size, got, within, whole)
                (process_read o servable is_open bytes got ((==_iff _ _).0 whole))
        ]
  ]
]
