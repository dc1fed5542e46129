-- ===== src/Safety/Replies.antt =====
-- PING and GO_AWAY frames keep a session in order (src/yamux_handlers.c).
use tiny_yamux.Base.{
  ℕ, ◌<◌, ◌≤◌, ◌≡◌, inl, inr, refl, ◌∙◌, arith, true, false, some, List, ◌++◌, length, drop, take,
  ltb, ◌==◌, if◌then◌else◌, Bool-cases, Option-cases, ==_iff, length-drop, leb-true, ltb-false,
}
use tiny_yamux.Protocol.{be32, ok, Header, has, flag_ack, type_ping}
use tiny_yamux.Frame.{encoded, encode_header, header_bytes}
use tiny_yamux.World.{World, the_session, ◌>>=◌, returned}
use tiny_yamux.Streams.{header}
use tiny_yamux.Handlers.{send_pong, echo, read_ping_data, handle_ping, set_go_away, handle_go_away}
use tiny_yamux.Handlers.RecvBuf.{rebuffered}
use tiny_yamux.Safety.{InOrder}
use tiny_yamux.Safety.Total.{Returns, Returns-pure, Returns-bind, Returns-weaken}
use tiny_yamux.Safety.Lists.{rebuffered-InOrder, renoted-InOrder}
use tiny_yamux.Safety.Commands.{InOrderAfter, IsSteady, io_read-Returns, io_write-Returns}
use tiny_yamux.Safety.RecvBufs.{fill_recv_buf-InOrder}

held_block :
    {C : Type 0} {w : World C}
    → InOrder w
    → 0 < w.session.recv_buf_size
    → (block : List ℕ) × (w.session.recv_buf ≡ some block)
      × (length block ≡ w.session.recv_buf_size)
held_block o some_bytes = elim o.recv_buf.is_sized [
  | inl (_, e) ↦ absurd (omega arith)
  | inr held ↦ held
]

encode_header_room :
    (h : Header) (block : List ℕ)
    → 12 ≤ length block
    → encode_header h (some block) ≡ encoded ok (some (header_bytes h ++ drop 12 block))
unfolding encode_header
encode_header_room h block room = rw (leb-true 12 (length block) room) refl

length-header_bytes :
    (h : Header) (block : List ℕ)
    → 12 ≤ length block
    → length (header_bytes h ++ drop 12 block) ≡ length block
unfolding header_bytes be32
length-header_bytes h block room = omega (arith, length-drop 12 block)

module _ {C : Type 0} {w : World C} (o : InOrder w) where
  read_ping_data-Returns : (len : ℕ) → Returns (read_ping_data len w) (λ got w'. IsSteady w w')
  unfolding read_ping_data
  read_ping_data-Returns len = elim (Bool-cases (ltb 0 len)) [
    | inr none_there ↦
        rw none_there
          (Returns-pure (record { same_heap = refl; same_session = refl; in_order = o }))
    | inl there ↦ rw there (
        Returns-bind (io_read-Returns o (if ltb len 8 then len else 8)) λ got w₁ (steady, promise).
          elim (Option-cases got) [
            | inl e ↦ rw e (Returns-pure steady)
            | inr (bytes, e) ↦
                let short = (promise bytes e).0 in
                let fits : ltb 8 (length bytes) ≡ false = ground arith in
                rw (e, fits) (Returns-pure steady)
          ])
  ]

  send_pong-Returns :
      (response : Header)
      → 12 ≤ w.session.recv_buf_size
      → Returns (send_pong response w) (λ _ w'. InOrder w')
  unfolding send_pong rebuffered
  send_pong-Returns response big =
      let (block, held, sized) = held_block o (omega arith) in
      let filled = header_bytes response ++ drop 12 block in
      rw (send_pong, ◌>>=◌, held, encode_header_room response block (omega (arith, sized, big)))
        (Returns-weaken
          (io_write-Returns
            (rebuffered-InOrder o filled w.session.recv_buf_size
              (length-header_bytes response block (omega (arith, sized, big)) ∙ sized))
            (take 8 filled))
          (λ n w₁ steady. steady.in_order))

  echo-Returns :
      (ping_data : List ℕ) (len : ℕ) → len ≤ 8 → Returns (echo ping_data len w) InOrderAfter
  unfolding echo
  echo-Returns ping_data len small =
      rw (ltb-false 8 len small, ◌>>=◌)
        (Returns-bind (io_write-Returns o (take len ping_data)) λ n w₁ steady.
          elim (Bool-cases (returned n len)) [
            | inl all ↦ rw all (Returns-pure steady.in_order)
            | inr short ↦ rw short (Returns-pure steady.in_order)
          ])

pub handle_ping-InOrder :
    {C : Type 0} {w : World C}
    → InOrder w
    → (h : Header)
    → (has h.flags flag_ack ≡ false → (h.length ≤ 8) × (12 ≤ w.session.recv_buf_size))
    → Returns (handle_ping the_session h w) InOrderAfter
unfolding handle_ping
handle_ping-InOrder {w} o h fits = elim (Bool-cases (has h.flags flag_ack)) [
  | inl ack ↦ rw ack (Returns-pure o)
  | inr asks ↦
      let (small, big) = fits asks in
      rw (asks, ◌>>=◌)
        (Returns-bind (read_ping_data-Returns o h.length) λ got w₁ steady. elim (Option-cases got) [
          | inl e ↦ rw e (Returns-pure steady.in_order)
          | inr (ping_data, e) ↦ rw e (
              Returns-bind
                (send_pong-Returns steady.in_order (header type_ping flag_ack 0 h.length)
                  (rw steady.same_session big))
                λ n w₂ o₂. elim (Bool-cases (returned n 8)) [
                  | inr lost ↦ rw lost (Returns-pure o₂)
                  | inl sent ↦ elim (Bool-cases (ltb 0 h.length)) [
                    | inr empty ↦ rw (sent, empty) (Returns-pure o₂)
                    | inl more ↦ rw (sent, more) (echo-Returns o₂ ping_data h.length small)
                  ]
                ])
        ])
]

set_go_away-Returns : {C : Type 0} {w : World C} → InOrder w → Returns (set_go_away w) InOrderAfter
unfolding set_go_away
set_go_away-Returns {w} o = Returns-pure (renoted-InOrder o true w.session.next_stream_id)

pub handle_go_away-InOrder :
    {C : Type 0} {w : World C}
    → InOrder w
    → (h : Header) → (h.length ≡ 4 → 4 ≤ w.session.recv_buf_size)
    → Returns (handle_go_away the_session h w) InOrderAfter
unfolding handle_go_away
handle_go_away-InOrder {w} o h fits = elim (Bool-cases (h.length == 4)) [
  | inr bad ↦ rw bad (Returns-pure o)
  | inl good ↦
      let big = fits ((==_iff _ _).0 good) in
      let (block, held, sized) = held_block o (omega arith) in
      rw (good, ◌>>=◌)
        (Returns-bind (io_read-Returns o 4) λ got w₁ (steady, promise). elim (Option-cases got) [
          | inl e ↦ rw e (Returns-pure steady.in_order)
          | inr (bytes, e) ↦
              let short = (promise bytes e).0 in
              rw e (
                Returns-bind
                  (fill_recv_buf-InOrder steady.in_order bytes block (rw steady.same_session held)
                    (omega arith))
                  λ _ w₂ (o₂, _, _, _, _). elim (Bool-cases (ltb (length bytes) 4)) [
                    | inl less ↦ rw less (Returns-pure o₂)
                    | inr all ↦ rw all (set_go_away-Returns o₂)
                  ])
        ])
]
