-- ===== src/Safety/Syns.antt =====
-- WINDOW_UPDATE frames that open a stream keep a session in order (src/yamux_handlers.c).
use tiny_yamux.Base.{
  ℕ, ◌^◌, ◌<◌, ◌≡◌, inl, inr, refl, ap, ◌∙◌, arith, Bool, true, false, some, List, [], ◌∷◌, length,
  ltb, ◌==◌, ◌&&◌, ◌+◌, if◌then◌else◌, Bool-cases, Option-cases,
}
use tiny_yamux.Protocol.{ok, is_ok, Header, has, flag_syn, flag_ack, header_size}
use tiny_yamux.Frame.{IsBytes}
use tiny_yamux.Frame.RoundTrip.{join_u32_sum}
use tiny_yamux.World.{
  for_buffer, for_stream, Ptr, null, Stream, World, the_session, ◌>>=◌, sizeof_stream, returned,
  Session,
}
use tiny_yamux.World.Laws.{At, encode_local_frame}
use tiny_yamux.Table.Born.{new_stream-born, born-At}
use tiny_yamux.AcceptQueue.{enqueue_stream_for_accept}
use tiny_yamux.AcceptQueue.Fifo.{enqueue_appends}
use tiny_yamux.Handlers.WindowUpdate.{
  Plan, no_payload, window_payload, bad_length, payload_plan, payload, window_of, read_window, Step,
  stop, continue, send_syn_ack, admit, syn_new, on_syn, opens,
}
use tiny_yamux.Handlers.WindowUpdate.Effects.{update_frame}
use tiny_yamux.Safety.{IsSound, InOrder}
use tiny_yamux.Safety.Buffers.{init-IsBuffer}
use tiny_yamux.Safety.Total.{Returns, returns, Returns-pure, Returns-bind}
use tiny_yamux.Safety.Commands.{At-along, MayHold, IsSteady, io_read-Returns, io_write-Returns}
use tiny_yamux.Safety.Lists.{born-InOrder, born-NotWaiting, vacant}
use tiny_yamux.Safety.Waiting.{NotWaiting}
use tiny_yamux.Safety.Queueing.{enqueued-InOrder}
use tiny_yamux.Safety.Tables.{
  SameStreams, SameStreams-NotWaiting, add_stream-Returns, remove_stream-Returns,
  free_stream-Returns, born-NotIn,
}

window_of_fits : (bytes : List ℕ) (v : ℕ) → IsBytes bytes → window_of bytes ≡ some v → v < 2 ^ 32
unfolding window_of
window_of_fits (a ∷ b ∷ c ∷ d ∷ []) v (ha, (hb, (hc, (hd, _)))) e =
    grind (arith, join_u32_sum a b c d hb hc hd)
window_of_fits [] v h e = cc
window_of_fits (a ∷ []) v h e = cc
window_of_fits (a ∷ b ∷ []) v h e = cc
window_of_fits (a ∷ b ∷ c ∷ []) v h e = cc
window_of_fits (a ∷ b ∷ c ∷ d ∷ f ∷ bytes) v h e = cc

module _ {C : Type 0} {w : World C} (o : InOrder w) where
  read_window-Returns :
      Returns (read_window w) (λ got w'. InOrder w' × ((v : ℕ) → got ≡ some v → v < 2 ^ 32))
  unfolding read_window
  read_window-Returns = Returns-bind (io_read-Returns o 4) λ got w₁ (steady, promise).
      elim (Option-cases got) [
        | inl e ↦ rw e (Returns-pure (steady.in_order, λ v e'. cc))
        | inr (bytes, e) ↦
            let (short, whole) = promise bytes e in
            let fits : ltb 4 (length bytes) ≡ false = ground arith in
            rw (e, fits) (Returns-pure (steady.in_order, λ v e'. window_of_fits bytes v whole e'))
      ]

  -- The window that comes with the frame.
  pub payload-Returns :
      (h : Header) → Returns (payload h w) (λ got w'. InOrder w' × (got.1 < 2 ^ 32))
  unfolding payload
  payload-Returns h = go (payload_plan h.flags h.length) refl
    where
      go :
          (plan : Plan)
          → payload_plan h.flags h.length ≡ plan
          → Returns (payload h w) (λ got w'. InOrder w' × (got.1 < 2 ^ 32))
      go no_payload e = rw (payload, e) (Returns-pure (o, omega arith))
      go bad_length e = rw (payload, e) (Returns-pure (o, omega arith))
      go window_payload e =
          rw (payload, e, ◌>>=◌)
            (Returns-bind read_window-Returns λ got w₁ (o₁, fits). elim (Option-cases got) [
              | inl e' ↦ rw e' (Returns-pure (o₁, omega arith))
              | inr (v, e') ↦ rw e' (Returns-pure (o₁, fits v e'))
            ])

-- How a step of the handler leaves the state.
abbrev pub AfterStep : {C : Type 0} → Step → World C → Type 0
AfterStep (stop r) w = InOrder w
AfterStep (continue p) w = InOrder w × MayHold w p

SameStreams-IsSteady :
    {C : Type 0} {w w₁ w₂ : World C} → SameStreams w w₁ → IsSteady w₁ w₂ → SameStreams w w₂
SameStreams-IsSteady same steady = record {
  same_heap = steady.same_heap ∙ same.same_heap;
  same_queue = ap {A = Session _} (λ s. s.accept_queue) steady.same_session ∙ same.same_queue;
  in_order = steady.in_order;
}

module _ {C : Type 0} {w : World C} (o : InOrder w) (p : Ptr) {st : Stream} (at : At w.heap p st)
    (apart : NotWaiting w p) where
  -- The stream goes to the end of the queue.
  enqueue-Returns :
      Returns (enqueue_stream_for_accept the_session p w) (λ _ w'. InOrder w' × MayHold w' p)
  enqueue-Returns =
      let (w', e, enq) =
        enqueue_appends w o.waiting o.queue at (o.below p st at) (apart o.waiting o.queue.chain) in
      let (n, at') = enq.kept p st at in returns ok w' e (enqueued-InOrder o enq, inr (_, at'))

send_syn_ack-Returns :
    {C : Type 0} {w : World C}
    → InOrder w
    → (id window : ℕ) → Returns (send_syn_ack id window w) (λ _ w'. IsSteady w w')
unfolding send_syn_ack
send_syn_ack-Returns {w} o id window =
    rw (◌>>=◌, encode_local_frame (update_frame (flag_syn + flag_ack) id 4) w)
      (io_write-Returns o _)

module _ {C : Type 0} {w : World C} (o : InOrder w) where
  -- A stream that the table does not take is freed again.
  admit-Returns : (st : Stream) → IsSound st → Returns (admit st w) AfterStep
  unfolding admit
  admit-Returns st sound =
      let o₁ = born-InOrder o st sound in
      let at₁ = born-At w o.table (vacant o) o.queue.started st in
      let apart = born-NotWaiting o st in
      rw (◌>>=◌, new_stream-born w st)
        (Returns-bind (add_stream-Returns o₁ at₁) λ r w₂ outcome. elim outcome [
          | inr (failed, e) ↦
              rw (failed, e)
                (Returns-bind (free_stream-Returns o₁ at₁ (born-NotIn o st) apart)
                  λ _ w₃ o₃. Returns-pure o₃)
          | inl (added, same) ↦ rw added (
              Returns-bind (send_syn_ack-Returns same.in_order st.id st.recv_window) λ n w₃ steady.
                let same₃ = SameStreams-IsSteady same steady in
                elim (Bool-cases (returned n (header_size + 4))) [
                  | inr lost ↦ rw lost (
                      Returns-bind (remove_stream-Returns steady.in_order st.id)
                        λ _ w₄ (same₄, _). Returns-pure same₄.in_order)
                  | inl sent ↦ rw sent (
                      Returns-bind
                        (enqueue-Returns steady.in_order w.fresh (At-along same₃.same_heap at₁)
                          (SameStreams-NotWaiting same₃ apart))
                        λ _ w₄ after. Returns-pure after)
                ])
        ])

  syn_new-Returns :
      (h : Header) (window : ℕ) → window < 2 ^ 32 → Returns (syn_new h window w) AfterStep
  unfolding syn_new
  syn_new-Returns h window small = elim (Bool-cases (w.grants for_stream sizeof_stream)) [
    | inr refused ↦ rw (◌>>=◌, refused) (Returns-pure o)
    | inl fits ↦
        let (r, b, e, buf) = init-IsBuffer (w.grants for_buffer) in
        rw (◌>>=◌, fits, e)
          (elim (Bool-cases (is_ok r)) [
            | inr failed ↦ rw failed (Returns-pure o)
            | inl made ↦ rw made (
                admit-Returns _ (record {
                  buffer = buf;
                  send_fits = window_choice (h.length == 0 && opens h.flags) o.window_fits;
                  recv_fits = o.window_fits;
                }))
          ])
  ]
    where
      window_choice : (b : Bool) {v : ℕ} → v < 2 ^ 32 → (if b then v else window) < 2 ^ 32
      window_choice true h = h
      window_choice false h = small

  pub on_syn-Returns :
      (h : Header) (window : ℕ) {p : Ptr}
      → window < 2 ^ 32
      → MayHold w p
      → Returns (on_syn h window p w) AfterStep
  unfolding on_syn
  on_syn-Returns h window {p} small there = elim (Bool-cases (has h.flags flag_syn)) [
    | inr plain ↦ rw plain (Returns-pure (o, there))
    | inl syn ↦ elim (Bool-cases w.session.client) [
      | inl client ↦ simp (syn, ◌>>=◌, client) (Returns-pure (o, there))
      | inr server ↦ elim (Bool-cases (p == null)) [
        | inr taken ↦ simp (syn, ◌>>=◌, server, taken) (Returns-pure o)
        | inl free ↦ simp (syn, ◌>>=◌, server, free) (syn_new-Returns h window small)
      ]
    ]
  ]
