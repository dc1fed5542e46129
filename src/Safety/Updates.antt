-- ===== src/Safety/Updates.antt =====
-- WINDOW_UPDATE frames, whatever their flags, keep a session in order (src/yamux_handlers.c).
use tiny_yamux.Base.{
  ℕ, ◌+◌, ◌^◌, ◌<◌, ◌≡◌, ◌⊎◌, inl, inr, refl, arith, Bool, false, not, ◌==◌, ◌&&◌, Bool-cases,
}
use tiny_yamux.Protocol.{
  Result, is_ok, closed, fin_recv, Header, has, flag_syn, flag_ack, flag_fin, flag_rst, add_u32,
}
use tiny_yamux.World.{Ptr, null, Stream, World, ◌>>=◌, M, pure}
use tiny_yamux.World.Laws.{At, load-At, encode_local_header}
use tiny_yamux.Handlers.WindowUpdate.{
  Step, stop, continue, acked, on_ack, on_window, on_fin, on_rst, rest_of_update,
  handle_window_update,
}
use tiny_yamux.Handlers.WindowUpdate.Effects.{update_frame}
use tiny_yamux.Safety.{InOrder}
use tiny_yamux.Safety.Total.{Returns, Returns-pure, Returns-bind, Returns-weaken}
use tiny_yamux.Safety.Commands.{
  InOrderAfter, MayHold, IsSteady-At, get_stream-Returns, store-Returns, io_write-Returns,
}
use tiny_yamux.Safety.Tables.{remove_stream-Returns}
use tiny_yamux.Safety.Syns.{AfterStep, payload-Returns, on_syn-Returns}
use tiny_yamux.Safety.Acks.{acked-Acks}

-- The state is in order, and the stream still there.
abbrev pub Holds : {C A : Type 0} → Ptr → A → World C → Type 0
Holds p a w = InOrder w × MayHold w p

guard-null : {p : Ptr} (b : Bool) → p ≡ null → (b && not (p == null)) ≡ false
guard-null {p} b e = ground arith

module _ {C : Type 0} {w : World C} (o : InOrder w) (h : Header) {p : Ptr} where
  on_ack-Returns :
      (window : ℕ) → window < 2 ^ 32 → MayHold w p → Returns (on_ack h window p w) (Holds p)
  unfolding on_ack
  on_ack-Returns window small (inl e) =
      rw (guard-null (has h.flags flag_ack) e) (Returns-pure (o, inl e))
  on_ack-Returns window small (inr (st, at)) =
      elim (Bool-cases (has h.flags flag_ack && not (p == null))) [
        | inr other ↦ rw other (Returns-pure (o, inr (st, at)))
        | inl ack ↦
            let acks = acked-Acks w.session.client h.flags window st in
            let sound = o.sound p st at in
            rw (ack, ◌>>=◌, load-At w at)
              (Returns-weaken
                (store-Returns o (acked w.session.client h.flags window st) at acks.same_id
                  acks.same_next
                  (record {
                    buffer = rw acks.same_buffer sound.buffer;
                    send_fits = elim acks.send [
                      | inl e ↦ rw e sound.send_fits
                      | inr e ↦ rw e small
                    ];
                    recv_fits = rw acks.same_recv sound.recv_fits;
                  }))
                (λ _ w₁ (o₁, at₁). (o₁, inr (_, at₁))))
      ]

  on_window-Returns : (window : ℕ) → MayHold w p → Returns (on_window h window p w) (Holds p)
  unfolding on_window
  on_window-Returns window (inl e) =
      rw (guard-null (not (has h.flags flag_syn) && not (has h.flags flag_ack)) e)
        (Returns-pure (o, inl e))
  on_window-Returns window (inr (st, at)) =
      elim (Bool-cases
        ((not (has h.flags flag_syn) && not (has h.flags flag_ack)) && not (p == null))) [
          | inr other ↦ rw other (Returns-pure (o, inr (st, at)))
          | inl plain ↦
              let sound = o.sound p st at in
              rw (plain, ◌>>=◌, load-At w at)
                (Returns-weaken
                  (store-Returns o (record st { send_window = add_u32 st.send_window window }) at
                    refl refl
                    (record {
                      buffer = sound.buffer;
                      send_fits = omega arith;
                      recv_fits = sound.recv_fits;
                    }))
                  (λ _ w₁ (o₁, at₁). (o₁, inr (_, at₁))))
        ]

  on_fin-Returns : MayHold w p → Returns (on_fin h p w) (Holds p)
  unfolding on_fin
  on_fin-Returns (inl e) =
      rw
        (guard-null
          (has h.flags flag_fin && (not (has h.flags flag_ack) && not (has h.flags flag_syn))) e)
        (Returns-pure (o, inl e))
  on_fin-Returns (inr (st, at)) =
      elim (Bool-cases (
        (has h.flags flag_fin && (not (has h.flags flag_ack) && not (has h.flags flag_syn)))
        && not (p == null))) [
          | inr other ↦ rw other (Returns-pure (o, inr (st, at)))
          | inl fin ↦
              let sound = o.sound p st at in
              rw (fin, ◌>>=◌, load-At w at)
                (Returns-bind
                  (store-Returns o (record st { state = fin_recv }) at refl refl
                    (record {
                      buffer = sound.buffer;
                      send_fits = sound.send_fits;
                      recv_fits = sound.recv_fits;
                    }))
                  λ _ w₁ (o₁, at₁).
                    rw (◌>>=◌, encode_local_header (update_frame (flag_fin + flag_ack) st.id 0) w₁)
                      (Returns-bind (io_write-Returns o₁ _) λ n w₂ steady.
                        Returns-pure (steady.in_order, inr (_, IsSteady-At steady at₁))))
        ]

  on_rst-Returns : MayHold w p → Returns (on_rst h p w) InOrderAfter
  unfolding on_rst
  on_rst-Returns (inl e) = rw (guard-null (has h.flags flag_rst) e) (Returns-pure o)
  on_rst-Returns (inr (st, at)) = elim (Bool-cases (has h.flags flag_rst && not (p == null))) [
    | inr other ↦ rw other (Returns-pure o)
    | inl rst ↦
        let sound = o.sound p st at in
        rw (rst, ◌>>=◌, load-At w at)
          (Returns-bind
            (store-Returns o (record st { state = closed }) at refl refl
              (record {
                buffer = sound.buffer;
                send_fits = sound.send_fits;
                recv_fits = sound.recv_fits;
              }))
            λ _ w₁ (o₁, _).
              Returns-bind (remove_stream-Returns o₁ st.id)
                λ _ w₂ (same, _). Returns-pure same.in_order)
  ]

-- The parts behind the SYN, one after the other.
rest_of_update-Returns :
    {C : Type 0} {w : World C} (h : Header) (window : ℕ) (p : Ptr)
    → InOrder w
    → window < 2 ^ 32
    → MayHold w p
    → Returns (rest_of_update h window p w) InOrderAfter
unfolding rest_of_update
rest_of_update-Returns h window p o small there =
    Returns-bind (on_ack-Returns o h window small there) λ _ w₁ (o₁, there₁).
      Returns-bind (on_window-Returns o₁ h window there₁) λ _ w₂ (o₂, there₂).
        Returns-bind (on_fin-Returns o₂ h there₂) λ sent w₃ (o₃, there₃). elim (Bool-cases sent) [
          | inr lost ↦ rw lost (Returns-pure o₃)
          | inl told ↦
              rw told (Returns-bind (on_rst-Returns o₃ h there₃) λ _ w₄ o₄. Returns-pure o₄)
        ]

-- A WINDOW_UPDATE frame, whatever its flags and length and for whatever stream.
pub handle_window_update-InOrder :
    {C : Type 0} {w : World C}
    → InOrder w
    → (h : Header) → Returns (handle_window_update h w) InOrderAfter
unfolding handle_window_update
handle_window_update-InOrder {w} o h =
    Returns-bind (payload-Returns o h) λ (r, window) w₁ (o₁, small). elim (Bool-cases (is_ok r)) [
      | inr failed ↦ rw failed (Returns-pure o₁)
      | inl read ↦ rw read (
          Returns-bind (get_stream-Returns o₁ h.stream_id) λ p w₂ (same, found).
            rw same
              (Returns-bind (on_syn-Returns o₁ h window small (there w₁ found)) (goes_on small)))
    ]
  where
    there :
        {C : Type 0} (w : World C) {p : Ptr} {id : ℕ}
        → (p ≡ null) ⊎ ((st : Stream) × At w.heap p st × (st.id ≡ id))
        → MayHold w p
    there w (inl e) = inl e
    there w (inr (st, at, _)) = inr (st, at)

    goes_on :
        {C : Type 0} {window : ℕ}
        → window < 2 ^ 32
        → (step : Step) (w : World C) → AfterStep step w
        → Returns
            ((elim step as (λ _. M C Result) [
              | stop r ↦ pure r
              | continue p ↦ rest_of_update h window p
            ])
              w)
            InOrderAfter
    goes_on small (stop r) w o = Returns-pure o
    goes_on {window} small (continue p) w (o, held) = rest_of_update-Returns h window p o small held
