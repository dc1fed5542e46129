-- ===== src/Safety/Closing.antt =====
-- Closing and resetting a stream keep a session in order (src/yamux_stream.c).
use tiny_yamux.Base.{◌≡◌, inl, inr, refl, arith, Bool, true, ◌==◌, if◌then◌else◌, Bool-cases}
use tiny_yamux.Protocol.{closed, fin_sent, fin_recv, state_code, type_data, flag_rst, flag_fin}
use tiny_yamux.Buffer
use tiny_yamux.Buffer.{Buffer}
use tiny_yamux.World.{Ptr, Stream, World, ◌>>=◌, ◌>>◌, zero_buffer}
use tiny_yamux.World.Laws.{At, not_null, load-At, encode_local_header}
use tiny_yamux.World.Calls.{store-replaced, replaced-At}
use tiny_yamux.Table.Lookup.{slots_of}
use tiny_yamux.Table.Freed.{NotIn-absent}
use tiny_yamux.Streams.{header, close_reset, close_normal, stream_close}
use tiny_yamux.Safety.{IsSound, InOrder}
use tiny_yamux.Safety.Total.{Returns, Returns-pure, Returns-bind}
use tiny_yamux.Safety.Keeps.{replaced-InOrder}
use tiny_yamux.Safety.Lists.{replaced-NotWaiting}
use tiny_yamux.Safety.Waiting.{NotWaiting}
use tiny_yamux.Safety.Commands.{
  InOrderAfter, At-along, IsSteady-At, store-Returns, io_write-Returns,
}
use tiny_yamux.Safety.Opens.{IsSteady-NotWaiting}
use tiny_yamux.Safety.Tables.{SameStreams-NotWaiting, remove_stream-Returns, free_stream-Returns}

module _ {C : Type 0} {w : World C} (o : InOrder w) {p : Ptr} {st : Stream}
    (at : At w.heap p st) where
  marked-IsSound : IsSound (record st { state = closed })
  marked-IsSound =
      let sound = o.sound p st at in
      record { buffer = sound.buffer; send_fits = sound.send_fits; recv_fits = sound.recv_fits }

  close_normal-Returns : Returns (close_normal p st w) InOrderAfter
  unfolding close_normal Buffer.free
  close_normal-Returns =
      let sound = o.sound p st at in
      elim (Bool-cases (state_code st.state == state_code fin_recv)) [
        | inr half ↦ rw half (
            Returns-bind
              (store-Returns o (record st { state = fin_sent }) at refl refl
                (record {
                  buffer = sound.buffer;
                  send_fits = sound.send_fits;
                  recv_fits = sound.recv_fits;
                }))
              λ _ w₁ (o₁, _). Returns-pure o₁)
        | inl both ↦ rw both (
            Returns-bind
              (store-Returns o (record st { state = closed }) at refl refl marked-IsSound)
              λ _ w₁ (o₁, at₁). Returns-bind (remove_stream-Returns o₁ st.id) λ _ w₂ (same, _).
                Returns-bind
                  (store-Returns same.in_order (record st { state = closed; recvbuf = zero_buffer })
                    (At-along same.same_heap at₁) refl refl
                    (record {
                      buffer = record { kept = inr refl; size_fits = omega arith };
                      send_fits = sound.send_fits;
                      recv_fits = sound.recv_fits;
                    }))
                  λ _ w₃ (o₃, _). Returns-pure o₃)
      ]

  close_reset-Returns : NotWaiting w p → Returns (close_reset p st w) InOrderAfter
  unfolding close_reset
  close_reset-Returns apart =
      let o₁ = replaced-InOrder (record st { state = closed }) o at refl refl marked-IsSound in
      let at₁ = replaced-At w (record st { state = closed }) at in
      rw (◌>>◌, ◌>>=◌, store-replaced w (record st { state = closed }) at)
        (Returns-bind (remove_stream-Returns o₁ st.id) λ _ w₂ (same, gone).
          let at₂ = At-along same.same_heap at₁ in
          Returns-bind
            (free_stream-Returns same.in_order at₂ (NotIn-absent at₂ (slots_of w₂.session) gone) (
              SameStreams-NotWaiting same
                (replaced-NotWaiting o (record st { state = closed }) p at refl apart)))
            λ _ w₃ o₃. Returns-pure o₃)

-- `yamux_stream_close`; a stream that is reset must not wait to be accepted.
pub stream_close-InOrder :
    {C : Type 0} {w : World C} {p : Ptr} {st : Stream}
    → InOrder w
    → At w.heap p st
    → (reset : Bool) → (reset ≡ true → NotWaiting w p)
    → Returns (stream_close p reset w) InOrderAfter
unfolding stream_close
stream_close-InOrder {w} {p} {st} o at reset apart =
    elim (Bool-cases (state_code st.state == state_code closed)) [
      | inl over ↦ rw (not_null at, ◌>>=◌, load-At w at, over) (Returns-pure o)
      | inr alive ↦
          rw
            (
              not_null at,
              ◌>>=◌,
              load-At w at,
              alive,
              encode_local_header (header type_data (if reset then flag_rst else flag_fin) st.id 0)
                  w,
            )
            (Returns-bind (io_write-Returns o _) λ n w₁ steady. elim (Bool-cases reset) [
              | inl e ↦ rw e (
                  close_reset-Returns steady.in_order (IsSteady-At steady at)
                    (IsSteady-NotWaiting steady (apart e)))
              | inr e ↦ rw e (close_normal-Returns steady.in_order (IsSteady-At steady at))
            ])
    ]
