-- ===== src/Handlers/WindowUpdate/Ends.antt =====
-- What FIN and RST do to a stream that is in the table (src/yamux_handlers.c).
use tiny_yamux.Base.{
  ℕ, ◌+◌, ◌^◌, ◌<◌, ◌≡◌, refl, ap, arith, some, List, if◌then◌else◌, Bool-cases, inl, inr,
}
use tiny_yamux.Protocol.{ok, err_io, fin_recv, flag_ack, flag_fin, has, add_u32}
use tiny_yamux.Frame.{header_bytes}
use tiny_yamux.World.{Ptr, Stream, World, pure, ◌>>=◌, ◌>>◌, returned}
use tiny_yamux.World.Laws.{At, not_null, load-At, encode_local_header}
use tiny_yamux.World.Calls.{replaced, store-replaced, replaced-same, sent_world, io_write-sent}
use tiny_yamux.Table.Lookup.{IsTable, stream_of, get_stream-stream_of}
use tiny_yamux.Handlers.WindowUpdate.{
  payload_plan, payload, on_syn, on_ack, on_window, on_fin, on_rst, rest_of_update,
  handle_window_update,
}
use tiny_yamux.Handlers.WindowUpdate.Effects.{update_frame}

-- The frame that answers a FIN.
abbrev pub fin_ack : ℕ → List ℕ
fin_ack id = header_bytes (update_frame (flag_fin + flag_ack) id 0)

-- A payload of no bytes adds nothing to the window.
abbrev same_window : Stream → Stream
same_window st = record st { send_window = add_u32 st.send_window 0 }

pub same_window_lem : (st : Stream) → st.send_window < 2 ^ 32 → same_window st ≡ st
same_window_lem st small = ap {A = ℕ} (λ n. record st { send_window = n }) (omega arith)

module _ {C : Type 0} (w : World C) {p : Ptr} {st : Stream} (id : ℕ) (at : At w.heap p st) where
  abbrev half : World C
  half = replaced w p (record st { state = fin_recv })

  same_io :
      half.session.io.write half.ctx (fin_ack st.id) ≡ w.session.io.write w.ctx (fin_ack st.id)
  unfolding replaced
  same_io = refl

  on_fin-sends :
      on_fin (update_frame flag_fin id 0) p w
      ≡ some (
        returned (w.session.io.write w.ctx (fin_ack st.id)).0 12,
        sent_world half (fin_ack st.id),
      )
  unfolding on_fin has
  on_fin-sends =
      simp
        (
          on_fin,
          has,
          ◌>>=◌,
          ◌>>◌,
          not_null at,
          load-At w at,
          store-replaced w (record st { state = fin_recv }) at,
          encode_local_header (update_frame (flag_fin + flag_ack) st.id 0) half,
          io_write-sent half (fin_ack st.id),
          same_io,
        )
        refl

  rest-fin :
      st.send_window < 2 ^ 32
      → rest_of_update (update_frame flag_fin id 0) 0 p w
        ≡ some (
          if returned (w.session.io.write w.ctx (fin_ack st.id)).0 12 then ok else err_io,
          sent_world half (fin_ack st.id),
        )
  unfolding rest_of_update on_ack on_window on_rst has
  rest-fin small =
      simp
        (
          rest_of_update,
          on_ack,
          on_window,
          on_rst,
          has,
          ◌>>=◌,
          ◌>>◌,
          not_null at,
          load-At w at,
          same_window_lem st small,
          store-replaced w st at,
          replaced-same w at,
        )
        (rw (on_fin-sends) ends)
    where
      ends :
          (if returned (w.session.io.write w.ctx (fin_ack st.id)).0 12
              then (on_rst (update_frame flag_fin id 0) p >> pure ok)
              else pure err_io)
            (sent_world half (fin_ack st.id))
          ≡ some (
            if returned (w.session.io.write w.ctx (fin_ack st.id)).0 12 then ok else err_io,
            sent_world half (fin_ack st.id),
          )
      ends = elim (Bool-cases (returned (w.session.io.write w.ctx (fin_ack st.id)).0 12)) [
        | inl e ↦ rw e refl
        | inr e ↦ rw e refl
      ]

-- A FIN without other flags and without payload, for a stream in the table, moves the stream to
-- FIN_RECV, whatever its state was, FIN_SENT or CLOSED too, and answers with a FIN-ACK; the result is YAMUX_OK or, where the
-- callback does not take the twelve bytes, YAMUX_ERR_IO. Nothing else changes.
pub fin_acknowledged :
    {C : Type 0} (w : World C) {st : Stream} (id : ℕ)
    → IsTable w.heap w.session
    → At w.heap (stream_of w id) st
    → st.send_window < 2 ^ 32
    → handle_window_update (update_frame flag_fin id 0) w
      ≡ some (
        if returned (w.session.io.write w.ctx (fin_ack st.id)).0 12 then ok else err_io,
        sent_world (replaced w (stream_of w id) (record st { state = fin_recv })) (fin_ack st.id),
      )
unfolding handle_window_update on_syn has payload payload_plan
fin_acknowledged w id t at small =
    simp
      (handle_window_update, on_syn, has, payload, payload_plan, ◌>>=◌, get_stream-stream_of w id t)
      (rest-fin w id at small)
