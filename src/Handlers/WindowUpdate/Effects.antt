-- ===== src/Handlers/WindowUpdate/Effects.antt =====
-- What WINDOW_UPDATE frames do to a stream that is in the table (src/yamux_handlers.c).
use tiny_yamux.Base.{ℕ, ◌+◌, ◌^◌, ◌<◌, ◌≡◌, refl, ◌∙◌, true, some, length}
use tiny_yamux.Protocol.{
  ok, established, syn_sent, Header, type_window_update, flag_syn, flag_ack, has, be32, add_u32,
}
use tiny_yamux.Frame.RoundTrip.{join_u32-be32}
use tiny_yamux.World.{Ptr, Stream, World, the_session, ◌>>=◌, ◌>>◌}
use tiny_yamux.World.Laws.{At, not_null, load-At}
use tiny_yamux.World.Calls.{after_read-At, replaced, store-replaced, after_read, io_read-after}
use tiny_yamux.Table.{get_stream}
use tiny_yamux.Table.Lookup.{IsTable, stream_of, get_stream-stream_of}
use tiny_yamux.Streams.{header}
use tiny_yamux.Handlers.WindowUpdate.{
  payload_plan, payload, read_window, window_of, acked, on_syn, on_ack, on_window, on_fin, on_rst,
  rest_of_update, handle_window_update,
}

-- A WINDOW_UPDATE frame.
abbrev pub update_frame : (flags id length : ℕ) → Header
update_frame flags id length = header type_window_update flags id length

module _ {C : Type 0} (w : World C) (v : ℕ) (small : v < 2 ^ 32)
    (got : (w.session.io.read w.ctx 4).0 ≡ some (be32 v)) where
  read_window-after : read_window w ≡ some (some v, after_read w 4)
  unfolding read_window window_of be32
  read_window-after =
      simp (read_window, ◌>>=◌, io_read-after w 4, got) (rw (join_u32-be32 v small) refl)

  -- With four bytes of payload announced, and no flag or SYN and ACK.
  payload-plain : (id : ℕ) → payload (update_frame 0 id 4) w ≡ some ((ok, v), after_read w 4)
  unfolding payload payload_plan has
  payload-plain id = simp (payload, payload_plan, has, ◌>>=◌, read_window-after) refl

  pub payload-syn : (id : ℕ) → payload (update_frame 1 id 4) w ≡ some ((ok, v), after_read w 4)
  unfolding payload payload_plan has
  payload-syn id = simp (payload, payload_plan, has, ◌>>=◌, read_window-after) refl

  payload-syn_ack : (id : ℕ) → payload (update_frame 3 id 4) w ≡ some ((ok, v), after_read w 4)
  unfolding payload payload_plan has
  payload-syn_ack id = simp (payload, payload_plan, has, ◌>>=◌, read_window-after) refl

module _ {C : Type 0} (w : World C) (n : ℕ) where
  pub get_stream-after_read :
      (id : ℕ)
      → IsTable w.heap w.session
      → get_stream the_session id (after_read w n) ≡ some (stream_of w id, after_read w n)
  unfolding after_read
  get_stream-after_read id t = get_stream-stream_of (after_read w n) id t

module _ {C : Type 0} (w : World C) {p : Ptr} {st : Stream} (id v : ℕ) (at : At w.heap p st) where
  rest-plain :
      rest_of_update (update_frame 0 id 4) v p w
      ≡ some (ok, replaced w p (record st { send_window = add_u32 st.send_window v }))
  unfolding rest_of_update on_ack on_window on_fin on_rst has
  rest-plain =
      simp
        (
          rest_of_update,
          on_ack,
          on_window,
          on_fin,
          on_rst,
          has,
          ◌>>=◌,
          ◌>>◌,
          not_null at,
          load-At w at,
          store-replaced w (record st { send_window = add_u32 st.send_window v }) at,
        )
        refl

-- A WINDOW_UPDATE without flags and with the payload `v`, for a stream in the table, adds `v` modulo
-- 2^32 to the stream's send window, and changes nothing else.
pub window_added :
    {C : Type 0} (w : World C) {st : Stream} (id v : ℕ)
    → IsTable w.heap w.session
    → At w.heap (stream_of w id) st
    → v < 2 ^ 32
    → (w.session.io.read w.ctx 4).0 ≡ some (be32 v)
    → handle_window_update (update_frame 0 id 4) w
      ≡ some (
        ok,
        replaced
            (after_read w 4)
            (stream_of w id)
            (record st { send_window = add_u32 st.send_window v }),
      )
unfolding handle_window_update on_syn has
window_added w id v t at small got =
    simp
      (
        handle_window_update,
        on_syn,
        has,
        ◌>>=◌,
        payload-plain w v small got id,
        get_stream-after_read w 4 id t,
      )
      (rest-plain (after_read w 4) id v (after_read-At w 4 at))

module _ {C : Type 0} (w : World C) {p : Ptr} {st : Stream} (id v : ℕ) (at : At w.heap p st) where
  rest-syn_ack :
      w.session.client ≡ true
      → st.state ≡ syn_sent
      → rest_of_update (update_frame 3 id 4) v p w
        ≡ some (ok, replaced w p (record st { send_window = v; state = established }))
  unfolding rest_of_update on_ack on_window on_fin on_rst has acked
  rest-syn_ack client waits =
      simp
        (
          rest_of_update,
          on_ack,
          on_window,
          on_fin,
          on_rst,
          has,
          acked,
          ◌>>=◌,
          ◌>>◌,
          not_null at,
          load-At w at,
          client,
          waits,
          store-replaced w (record st { send_window = v; state = established }) at,
        )
        refl

client-after_read :
    {C : Type 0} (w : World C) (n : ℕ) → (after_read w n).session.client ≡ w.session.client
unfolding after_read
client-after_read w n = refl

-- A SYN-ACK with the payload `v`, at a client and for a stream that has sent its SYN, establishes the
-- stream and sets its send window to `v`; nothing else changes, and nothing is sent.
pub syn_ack_establishes :
    {C : Type 0} (w : World C) {st : Stream} (id v : ℕ)
    → IsTable w.heap w.session
    → At w.heap (stream_of w id) st
    → w.session.client ≡ true
    → st.state ≡ syn_sent
    → v < 2 ^ 32
    → (w.session.io.read w.ctx 4).0 ≡ some (be32 v)
    → handle_window_update (update_frame (flag_syn + flag_ack) id 4) w
      ≡ some (
        ok,
        replaced
            (after_read w 4)
            (stream_of w id)
            (record st { send_window = v; state = established }),
      )
unfolding handle_window_update on_syn has
syn_ack_establishes w id v t at client waits small got =
    simp
      (
        handle_window_update,
        on_syn,
        has,
        ◌>>=◌,
        payload-syn_ack w v small got id,
        get_stream-after_read w 4 id t,
        client-after_read w 4 ∙ client,
      )
      (rest-syn_ack (after_read w 4) id v (after_read-At w 4 at) (client-after_read w 4 ∙ client)
        waits)
