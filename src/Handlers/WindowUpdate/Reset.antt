-- ===== src/Handlers/WindowUpdate/Reset.antt =====
-- What RST does to a stream that is in the table (src/yamux_handlers.c).
use tiny_yamux.Base.{
  ℕ, ◌^◌, ◌<◌, ◌≡◌, refl, sym, ap, ◌∙◌, some, ◌==◌, if◌then◌else◌, inl, inr, eq_of_some,
}
use tiny_yamux.Protocol.{Result, ok, closed, flag_rst, has}
use tiny_yamux.World.{null, Stream, Session, World, the_session, ◌>>=◌, ◌>>◌}
use tiny_yamux.World.Laws.{At, not_null, load-At}
use tiny_yamux.World.Calls.{replaced, store-replaced, replaced-same}
use tiny_yamux.Table.{remove_stream}
use tiny_yamux.Table.SameIds.{replace-SameIds, lookup-SameIds, IsTable-SameIds}
use tiny_yamux.Table.Remove.{remove_stream_lem}
use tiny_yamux.Table.Lookup.{slots_of, lookup, lookup-At, IsTable, stream_of, get_stream-stream_of}
use tiny_yamux.Handlers.WindowUpdate.{
  payload_plan, payload, on_syn, on_ack, on_window, on_fin, on_rst, rest_of_update,
  handle_window_update,
}
use tiny_yamux.Handlers.WindowUpdate.Effects.{update_frame}
use tiny_yamux.Handlers.WindowUpdate.Ends.{same_window_lem}

module _ {C : Type 0} (w : World C) {st : Stream} (id : ℕ) (t : IsTable w.heap w.session)
    (at : At w.heap (stream_of w id) st) where
  abbrev ended : World C
  ended = replaced w (stream_of w id) (record st { state = closed })

  ended-IsTable : IsTable ended.heap ended.session
  unfolding replaced
  ended-IsTable =
      IsTable-SameIds w.heap ended.heap
        (replace-SameIds w.heap (record st { state = closed }) at refl) w.session t

  ended-stream_of : (id' : ℕ) → stream_of ended id' ≡ stream_of w id'
  unfolding replaced
  ended-stream_of id' =
      lookup-SameIds w.heap ended.heap
        (replace-SameIds w.heap (record st { state = closed }) at refl) (slots_of w.session) id'
        t.live

  -- The stream that the lookup finds has the id looked up.
  found_id : st.id ≡ id
  found_id = elim (lookup-At w.heap (slots_of w.session) id t.live) [
    | inl e ↦ absurd (at.ne_null e)
    | inr (st', at', e) ↦ ap (λ s. s.id) (eq_of_some (sym at.holds ∙ at'.holds)) ∙ e
  ]

  rest-rst :
      {r : Result} {w' : World C}
      → st.send_window < 2 ^ 32
      → remove_stream the_session id ended ≡ some (r, w')
      → rest_of_update (update_frame flag_rst id 0) 0 (stream_of w id) w ≡ some (ok, w')
  unfolding rest_of_update on_ack on_window on_fin on_rst has
  rest-rst small removed =
      simp
        (
          rest_of_update,
          on_ack,
          on_window,
          on_fin,
          on_rst,
          has,
          ◌>>=◌,
          ◌>>◌,
          not_null at,
          load-At w at,
          same_window_lem st small,
          store-replaced w st at,
          replaced-same w at,
          store-replaced w (record st { state = closed }) at,
        )
        (rw (◌>>=◌, ap (λ i. remove_stream the_session i ended) found_id ∙ removed) refl)

-- An RST without other flags and without payload, for a stream in the table, closes the stream and
-- takes it out of the table, in which no other lookup changes; the result is YAMUX_OK and nothing is
-- sent. The stream's memory stays.
pub reset_removes :
    {C : Type 0} (w : World C) {st : Stream} (id : ℕ)
    → IsTable w.heap w.session
    → At w.heap (stream_of w id) st
    → st.send_window < 2 ^ 32
    → (s' : Session C) × (handle_window_update (update_frame flag_rst id 0) w
        ≡ some (
          ok,
          record (replaced w (stream_of w id) (record st { state = closed })) { session = s' },
        ))
      × IsTable (replaced w (stream_of w id) (record st { state = closed })).heap s'
      × ((id' : ℕ)
          → lookup
              (replaced w (stream_of w id) (record st { state = closed })).heap
              (slots_of s')
              id'
            ≡ (if id == id' then null else stream_of w id'))
unfolding handle_window_update on_syn has payload payload_plan
reset_removes w {st} id t at small =
    elim (remove_stream_lem (ended w id t at) id (ended-IsTable w id t at)) [
      | inl (found, (s', e, u)) ↦ (
        s',
        simp
            (
              handle_window_update,
              on_syn,
              has,
              payload,
              payload_plan,
              ◌>>=◌,
              get_stream-stream_of w id t,
            )
            (rest-rst w id t at small e),
        u.table,
        λ id'.
            u.found id' ∙ ap (λ p. if id == id' then null else p) (ended-stream_of w id t at id'),
      )
      | inr (gone, e) ↦ absurd (at.ne_null (sym (ended-stream_of w id t at id) ∙ gone))
    ]
