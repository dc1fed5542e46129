-- ===== src/Streams/Asking.antt =====
-- Opening a stream from its place on the heap on (src/yamux_stream.c).
use tiny_yamux.Base.{
  ℕ, ◌<◌, ◌≡◌, inl, inr, refl, sym, ap, ◌∙◌, false, none, some, ◌==◌, if◌then◌else◌, Bool-cases,
}
use tiny_yamux.Protocol.{Result, ok, is_ok, err_io, err_invalid, err_nomem, syn_sent}
use tiny_yamux.Buffer.{Buffer}
use tiny_yamux.World.{Ptr, null, Stream, Session, World, the_session, ◌>>=◌, ◌>>◌, returned, update}
use tiny_yamux.World.Laws.{At, load-At, free_stream-At, update-update, update-same}
use tiny_yamux.World.Calls.{sent_world, store-replaced, replaced, replaced-At}
use tiny_yamux.Table.{add_stream}
use tiny_yamux.Table.Lookup.{IsTable, stream_of, slots_of}
use tiny_yamux.Table.SameIds.{replace-SameIds, lookup-SameIds}
use tiny_yamux.Table.Born.{born, new_stream-born, born-At, born-IsTable, born-stream_of}
use tiny_yamux.Table.Insert.{Inserted}
use tiny_yamux.Table.Add.{add_stream_lem}
use tiny_yamux.Streams.{opened, open_added, open_sent}
use tiny_yamux.Streams.Opening.{syn_frame, send_syn-sent}

-- A call that gives `r` and `p`: either the stream for `id` is there and in the table, where all else
-- stays, or no stream has come or gone and of the session at most the next id has changed.
pub data OpenOutcome {C : Type 0} (w : World C) (id : ℕ) : Result → Ptr → World C → Type 0 where
  stream_there :
      {w' : World C} (st : Stream)
      → At w'.heap w.fresh st
      → st.id ≡ id
      → st.state ≡ syn_sent
      → stream_of w id ≡ null
      → ((id' : ℕ) → stream_of w' id' ≡ (if id == id' then w.fresh else stream_of w id'))
      → OpenOutcome w id ok w.fresh w'
  nothing_done :
      {r : Result} {w' : World C}
      → is_ok r ≡ false
      → w'.heap ≡ w.heap
      → w'.session ≡ record w.session { next_stream_id = w'.session.next_stream_id }
      → OpenOutcome w id r null w'

module _ {C : Type 0} (w : World C) (t : IsTable w.heap w.session) (vacant : w.heap w.fresh ≡ none)
    (started : 0 < w.fresh) (is_open : w.session.go_away_received ≡ false) (id : ℕ)
    (buffer : Buffer) where
  -- The stream is on the heap, and its SYN has been written.
  abbrev asking : World C
  asking = sent_world (born w (opened id buffer)) (syn_frame id)

  asking-At : At asking.heap w.fresh (opened id buffer)
  unfolding sent_world
  asking-At = born-At w t vacant started (opened id buffer)

  asking-IsTable : IsTable asking.heap asking.session
  unfolding sent_world
  asking-IsTable = born-IsTable w t vacant started (opened id buffer)

  asking-stream_of : (id' : ℕ) → stream_of asking id' ≡ stream_of w id'
  unfolding sent_world
  asking-stream_of id' = born-stream_of w t vacant started (opened id buffer) id'

  asking-open : asking.session.go_away_received ≡ false
  unfolding sent_world born
  asking-open = is_open

  -- What is left when the stream is freed again.
  abbrev undone : World C
  undone = record asking { heap = update asking.heap w.fresh none }

  undone-nothing : {r : Result} → is_ok r ≡ false → OpenOutcome w id r null undone
  unfolding sent_world born
  undone-nothing failed =
      nothing_done failed
        (update-update w.heap w.fresh (some (opened id buffer)) none
          ∙ update-same w.heap w.fresh none vacant)
        refl

  refused :
      (r : Result)
      → is_ok r ≡ false
      → add_stream the_session w.fresh asking ≡ some (r, asking)
      → (p : Ptr) × (w' : World C) × (open_added w.fresh asking ≡ some ((r, p), w'))
        × OpenOutcome w id r p w'
  unfolding open_added
  refused r failed e = (
    null,
    undone,
    simp (open_added, ◌>>=◌, ◌>>◌, e, failed, free_stream-At asking asking-At) refl,
    undone-nothing failed,
  )

  listed :
      (s' : Session C)
      → stream_of w id ≡ null
      → add_stream the_session w.fresh asking ≡ some (ok, record asking { session = s' })
      → Inserted asking.heap w.fresh (opened id buffer) asking.session s'
      → (w' : World C) × (open_added w.fresh asking ≡ some ((ok, w.fresh), w'))
        × OpenOutcome w id ok w.fresh w'
  unfolding open_added replaced
  listed s' absent e ins =
      let st = record (opened id buffer) { state = syn_sent } in
      let w₃ = record asking { session = s' } in
      let same = replace-SameIds asking.heap st asking-At refl in
      (
        replaced w₃ w.fresh st,
        simp (open_added, ◌>>=◌, ◌>>◌, e, load-At w₃ asking-At, store-replaced w₃ st asking-At)
            refl,
        stream_there st (replaced-At w₃ st asking-At) refl refl absent (λ id'.
            lookup-SameIds asking.heap (replaced w₃ w.fresh st).heap same (slots_of s') id'
              ins.table.live
            ∙ ins.found id'
            ∙ ap (λ p. if id == id' then w.fresh else p) (asking-stream_of id')),
      )

  added :
      (r : Result) × (p : Ptr) × (w' : World C) × (open_added w.fresh asking ≡ some ((r, p), w'))
      × OpenOutcome w id r p w'
  added = elim (add_stream_lem asking asking-At asking-IsTable asking-open) [
    | inr (_, e) ↦
        let (p, w', run, out) = refused err_invalid refl e in (err_invalid, p, w', run, out)
    | inl (_, inr (e, _, _, _)) ↦
        let (p, w', run, out) = refused err_nomem refl e in (err_nomem, p, w', run, out)
    | inl (absent, inl (s', e, ins)) ↦
        let (w', run, out) = listed s' (sym (asking-stream_of id) ∙ absent) e ins in
        (ok, w.fresh, w', run, out)
  ]

  pub sent :
      (r : Result) × (p : Ptr) × (w' : World C) × (open_sent id buffer w ≡ some ((r, p), w'))
      × OpenOutcome w id r p w'
  unfolding open_sent
  sent =
      let w₁ = born w (opened id buffer) in
      elim (Bool-cases (returned (w₁.session.io.write w₁.ctx (syn_frame id)).0 16)) [
        | inr lost ↦ (
          err_io,
          null,
          undone,
          simp
              (
                open_sent,
                ◌>>=◌,
                ◌>>◌,
                new_stream-born w (opened id buffer),
                send_syn-sent w₁ id,
                lost,
                free_stream-At asking asking-At,
              )
              refl,
          undone-nothing refl,
        )
        | inl whole ↦
            let (r, p, w', run, out) = added in
            (
              r,
              p,
              w',
              simp
                  (
                    open_sent,
                    ◌>>=◌,
                    new_stream-born w (opened id buffer),
                    send_syn-sent w₁ id,
                    whole,
                  )
                  run,
              out,
            )
      ]
