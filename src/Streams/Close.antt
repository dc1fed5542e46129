-- ===== src/Streams/Close.antt =====
-- Closing a stream with a reset (src/yamux_stream.c).
use tiny_yamux.Base.{
  ℕ, ◌≡◌, ◌≤◌, ◌⊎◌, inl, inr, refl, ◌∙◌, arith, true, false, Bool-cases, some, none, List, [], ◌∷◌,
  ◌++◌, ◌==◌, ==-self,
}
use tiny_yamux.Protocol.{Result, ok, err_invalid, closed, state_code, type_data, flag_rst}
use tiny_yamux.Frame.{header_bytes}
use tiny_yamux.World.{Ptr, null, Stream, Session, World, the_session, ◌>>=◌, ◌>>◌, update}
use tiny_yamux.World.Laws.{At, not_null, load-At, free_stream-At, encode_local_header}
use tiny_yamux.World.Calls.{
  sent_world, io_write-sent, sent_world-At, replaced, store-replaced, replaced-At,
}
use tiny_yamux.Table.{remove_stream}
use tiny_yamux.Table.Lookup.{IsTable, lookup, slots_of}
use tiny_yamux.Table.SameIds.{replace-SameIds, IsTable-SameIds}
use tiny_yamux.Table.Freed.{IsTable-freed, NotIn-absent}
use tiny_yamux.Table.Remove.{remove_stream_lem}
use tiny_yamux.Streams.{header, close_reset, stream_close}

-- The frame that resets a stream.
abbrev pub rst_frame : ℕ → List ℕ
rst_frame id = header_bytes (header type_data flag_rst id 0)

-- What a close with a reset leaves: the session but for its table, which stays well formed and gets no
-- longer. A stream that was not closed is freed, and one RST frame is sent for it.
pub record WasReset {C : Type 0} (w : World C) (p : Ptr) (st : Stream) (w' : World C) : Type 0 where
  pub table : IsTable w'.heap w'.session
  pub rest_same :
      w'.session
      ≡ record w.session { streams = w'.session.streams; stream_count = w'.session.stream_count }
  pub no_longer : w'.session.stream_count ≤ w.session.stream_count
  pub outcome :
      (((state_code st.state == state_code closed) ≡ true) × (w' ≡ w))
      ⊎ ((w'.heap p ≡ none) × (w'.sent ≡ w.sent ++ (rst_frame st.id ∷ [])))

module _ {C : Type 0} (w : World C) {p : Ptr} {st : Stream} (at : At w.heap p st)
    (t : IsTable w.heap w.session) where
  -- The RST is sent, and the stream marked as closed.
  abbrev told : World C
  told = sent_world w (rst_frame st.id)

  abbrev marked : World C
  marked = replaced told p (record st { state = closed })

  told-At : At told.heap p st
  told-At = sent_world-At w (rst_frame st.id) at

  marked-At : At marked.heap p (record st { state = closed })
  marked-At = replaced-At told (record st { state = closed }) told-At

  marked-IsTable : IsTable marked.heap marked.session
  unfolding replaced sent_world
  marked-IsTable =
      IsTable-SameIds w.heap marked.heap
        (replace-SameIds w.heap (record st { state = closed }) at refl) w.session t

  -- The session without the stream, whether the removal found it or not.
  unlisted :
      (r : Result) × (s' : Session C) × (remove_stream the_session st.id marked
        ≡ some (r, record marked { session = s' }))
      × IsTable marked.heap s'
      × (lookup marked.heap (slots_of s') st.id ≡ null)
      × (s' ≡ record marked.session { streams = s'.streams; stream_count = s'.stream_count })
      × (s'.stream_count ≤ marked.session.stream_count)
  unlisted = elim (remove_stream_lem marked st.id marked-IsTable) [
    | inl (_, (s', e, u)) ↦
        (ok, s', e, u.table, u.found st.id ∙ rw (==-self st.id) refl, u.rest_same, u.no_longer)
    | inr (gone, e) ↦ (err_invalid, marked.session, e, marked-IsTable, gone, refl, omega arith)
  ]

  freed-WasReset :
      (s' : Session C)
      → IsTable marked.heap s'
      → lookup marked.heap (slots_of s') st.id ≡ null
      → s' ≡ record marked.session { streams = s'.streams; stream_count = s'.stream_count }
      → s'.stream_count ≤ marked.session.stream_count
      → WasReset w p st (record marked { session = s'; heap = update marked.heap p none })
  unfolding replaced sent_world
  freed-WasReset s' t' gone same le = record {
    table = IsTable-freed marked.heap p s' (NotIn-absent marked-At (slots_of s') gone) t';
    rest_same = same;
    no_longer = le;
    outcome = inr (rw (==-self p) refl, refl);
  }

  close_reset-WasReset :
      (state_code st.state == state_code closed) ≡ false
      → (w' : World C) × (close_reset p st told ≡ some (ok, w')) × WasReset w p st w'
  unfolding close_reset
  close_reset-WasReset alive =
      let (r, s', e, t', gone, same, le) = unlisted in
      let w₃ = record marked { session = s' } in
      (
        record w₃ { heap = update marked.heap p none },
        simp (close_reset, ◌>>=◌, ◌>>◌, store-replaced told (record st { state = closed }) told-At)
            (rw (◌>>=◌, e, free_stream-At w₃ marked-At) refl),
        freed-WasReset s' t' gone same le,
      )

pub stream_close-WasReset :
    {C : Type 0} (w : World C) {p : Ptr} {st : Stream}
    → At w.heap p st
    → IsTable w.heap w.session
    → (w' : World C) × (stream_close p true w ≡ some (ok, w')) × WasReset w p st w'
unfolding stream_close
stream_close-WasReset w {p} {st} at t =
    elim (Bool-cases (state_code st.state == state_code closed)) [
      | inl over ↦ (
        w,
        simp (stream_close, ◌>>=◌, not_null at, load-At w at, over) refl,
        record { table = t; rest_same = refl; no_longer = omega arith; outcome = inl (over, refl) },
      )
      | inr alive ↦
          let (w', run, reset) = close_reset-WasReset w at t alive in
          (
            w',
            simp
                (
                  stream_close,
                  ◌>>=◌,
                  not_null at,
                  load-At w at,
                  alive,
                  encode_local_header (header type_data flag_rst st.id 0) w,
                  io_write-sent w (rst_frame st.id),
                )
                run,
            reset,
          )
    ]
