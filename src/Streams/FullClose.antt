-- ===== src/Streams/FullClose.antt =====
-- Closing a stream without a reset, in every state (src/yamux_stream.c).
use tiny_yamux.Base.{
  ℕ, ◌≡◌, ◌≢◌, ◌⊎◌, inl, inr, refl, sym, ap, ◌∙◌, true, false, some, [], ◌∷◌, ◌++◌, ◌==◌,
  if◌then◌else◌, Bool-cases, ==_iff, ==-self,
}
use mathlib.Core.Bool.{false≢true}
use tiny_yamux.Protocol.{
  Result, ok, StreamState, idle, syn_sent, syn_recv, established, closed, fin_recv, fin_sent,
  state_code, type_data, flag_fin,
}
use tiny_yamux.Buffer
use tiny_yamux.World.{Ptr, null, Stream, Session, World, the_session, ◌>>=◌, ◌>>◌, zero_buffer}
use tiny_yamux.World.Laws.{At, not_null, load-At, encode_local_header}
use tiny_yamux.World.Calls.{
  sent_world, io_write-sent, sent_world-At, replaced, store-replaced, replaced-At,
}
use tiny_yamux.Table.{remove_stream}
use tiny_yamux.Table.Lookup.{IsTable, stream_of, lookup, slots_of}
use tiny_yamux.Table.SameIds.{replace-SameIds, lookup-SameIds, IsTable-SameIds}
use tiny_yamux.Table.Remove.{remove_stream_lem}
use tiny_yamux.Streams.{header, close_normal, stream_close}
use tiny_yamux.Streams.HalfClose.{fin_frame, stream_close_half}

-- A stream that both sides have ended: marked as closed, its buffer freed, and out of the table.
pub record Ended {C : Type 0} (w : World C) (p : Ptr) (st : Stream) (w' : World C) : Type 0 where
  pub stream : At w'.heap p (record st { state = closed; recvbuf = zero_buffer })
  pub table : IsTable w'.heap w'.session
  pub found : (id : ℕ) → stream_of w' id ≡ (if st.id == id then null else stream_of w id)
  pub told : w'.sent ≡ w.sent ++ (fin_frame st.id ∷ [])

module _ {C : Type 0} (w : World C) {p : Ptr} {st : Stream} (at : At w.heap p st)
    (t : IsTable w.heap w.session) where
  -- The FIN is sent, and the stream marked as closed.
  abbrev marked : World C
  marked = replaced (sent_world w (fin_frame st.id)) p (record st { state = closed })

  marked-At : At marked.heap p (record st { state = closed })
  marked-At =
      replaced-At (sent_world w (fin_frame st.id)) (record st { state = closed })
        (sent_world-At w (fin_frame st.id) at)

  marked-IsTable : IsTable marked.heap marked.session
  unfolding replaced sent_world
  marked-IsTable =
      IsTable-SameIds w.heap marked.heap
        (replace-SameIds w.heap (record st { state = closed }) at refl) w.session t

  marked-stream_of : (id : ℕ) → stream_of marked id ≡ stream_of w id
  unfolding replaced sent_world
  marked-stream_of id =
      lookup-SameIds w.heap marked.heap
        (replace-SameIds w.heap (record st { state = closed }) at refl) (slots_of w.session) id
        t.live

  marked-sent : marked.sent ≡ w.sent ++ (fin_frame st.id ∷ [])
  unfolding replaced sent_world
  marked-sent = refl

  -- What the table finds once the stream is out, or was not in.
  unlisted :
      (s' : Session C)
      → IsTable marked.heap s'
      → ((id : ℕ)
          → lookup marked.heap (slots_of s') id ≡ (if st.id == id then null else stream_of w id))
      → Ended w p st (
          replaced
            (record marked { session = s' })
            p
            (record st { state = closed; recvbuf = zero_buffer }))
  unfolding replaced sent_world
  unlisted s' t' found =
      let last = record st { state = closed; recvbuf = zero_buffer } in
      let w₂ = record marked { session = s' } in
      let same = replace-SameIds marked.heap last marked-At refl in
      record {
        stream = replaced-At w₂ last marked-At;
        table = IsTable-SameIds marked.heap (replaced w₂ p last).heap same s' t';
        found = λ id.
            lookup-SameIds marked.heap (replaced w₂ p last).heap same (slots_of s') id t'.live
            ∙ found id;
        told = refl;
      }

  close_both :
      (state_code st.state == state_code fin_recv) ≡ true
      → (w' : World C) × (close_normal p st (sent_world w (fin_frame st.id)) ≡ some (ok, w'))
        × Ended w p st w'
  unfolding close_normal Buffer.free
  close_both both = elim (remove_stream_lem marked st.id marked-IsTable) [
    | inl (_, (s', e, u)) ↦ (
      replaced (record marked { session = s' }) p
          (record st { state = closed; recvbuf = zero_buffer }),
      closing s' e,
      unlisted s' u.table
          (λ id. u.found id ∙ ap (λ q. if st.id == id then null else q) (marked-stream_of id)),
    )
    | inr (gone, e) ↦ (
      replaced marked p (record st { state = closed; recvbuf = zero_buffer }),
      closing marked.session e,
      unlisted marked.session marked-IsTable (absent gone),
    )
  ]
    where
      closing :
          {r : Result} (s' : Session C)
          → remove_stream the_session st.id marked ≡ some (r, record marked { session = s' })
          → close_normal p st (sent_world w (fin_frame st.id))
            ≡ some (
              ok,
              replaced
                  (record marked { session = s' })
                  p
                  (record st { state = closed; recvbuf = zero_buffer }),
            )
      closing s' e =
          simp
            (
              close_normal,
              ◌>>=◌,
              ◌>>◌,
              both,
              store-replaced (sent_world w (fin_frame st.id)) (record st { state = closed })
                  (sent_world-At w (fin_frame st.id) at),
            )
            (rw
              (
                ◌>>=◌,
                e,
                store-replaced (record marked { session = s' })
                    (record st { state = closed; recvbuf = zero_buffer }) marked-At,
              )
              refl)

      absent :
          stream_of marked st.id ≡ null
          → (id : ℕ) → stream_of marked id ≡ (if st.id == id then null else stream_of w id)
      absent gone id = elim (Bool-cases (st.id == id)) [
        | inl same ↦ rw same (rw (← (==_iff _ _).0 same) gone)
        | inr other ↦ rw other (marked-stream_of id)
      ]

is_closed : (s : StreamState) → (state_code s == state_code closed) ≡ true → s ≡ closed
is_closed idle e = absurd (false≢true e)
is_closed syn_sent e = absurd (false≢true e)
is_closed syn_recv e = absurd (false≢true e)
is_closed established e = absurd (false≢true e)
is_closed fin_sent e = absurd (false≢true e)
is_closed fin_recv e = absurd (false≢true e)
is_closed closed e = refl

is_fin_recv : (s : StreamState) → (state_code s == state_code fin_recv) ≡ true → s ≡ fin_recv
is_fin_recv idle e = absurd (false≢true e)
is_fin_recv syn_sent e = absurd (false≢true e)
is_fin_recv syn_recv e = absurd (false≢true e)
is_fin_recv established e = absurd (false≢true e)
is_fin_recv fin_sent e = absurd (false≢true e)
is_fin_recv fin_recv e = refl
is_fin_recv closed e = absurd (false≢true e)

not_state : {s : StreamState} (s' : StreamState) → (state_code s == state_code s') ≡ false → s ≢ s'
not_state {s} s' ne e =
    false≢true (sym ne ∙ ap (λ t. state_code t == state_code s') e ∙ ==-self (state_code s'))

-- `yamux_stream_close` without a reset succeeds for every stream that is there, on a well-formed
-- table. A closed stream is left as it is. In FIN_RECV, both sides have ended: one FIN frame is sent,
-- the stream is closed, its buffer freed, and its id, and no other, leaves the table. In any other
-- state one FIN frame is sent and the stream goes to FIN_SENT; nothing else changes.
pub stream_close_lem :
    {C : Type 0} (w : World C) {p : Ptr} {st : Stream}
    → At w.heap p st
    → IsTable w.heap w.session
    → (w' : World C) × (stream_close p false w ≡ some (ok, w'))
      × (((st.state ≡ closed) × (w' ≡ w))
          ⊎ ((st.state ≡ fin_recv) × Ended w p st w')
          ⊎ ((st.state ≢ closed)
              × (st.state ≢ fin_recv)
              × (w'
                  ≡ replaced (sent_world w (fin_frame st.id)) p (record st { state = fin_sent }))))
unfolding stream_close
stream_close_lem w {p} {st} at t = elim (Bool-cases (state_code st.state == state_code closed)) [
  | inl over ↦ (
    w,
    simp (stream_close, ◌>>=◌, not_null at, load-At w at, over) refl,
    inl (is_closed st.state over, refl),
  )
  | inr alive ↦ elim (Bool-cases (state_code st.state == state_code fin_recv)) [
    | inr half ↦ (
      _,
      stream_close_half w at (rw (alive, half) refl),
      inr (inr (not_state closed alive, not_state fin_recv half, refl)),
    )
    | inl both ↦
        let (w', run, ended) = close_both w at t both in
        (
          w',
          simp
              (
                stream_close,
                ◌>>=◌,
                not_null at,
                load-At w at,
                alive,
                encode_local_header (header type_data flag_fin st.id 0) w,
                io_write-sent w (fin_frame st.id),
              )
              run,
          inr (inl (is_fin_recv st.state both, ended)),
        )
  ]
]
