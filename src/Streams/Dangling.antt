-- ===== src/Streams/Dangling.antt =====
-- A stream that is reset while it waits to be accepted (src/yamux_stream.c).
use tiny_yamux.Base.{
  ◌≡◌, inl, inr, refl, sym, ap, ◌∙◌, true, false, Bool-cases, some, none, List, ◌∷◌, ◌==◌,
}
use mathlib.Core.Bool.{false≢true}
use tiny_yamux.Protocol.{ok, closed, state_code}
use tiny_yamux.World.{Ptr, null, Stream, Session, World, the_session, ◌>>=◌, load}
use tiny_yamux.World.Laws.{At, not_null}
use tiny_yamux.Table.Lookup.{IsTable}
use tiny_yamux.AcceptQueue.{take_first, stream_accept}
use tiny_yamux.AcceptQueue.Fifo.{IsQueue}
use tiny_yamux.Streams.{stream_close}
use tiny_yamux.Streams.Close.{stream_close-WasReset}

load_freed : {C : Type 0} (w : World C) (p : Ptr) → w.heap p ≡ none → load p w ≡ none
unfolding load
load_freed w p freed = elim (Bool-cases (p == null)) [
  | inl e ↦ rw (load, e) refl
  | inr e ↦ rw (load, e, freed) refl
]

accept_freed :
    {C : Type 0} (w : World C)
    → w.session.go_away_received ≡ false
    → (w.session.accept_queue == null) ≡ false
    → w.heap w.session.accept_queue ≡ none
    → stream_accept the_session w ≡ none
unfolding stream_accept take_first
accept_freed w is_open waits freed =
    simp
      (stream_accept, take_first, ◌>>=◌, is_open, waits, load_freed w w.session.accept_queue freed)
      refl

-- `yamux_stream_close` with a reset frees a stream without taking it off the accept queue: if it is the
-- first that waits, on an open session, the close succeeds and the next `yamux_stream_accept` reads
-- freed memory.
pub reset_dangles :
    {C : Type 0} (w : World C) {p : Ptr} {st : Stream} (q : List Ptr)
    → IsQueue w (p ∷ q)
    → IsTable w.heap w.session
    → At w.heap p st
    → w.session.go_away_received ≡ false
    → (state_code st.state == state_code closed) ≡ false
    → (w' : World C) × (stream_close p true w ≡ some (ok, w'))
      × (stream_accept the_session w' ≡ none)
reset_dangles {C} w {p} q iq t at is_open alive =
    let (w', run, reset) = stream_close-WasReset w at t in
    elim reset.outcome [
      | inl (over, _) ↦ absurd (false≢true (sym alive ∙ over))
      | inr (freed, _) ↦
          let open' : w'.session.go_away_received ≡ false =
            ap {A = Session C} (λ s. s.go_away_received) reset.rest_same ∙ is_open in
          let first : w'.session.accept_queue ≡ p =
            ap {A = Session C} (λ s. s.accept_queue) reset.rest_same ∙ iq.chain.0 in
          (w', run, accept_freed w' open' (rw first (not_null at)) (rw first freed))
    ]
