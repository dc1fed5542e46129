-- ===== src/Examples/Runs.antt =====
-- Whole calls, evaluated.
use tiny_yamux.Base.{ℕ, true, false, Option, none, some, List, [], ◌∷◌, ◌≡◌, refl}
use tiny_yamux.Protocol.{Result, ok, StreamState, syn_recv}
use tiny_yamux.World.{World, the_session, M, ◌>>=◌, pure}
use tiny_yamux.Streams.{stream_open_detailed, stream_get_state}
use tiny_yamux.AcceptQueue.{stream_accept}
use tiny_yamux.Session.{session_process}
use tiny_yamux.Examples.{new_world, running}

-- What a command yields and what it sent, and `none` for undefined behaviour.
abbrev outcome : {A : Type 0} → M (List ℕ) A → World (List ℕ) → Option (A × List (List ℕ))
outcome m w = elim (m w) [ none ↦ none | some (a, w') ↦ some (a, w'.sent) ]

abbrev syn_frame : List ℕ
syn_frame = 0 ∷ 1 ∷ 0 ∷ 1 ∷ 0 ∷ 0 ∷ 0 ∷ 1 ∷ 0 ∷ 0 ∷ 0 ∷ 4 ∷ 0 ∷ 4 ∷ 0 ∷ 0 ∷ []

open_sends_syn :
    outcome (stream_open_detailed the_session 0) (new_world true [])
    ≡ some ((ok, 1), syn_frame ∷ [])
unfolding running
open_sends_syn = refl

abbrev serve : M (List ℕ) (Result × Result × ℕ × StreamState)
serve = do
  r ← session_process the_session
  (r', p) ← stream_accept the_session
  state ← stream_get_state p
  pure (r, r', p, state)

syn_is_served :
    outcome serve (new_world false syn_frame)
    ≡ some (
      (ok, ok, 1, syn_recv),
      (0 ∷ 1 ∷ 0 ∷ 3 ∷ 0 ∷ 0 ∷ 0 ∷ 1 ∷ 0 ∷ 0 ∷ 0 ∷ 4 ∷ 0 ∷ 4 ∷ 0 ∷ 0 ∷ []) ∷ [],
    )
unfolding running
syn_is_served = refl
