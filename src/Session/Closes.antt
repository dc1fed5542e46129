-- ===== src/Session/Closes.antt =====
-- Closing a session (src/yamux_session.c).
use tiny_yamux.Base.{
  ℕ, zero, suc, ◌+◌, ◌<◌, ◌≤◌, ◌≡◌, ◌⊎◌, inl, inr, refl, ap, ◌∙◌, arith, true, false, Bool-cases,
  some, List, [], ◌∷◌, take, ltb, ◌==◌, if◌then◌else◌, ltb→lt,
}
use tiny_yamux.Protocol.{ok, type_go_away}
use tiny_yamux.Frame.{header_bytes}
use tiny_yamux.World.{Ptr, null, Stream, Session, World, the_session, pure, ◌>>=◌, ◌>>◌}
use tiny_yamux.World.Laws.{At, not_null}
use tiny_yamux.World.Calls.{sent_world}
use tiny_yamux.Table.Lookup.{IsTable-same, Heap, Live, IsTable}
use tiny_yamux.Streams.{header, stream_close}
use tiny_yamux.Streams.Close.{stream_close-WasReset}
use tiny_yamux.Session.{slot_at, close_streams, drop_streams, session_close}
use tiny_yamux.Session.Frames.{send_go_away-sent}

-- A slot in use is NULL or holds a stream that is there.
slot_at-Live :
    (heap : Heap) (slots : List Ptr) (n i : ℕ)
    → Live heap (take n slots)
    → i < n
    → (slot_at slots i ≡ null) ⊎ ((st : Stream) × At heap (slot_at slots i) st)
slot_at-Live heap [] n i live lt = inl refl
slot_at-Live heap (p ∷ slots) zero i live lt = absurd (omega arith)
slot_at-Live heap (p ∷ slots) (suc n) zero (there, live) lt = there
slot_at-Live heap (p ∷ slots) (suc n) (suc i) (there, live) lt =
    slot_at-Live heap slots n i live (omega arith)

-- What rounds of the loop leave.
record Closing {C : Type 0} (w w' : World C) : Type 0 where
  table : IsTable w'.heap w'.session
  rest_same :
      w'.session
      ≡ record w.session { streams = w'.session.streams; stream_count = w'.session.stream_count }
  no_longer : w'.session.stream_count ≤ w.session.stream_count

close_slot :
    {C : Type 0} (w : World C) (i : ℕ)
    → IsTable w.heap w.session
    → i < w.session.stream_count
    → (w' : World C) × ((if slot_at w.session.streams i == null
            then pure ok
            else stream_close (slot_at w.session.streams i) true)
          w
        ≡ some (ok, w'))
      × Closing w w'
close_slot w i t lt =
    elim (slot_at-Live w.heap w.session.streams w.session.stream_count i t.live lt) [
      | inl e ↦ (w, rw e refl, record { table = t; rest_same = refl; no_longer = omega arith })
      | inr (st, at) ↦
          let (w', run, reset) = stream_close-WasReset w at t in
          (
            w',
            rw (not_null at) run,
            record {
              table = reset.table;
              rest_same = reset.rest_same;
              no_longer = reset.no_longer;
            },
          )
    ]

Closing-trans : {C : Type 0} (w w₁ w₂ : World C) → Closing w w₁ → Closing w₁ w₂ → Closing w w₂
Closing-trans w w₁ w₂ a b = record {
  table = b.table;
  rest_same =
      b.rest_same
      ∙ ap {A = Session _}
          (λ s. record s { streams = w₂.session.streams; stream_count = w₂.session.stream_count })
          a.rest_same;
  no_longer = omega (arith, a.no_longer, b.no_longer);
}

close_streams-Closing :
    {C : Type 0} (k : ℕ) (w : World C) (i : ℕ)
    → IsTable w.heap w.session
    → w.session.stream_count < k + i
    → 0 < k
    → (w' : World C) × (close_streams k i w ≡ some (tt, w')) × Closing w w'
unfolding close_streams
close_streams-Closing zero w i t enough fuel = absurd (omega arith)
close_streams-Closing (suc k) w i t enough fuel = elim (Bool-cases (ltb i w.session.stream_count)) [
  | inr done ↦ (
    w,
    simp (close_streams, ◌>>=◌, done) refl,
    record { table = t; rest_same = refl; no_longer = omega arith },
  )
  | inl more ↦
      let (w₁, run, a) = close_slot w i t (ltb→lt i w.session.stream_count more) in
      let (w₂, rest, b) =
        close_streams-Closing k w₁ (i + 1) a.table (omega (arith, a.no_longer))
          (omega (arith, ltb→lt i w.session.stream_count more)) in
      (w₂, simp (close_streams, ◌>>=◌, more) (rw (◌>>=◌, run) rest), Closing-trans w w₁ w₂ a b)
]

-- The session as its closing starts.
abbrev shutting : {C : Type 0} → World C → World C
shutting w = record w { session = record w.session { go_away_received = true } }

module _ {C : Type 0} (w : World C) (err : ℕ) (t : IsTable w.heap w.session) where
  abbrev notified : World C
  notified = sent_world (shutting w) (header_bytes (header type_go_away 0 0 err))

  notified-IsTable : IsTable notified.heap notified.session
  unfolding sent_world
  notified-IsTable = IsTable-same refl refl refl t

  notified-count : notified.session.stream_count ≡ w.session.stream_count
  unfolding sent_world
  notified-count = refl

  close_streams-notified :
      (w' : World C) × (close_streams (suc w.session.stream_count) 0 notified ≡ some (tt, w'))
      × Closing notified w'
  close_streams-notified =
      close_streams-Closing (suc w.session.stream_count) notified 0 notified-IsTable
        (omega (arith, notified-count)) (omega arith)

  emptied :
      (s : Session C)
      → s ≡ record notified.session { streams = s.streams; stream_count = s.stream_count }
      → record s { streams = []; stream_count = 0; stream_capacity = 0 } ≡ record w.session {
        go_away_received = true;
        streams = [];
        stream_count = 0;
        stream_capacity = 0;
      }
  unfolding sent_world
  emptied s e =
      ap {A = Session C} (λ s'. record s' { streams = []; stream_count = 0; stream_capacity = 0 }) e

-- `yamux_session_close` on a session whose table is well formed always succeeds: its loop ends, and no
-- step of it uses a stream that is not there. A session that was shut down already is left as it is.
-- Any other is shut down afterwards and has no streams, whatever the callback says.
pub session_close_lem :
    {C : Type 0} (w : World C) (err : ℕ)
    → IsTable w.heap w.session
    → ((w.session.go_away_received ≡ true) × (session_close the_session err w ≡ some (ok, w)))
      ⊎ ((w.session.go_away_received ≡ false)
          × ((w' : World C) × (session_close the_session err w ≡ some (ok, w'))
              × (w'.session ≡ record w.session {
                go_away_received = true;
                streams = [];
                stream_count = 0;
                stream_capacity = 0;
              })))
unfolding session_close drop_streams
session_close_lem {C} w err t = elim (Bool-cases w.session.go_away_received) [
  | inl shut ↦ inl (shut, simp (session_close, ◌>>=◌, shut) refl)
  | inr opened ↦
      let (w₁, run, c) = close_streams-notified w err t in
      inr (
        opened,
        (
          record w₁ {
            session = record w₁.session { streams = []; stream_count = 0; stream_capacity = 0 };
          },
          simp (session_close, ◌>>=◌, ◌>>◌, opened, send_go_away-sent (shutting w) err)
              (rw (◌>>◌, ◌>>=◌, run) refl),
          emptied w err t w₁.session c.rest_same,
        ),
      )
]
