-- ===== src/Streams/Atomic.antt =====
-- Opening a stream is all or nothing (src/yamux_stream.c).
use tiny_yamux.Base.{
  ℕ, ◌<◌, ◌≡◌, inl, inr, refl, false, none, some, replicate, ◌==◌, if◌then◌else◌, Bool-cases,
}
use tiny_yamux.Protocol.{Result, err_invalid, err_nomem, initial_buffer_size, add_u32}
use tiny_yamux.Buffer
use tiny_yamux.Buffer.{Buffer}
use tiny_yamux.World.{for_buffer, for_stream, Ptr, null, World, the_session, ◌>>=◌, sizeof_stream}
use tiny_yamux.Table.Lookup.{IsTable-same, IsTable}
use tiny_yamux.Streams.{take_id, open_allocated, stream_open_detailed}
use tiny_yamux.Streams.Asking.{OpenOutcome, nothing_done, sent, stream_there}

-- The id that a call for `stream_id` takes, and the session that has given it out.
abbrev pub chosen_id : {C : Type 0} → World C → ℕ → ℕ
chosen_id w stream_id = if stream_id == 0 then w.session.next_stream_id else stream_id

id_given :
    {C : Type 0} (w : World C) (stream_id : ℕ)
    → (n : ℕ) × (take_id stream_id w
        ≡ some
            (chosen_id w stream_id, record w { session = record w.session { next_stream_id = n } }))
unfolding take_id
id_given w stream_id = elim (Bool-cases (stream_id == 0)) [
  | inl next ↦ (add_u32 w.session.next_stream_id 2, rw next refl)
  | inr given ↦ (w.session.next_stream_id, rw given refl)
]

module _ {C : Type 0} (w : World C) (t : IsTable w.heap w.session) (vacant : w.heap w.fresh ≡ none)
    (started : 0 < w.fresh) (is_open : w.session.go_away_received ≡ false) where
  -- Taking an id changes nothing else.
  taken_outcome :
      (n id : ℕ) (r : Result) (p : Ptr) (w' : World C)
      → OpenOutcome (record w { session = record w.session { next_stream_id = n } }) id r p w'
      → OpenOutcome w id r p w'
  taken_outcome n id r p w' (stream_there st at same state absent found) =
      stream_there st at same state absent found
  taken_outcome n id r p w' (nothing_done failed heap session) = nothing_done failed heap session

  allocated :
      (stream_id : ℕ)
      → (r : Result) × (p : Ptr) × (w' : World C) × (open_allocated stream_id w ≡ some ((r, p), w'))
        × OpenOutcome w (chosen_id w stream_id) r p w'
  unfolding open_allocated Buffer.init
  allocated stream_id =
      let id = chosen_id w stream_id in
      let (n, given) = id_given w stream_id in
      let w₁ = record w { session = record w.session { next_stream_id = n } } in
      let made : Buffer = record {
        block = some (replicate initial_buffer_size 0);
        size = initial_buffer_size;
        used = 0;
        pos = 0;
      } in
      elim (Bool-cases (w.grants for_buffer initial_buffer_size)) [
        | inr denied ↦ (
          err_nomem,
          null,
          w₁,
          rw (open_allocated, ◌>>=◌, given, denied) refl,
          nothing_done refl refl refl,
        )
        | inl fits ↦
            let (r, p, w', run, out) =
              sent w₁ (IsTable-same refl refl refl t) vacant started is_open id made in
            (r, p, w', rw (open_allocated, ◌>>=◌, given, fits) run, taken_outcome n id r p w' out)
      ]

-- `yamux_stream_open_detailed` on an open session in order, for any id, always returns, and is all or
-- nothing, whatever the allocator refuses and the callback fails to write: either it reports success,
-- the id given, or the next one for 0, was not in the table, and now a stream in SYN_SENT is found under it, where
-- all else stays; or it reports an error and NULL, every address holds what it held, and of the
-- session at most the next id has changed.
pub stream_open_atomic :
    {C : Type 0} (w : World C) (stream_id : ℕ)
    → IsTable w.heap w.session
    → w.heap w.fresh ≡ none
    → 0 < w.fresh
    → w.session.go_away_received ≡ false
    → (r : Result) × (p : Ptr) × (w' : World C) × (stream_open_detailed the_session stream_id w
        ≡ some ((r, p), w'))
      × OpenOutcome w (chosen_id w stream_id) r p w'
unfolding stream_open_detailed
stream_open_atomic w stream_id t vacant started is_open =
    elim (Bool-cases (stream_id == 0xFFFFFFFF)) [
      | inl bad ↦ (
        err_invalid,
        null,
        w,
        simp (stream_open_detailed, ◌>>=◌, is_open, bad) refl,
        nothing_done refl refl refl,
      )
      | inr good ↦ elim (Bool-cases (w.grants for_stream sizeof_stream)) [
        | inr denied ↦ (
          err_nomem,
          null,
          w,
          simp (stream_open_detailed, ◌>>=◌, is_open, good, denied) refl,
          nothing_done refl refl refl,
        )
        | inl fits ↦
            let (r, p, w', run, out) = allocated w t vacant started is_open stream_id in
            (r, p, w', simp (stream_open_detailed, ◌>>=◌, is_open, good, fits) run, out)
      ]
    ]
