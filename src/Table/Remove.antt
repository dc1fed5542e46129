-- ===== src/Table/Remove.antt =====
-- `yamux_remove_stream` as deletion from the map (src/yamux_stream_utils.c).
use tiny_yamux.Base.{
  ℕ, ◌+◌, ◌-◌, ◌<◌, ◌≤◌, ◌≡◌, ◌≢◌, ◌⊎◌, inl, inr, refl, sym, ap, ◌∙◌, arith, some, [], ◌∷◌, ◌++◌,
  take, length, set, length-set, take-set, take-set_at, take-set_end, length-take, min, ◌==◌,
  if◌then◌else◌, Bool-cases, Option-cases, ==_iff,
}
use tiny_yamux.Protocol.{ok, err_invalid}
use tiny_yamux.World.{null, Session, World, the_session, ◌>>=◌}
use tiny_yamux.Table.{clear_slot, remove_stream}
use tiny_yamux.Table.Lookup.{Heap, IsTable, lookup, slots_of, stream_of}
use tiny_yamux.Table.Without.{
  Removed, Removed-shorter, absent_of_no_index, found_of_index, index_of, index_of-lt,
  remove_slot-index_of, set-Removed,
}

-- Clearing slot `i`, the last one in use or another.
clear_slot-Removed :
    {C : Type 0} {heap : Heap} {id : ℕ} (s : Session C) (i : ℕ)
    → i < length (slots_of s)
    → Removed heap id (slots_of s) (set (slots_of s) i null)
    → Removed heap id (slots_of s) (slots_of (clear_slot s i))
unfolding clear_slot
clear_slot-Removed {heap} {id} s i h r = elim (Bool-cases (i == s.stream_count - 1)) [
  | inr inner ↦ rw (inner, take-set s.stream_count i s.streams null) r
  | inl last ↦
      let n : ℕ = s.stream_count - 1 in
      let at_end : i ≡ n = (==_iff _ _).0 last in
      let in_use : i < min s.stream_count (length s.streams) =
        rw (length-take s.stream_count s.streams) at h in
      let count : n + 1 ≡ s.stream_count = omega arith in
      let shape : set (slots_of s) i null ≡ take n (set s.streams i null) ++ (null ∷ []) =
        sym (take-set s.stream_count i s.streams null)
        ∙ rw (at_end, take-set_at n s.streams null)
            (ap (λ k. take k (set s.streams n null)) (sym count)
              ∙ take-set_end n s.streams null (omega arith)) in
      rw last (Removed-shorter (take n (set s.streams i null)) (rw shape at r))
]

clear_slot-IsTable :
    {C : Type 0} {heap : Heap} {id : ℕ} (s : Session C) (i : ℕ)
    → IsTable heap s
    → Removed heap id (slots_of s) (slots_of (clear_slot s i))
    → IsTable heap (clear_slot s i)
unfolding clear_slot
clear_slot-IsTable s i t r = record {
  live = r.live;
  distinct = r.distinct;
  room = ground (arith, t.room);
  sized = length-set s.streams i null ∙ t.sized;
  some_room = t.some_room;
}

-- What the removal of the stream with the id leaves of the session.
pub record Unlisted {C : Type 0} (w : World C) (id : ℕ) (s' : Session C) : Type 0 where
  pub table : IsTable w.heap s'
  pub found :
      (id' : ℕ) → lookup w.heap (slots_of s') id' ≡ (if id == id' then null else stream_of w id')
  pub rest_same : s' ≡ record w.session { streams = s'.streams; stream_count = s'.stream_count }
  pub no_longer : s'.stream_count ≤ w.session.stream_count

clear_slot-le :
    {C : Type 0} (s : Session C) (i : ℕ) → (clear_slot s i).stream_count ≤ s.stream_count
unfolding clear_slot
clear_slot-le s i = ground arith

clear_slot_rest :
    {C : Type 0} (s : Session C) (i : ℕ)
    → clear_slot s i ≡ record s {
      streams = (clear_slot s i).streams;
      stream_count = (clear_slot s i).stream_count;
    }
unfolding clear_slot
clear_slot_rest s i = refl

-- `yamux_remove_stream` on a well-formed table: if the table has a stream with the id, the call
-- succeeds, the table stays well formed, and afterwards every lookup of that id finds nothing and of
-- any other id what it found before; the rest of the session stays. If it has none, the call is
-- refused and changes nothing.
pub remove_stream_lem :
    {C : Type 0} (w : World C) (id : ℕ)
    → IsTable w.heap w.session
    → ((stream_of w id ≢ null)
        × ((s' : Session C) × (remove_stream the_session id w
              ≡ some (ok, record w { session = s' }))
            × Unlisted w id s'))
      ⊎ ((stream_of w id ≡ null) × (remove_stream the_session id w ≡ some (err_invalid, w)))
unfolding remove_stream
remove_stream_lem w id t = elim (Option-cases (index_of w.heap (slots_of w.session) id)) [
  | inl gone ↦ inr (
    absent_of_no_index w.heap id (slots_of w.session) gone,
    simp (remove_stream, ◌>>=◌, remove_slot-index_of w (slots_of w.session) id t.live, gone) refl,
  )
  | inr (i, e) ↦
      let r =
        clear_slot-Removed w.session i (index_of-lt w.heap (slots_of w.session) id i e)
          (set-Removed w.heap id (slots_of w.session) i e t.live t.distinct) in
      inl (
        found_of_index w.heap id (slots_of w.session) i e,
        (
          clear_slot w.session i,
          simp (remove_stream, ◌>>=◌, remove_slot-index_of w (slots_of w.session) id t.live, e)
              refl,
          record {
            table = clear_slot-IsTable w.session i t r;
            found = r.found;
            rest_same = clear_slot_rest w.session i;
            no_longer = clear_slot-le w.session i;
          },
        ),
      )
]
