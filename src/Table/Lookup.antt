-- ===== src/Table/Lookup.antt =====
-- The table as a finite map from ids to streams (src/yamux_stream_utils.c).
use tiny_yamux.Base.{
  ℕ, zero, suc, ◌≤◌, ◌<◌, ◌≡◌, ◌⊎◌, inl, inr, refl, arith, Bool, true, false, Option, none, some,
  List, [], ◌∷◌, take, length, ◌==◌, if◌then◌else◌, Bool-cases, ==_iff,
}
use tiny_yamux.World.{Ptr, null, Stream, Session, World, the_session, ◌>>=◌}
use tiny_yamux.World.Laws.{At, not_null, load-At}
use tiny_yamux.Table.{find, get_stream}

abbrev pub Heap : Type 0
Heap = Ptr → Option Stream

-- Each slot is NULL or holds the address of a stream that is there.
abbrev pub Live : Heap → List Ptr → Type 0
Live heap [] = Unit {0}
Live heap (p ∷ slots) = ((p ≡ null) ⊎ ((st : Stream) × At heap p st)) × Live heap slots

-- Does slot `p` hold the stream with that id?
abbrev pub has_id : Heap → Ptr → ℕ → Bool
has_id heap p id =
    if p == null then false else elim (heap p) [ none ↦ false | some st ↦ st.id == id ]

-- The stream with that id, NULL if there is none.
unfoldable pub lookup : Heap → List Ptr → ℕ → Ptr
lookup heap [] id = null
lookup heap (p ∷ slots) id = if has_id heap p id then p else lookup heap slots id

module _ {C : Type 0} where
  pub find-lookup :
      (w : World C) (slots : List Ptr) (id : ℕ)
      → Live w.heap slots
      → find slots id w ≡ some (lookup w.heap slots id, w)
  unfolding find lookup
  find-lookup w [] id live = refl
  find-lookup w (p ∷ slots) id (inl e, live) = rw (e) (find-lookup w slots id live)
  find-lookup w (p ∷ slots) id (inr (st, at), live) =
      rw (not_null at, load-At w at, ◌>>=◌, at.holds)
        (elim (Bool-cases (st.id == id)) [
          | inl same ↦ rw same refl
          | inr other ↦ rw other (find-lookup w slots id live)
        ])

-- The slots of the session's table that are in use.
abbrev pub slots_of : {C : Type 0} → Session C → List Ptr
slots_of s = take s.stream_count s.streams

-- What the session's table holds for an id.
abbrev pub stream_of : {C : Type 0} → World C → ℕ → Ptr
stream_of w id = lookup w.heap (slots_of w.session) id

-- A lookup that finds something finds a stream that is there and has that id.
pub lookup-At :
    (heap : Heap) (slots : List Ptr) (id : ℕ)
    → Live heap slots
    → (lookup heap slots id ≡ null)
      ⊎ ((st : Stream) × At heap (lookup heap slots id) st × (st.id ≡ id))
unfolding lookup
lookup-At heap [] id live = inl refl
lookup-At heap (p ∷ slots) id (inl e, live) = rw e (lookup-At heap slots id live)
lookup-At heap (p ∷ slots) id (inr (st, at), live) =
    rw (not_null at, at.holds)
      (elim (Bool-cases (st.id == id)) [
        | inl same ↦ rw same (inr (st, at, (==_iff _ _).0 same))
        | inr other ↦ rw other (lookup-At heap slots id live)
      ])

-- No two slots hold streams with one id.
abbrev pub Distinct : Heap → List Ptr → Type 0
Distinct heap [] = Unit {0}
Distinct heap (p ∷ slots) =
    ((id : ℕ) → has_id heap p id ≡ true → lookup heap slots id ≡ null) × Distinct heap slots

-- The table of a session that is not closed.
pub record IsTable {C : Type 0} (heap : Heap) (s : Session C) : Type 0 where
  pub live : Live heap (slots_of s)
  pub distinct : Distinct heap (slots_of s)
  pub room : s.stream_count ≤ s.stream_capacity
  pub sized : length s.streams ≡ s.stream_capacity
  pub some_room : 0 < s.stream_capacity

-- The table is in these fields.
pub IsTable-same :
    {C : Type 0} {heap : Heap} {s s' : Session C}
    → s'.streams ≡ s.streams
    → s'.stream_count ≡ s.stream_count
    → s'.stream_capacity ≡ s.stream_capacity
    → IsTable heap s
    → IsTable heap s'
IsTable-same slots count capacity t = record {
  live = rw (slots, count) t.live;
  distinct = rw (slots, count) t.distinct;
  room = rw (count, capacity) t.room;
  sized = rw (slots, capacity) t.sized;
  some_room = rw capacity t.some_room;
}

pub has_id-At :
    {heap : Heap} {p : Ptr} {st : Stream} (id : ℕ) → At heap p st → has_id heap p id ≡ (st.id == id)
has_id-At id at = rw (not_null at, at.holds) refl

-- The lookup in the session's table, where its streams are there.
pub get_stream-stream_of :
    {C : Type 0} (w : World C) (id : ℕ)
    → IsTable w.heap w.session
    → get_stream the_session id w ≡ some (stream_of w id, w)
unfolding get_stream
get_stream-stream_of w id t = find-lookup w (slots_of w.session) id t.live

-- A slot that has the id is what the lookup must not pass by.
pub has_id_of_absent :
    (heap : Heap) (p : Ptr) (slots : List Ptr) (id : ℕ)
    → lookup heap (p ∷ slots) id ≡ null
    → (has_id heap p id ≡ false) × (lookup heap slots id ≡ null)
unfolding lookup
has_id_of_absent heap zero slots id h = (refl, h)
has_id_of_absent heap (suc p) slots id h = ground arith

-- A slot has one id at most.
pub has_id_unique :
    (heap : Heap) (p : Ptr) (a b : ℕ) → has_id heap p a ≡ true → has_id heap p b ≡ true → a ≡ b
has_id_unique heap p a b ha hb = ground arith
