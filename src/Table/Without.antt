-- ===== src/Table/Without.antt =====
-- A table of slots less one stream (src/yamux_stream_utils.c).
use tiny_yamux.Base.{
  ℕ, zero, suc, ◌<◌, ◌≡◌, ◌≢◌, inl, inr, refl, sym, ◌∙◌, arith, Option, none, some, List, [], ◌∷◌,
  ◌++◌, length, set, ◌==◌, if◌then◌else◌, Bool-cases, Option-cases,
}
use tiny_yamux.World.{Ptr, null, World, ◌>>=◌}
use tiny_yamux.World.Laws.{not_null, load-At}
use tiny_yamux.Table.{remove_slot}
use tiny_yamux.Table.Lookup.{Heap, Live, Distinct, has_id, has_id_unique, lookup}

-- The first slot with the id.
pub index_of : Heap → List Ptr → ℕ → Option ℕ
index_of heap [] id = none
index_of heap (p ∷ slots) id =
    if has_id heap p id
    then some 0
    else elim (index_of heap slots id) [ none ↦ none | some i ↦ some (suc i) ]

pub remove_slot-index_of :
    {C : Type 0} (w : World C) (slots : List Ptr) (id : ℕ)
    → Live w.heap slots
    → remove_slot slots id w ≡ some (index_of w.heap slots id, w)
unfolding remove_slot index_of
remove_slot-index_of w [] id live = refl
remove_slot-index_of w (p ∷ slots) id (inl e, live) =
    rw (e, remove_slot-index_of w slots id live, ◌>>=◌) refl
remove_slot-index_of w (p ∷ slots) id (inr (st, at), live) =
    rw (not_null at, load-At w at, ◌>>=◌, at.holds)
      (elim (Bool-cases (st.id == id)) [
        | inl same ↦ rw same refl
        | inr other ↦ rw (other, remove_slot-index_of w slots id live, ◌>>=◌) refl
      ])

-- `slots'` is `slots` less the stream with the id.
pub record Removed (heap : Heap) (id : ℕ) (slots slots' : List Ptr) : Type 0 where
  pub live : Live heap slots'
  pub distinct : Distinct heap slots'
  pub found :
      (id' : ℕ) → lookup heap slots' id' ≡ (if id == id' then null else lookup heap slots id')

module _ (heap : Heap) (id : ℕ) where
  pub set-Removed :
      (slots : List Ptr) (i : ℕ)
      → index_of heap slots id ≡ some i
      → Live heap slots
      → Distinct heap slots
      → Removed heap id slots (set slots i null)
  unfolding lookup index_of
  set-Removed [] i e live distinct = cc
  set-Removed (p ∷ slots) i e (live_p, live) (apart_p, distinct) =
      elim (Bool-cases (has_id heap p id)) [
        | inl here ↦
            let first : 0 ≡ i = ground arith in
            rw (← first) record {
              live = (inl refl, live);
              distinct = (λ id' h. absurd (cc), distinct);
              found = λ id'. ground (arith, apart_p id, has_id_unique heap p id id');
            }
        | inr there ↦ elim (Option-cases (index_of heap slots id)) [
          | inl gone ↦ absurd (ground arith)
          | inr (j, ej) ↦
              let later : suc j ≡ i = ground arith in
              let rest = set-Removed slots j ej live distinct in
              rw (← later) record {
                live = (live_p, rest.live);
                distinct = (λ id' h. rest.found id' ∙ ground (arith, apart_p id'), rest.distinct);
                found = λ id'. ground (arith, rest.found id', has_id_unique heap p id id');
              }
        ]
      ]

  pub absent_of_no_index :
      (slots : List Ptr) → index_of heap slots id ≡ none → lookup heap slots id ≡ null
  unfolding lookup index_of
  absent_of_no_index [] e = refl
  absent_of_no_index (p ∷ slots) e = ground (arith, absent_of_no_index slots)

  pub found_of_index :
      (slots : List Ptr) (i : ℕ) → index_of heap slots id ≡ some i → lookup heap slots id ≢ null
  unfolding lookup index_of
  found_of_index [] i e = cc
  found_of_index (zero ∷ slots) i e = elim (Option-cases (index_of heap slots id)) [
    | inl gone ↦ ground arith
    | inr (j, ej) ↦ found_of_index slots j ej
  ]
  found_of_index (suc p ∷ slots) i e = elim (Bool-cases (has_id heap (suc p) id)) [
    | inl here ↦ rw here (λ h. absurd (omega arith))
    | inr there ↦ rw there (elim (Option-cases (index_of heap slots id)) [
      | inl gone ↦ ground arith
      | inr (j, ej) ↦ found_of_index slots j ej
    ])
  ]

lookup-append_null :
    (heap : Heap) (slots : List Ptr) (id : ℕ)
    → lookup heap (slots ++ (null ∷ [])) id ≡ lookup heap slots id
unfolding lookup
lookup-append_null heap [] id = refl
lookup-append_null heap (p ∷ slots) id = ground (arith, lookup-append_null heap slots id)

Live-of_append :
    (heap : Heap) (slots : List Ptr) → Live heap (slots ++ (null ∷ [])) → Live heap slots
Live-of_append heap [] l = tt
Live-of_append heap (p ∷ slots) (l, ls) = (l, Live-of_append heap slots ls)

Distinct-of_append :
    (heap : Heap) (slots : List Ptr) → Distinct heap (slots ++ (null ∷ [])) → Distinct heap slots
Distinct-of_append heap [] d = tt
Distinct-of_append heap (p ∷ slots) (d, ds) =
    (λ id h. sym (lookup-append_null heap slots id) ∙ d id h, Distinct-of_append heap slots ds)

-- Dropping a NULL slot from the end changes nothing.
pub Removed-shorter :
    {heap : Heap} {id : ℕ} {slots : List Ptr} (slots' : List Ptr)
    → Removed heap id slots (slots' ++ (null ∷ []))
    → Removed heap id slots slots'
Removed-shorter {heap} {id} slots' r = record {
  live = Live-of_append heap slots' r.live;
  distinct = Distinct-of_append heap slots' r.distinct;
  found = λ id'. sym (lookup-append_null heap slots' id') ∙ r.found id';
}

pub index_of-lt :
    (heap : Heap) (slots : List Ptr) (id i : ℕ) → index_of heap slots id ≡ some i → i < length slots
unfolding index_of
index_of-lt heap [] id i e = cc
index_of-lt heap (p ∷ slots) id i e = elim (Option-cases (index_of heap slots id)) [
  | inl gone ↦ ground arith
  | inr (j, ej) ↦ ground (arith, index_of-lt heap slots id j ej)
]
