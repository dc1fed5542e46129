-- ===== src/Table/Insert.antt =====
-- `yamux_add_stream` as insertion into the map (src/yamux_stream_utils.c).
use tiny_yamux.Base.{
  ℕ, zero, suc, ◌<◌, ◌≡◌, ◌⊎◌, inl, inr, refl, sym, ap, ◌∙◌, arith, true, false, some, List, [],
  ◌∷◌, ◌++◌, set, length-set, take-set, take-set_end, ◌==◌, if◌then◌else◌, ==-false, Bool-cases,
  Option-cases, ==_iff,
}
use mathlib.Core.Bool.{false≢true}
use tiny_yamux.World.{Ptr, null, Stream, Session}
use tiny_yamux.World.Laws.{At}
use tiny_yamux.Table.{empty_slot, append}
use tiny_yamux.Table.Lookup.{
  Heap, Live, Distinct, IsTable, has_id, has_id-At, has_id_of_absent, lookup, slots_of,
}

-- `slots'` is `slots` with the stream `st` at `p` added.
record Added (heap : Heap) (p : Ptr) (st : Stream) (slots slots' : List Ptr) : Type 0 where
  live : Live heap slots'
  distinct : Distinct heap slots'
  found : (id : ℕ) → lookup heap slots' id ≡ (if st.id == id then p else lookup heap slots id)

-- Ids that a slot tells apart differ.
ids_differ :
    (heap : Heap) (q : Ptr) (a b : ℕ)
    → has_id heap q a ≡ false
    → has_id heap q b ≡ true
    → (a == b) ≡ false
ids_differ heap q a b no' yes' =
    ==-false a b λ e. false≢true (sym no' ∙ ap (has_id heap q) e ∙ yes')

-- Putting the stream behind or into a slot, once the other slots are done.
cons-Added :
    {heap : Heap} {p q : Ptr} {st : Stream} {slots slots' : List Ptr}
    → ((q ≡ null) ⊎ ((st' : Stream) × At heap q st'))
    → ((id : ℕ) → has_id heap q id ≡ true → lookup heap slots id ≡ null)
    → has_id heap q st.id ≡ false
    → Added heap p st slots slots'
    → Added heap p st (q ∷ slots) (q ∷ slots')
unfolding lookup
cons-Added {heap} {p} {q} {st} live_q apart other rest = record {
  live = (live_q, rest.live);
  distinct =
      (λ id h. rest.found id ∙ rw (ids_differ heap q st.id id other h) (apart id h), rest.distinct);
  found = λ id. elim (Bool-cases (has_id heap q id)) [
    | inl yes' ↦ rw (yes', ids_differ heap q st.id id other yes') refl
    | inr no' ↦ rw no' (rest.found id)
  ];
}

module _ {heap : Heap} {p : Ptr} {st : Stream} (at : At heap p st) where
  append-Added :
      (slots : List Ptr)
      → Live heap slots
      → Distinct heap slots
      → lookup heap slots st.id ≡ null
      → Added heap p st slots (slots ++ (p ∷ []))
  unfolding lookup
  append-Added [] live distinct absent = record {
    live = (inr (st, at), tt);
    distinct = (λ id h. refl, tt);
    found = λ id. rw (has_id-At id at) refl;
  }
  append-Added (q ∷ slots) (live_q, live) (apart_q, distinct) absent =
      let (other, absent') = has_id_of_absent heap q slots st.id absent in
      cons-Added live_q apart_q other (append-Added slots live distinct absent')

  set-Added :
      (slots : List Ptr) (i : ℕ)
      → empty_slot slots ≡ some i
      → Live heap slots
      → Distinct heap slots
      → lookup heap slots st.id ≡ null
      → Added heap p st slots (set slots i p)
  unfolding lookup empty_slot
  set-Added [] i e live distinct absent = cc
  set-Added (zero ∷ slots) i e (live_q, live) (apart_q, distinct) absent =
      let first : 0 ≡ i = ground arith in
      rw (← first) record {
        live = (inr (st, at), live);
        distinct = (
          λ id h.
              let same : st.id ≡ id = (==_iff _ _).0 (sym (has_id-At id at) ∙ h) in
              rw (← same) absent,
          distinct,
        );
        found = λ id. rw (has_id-At id at) refl;
      }
  set-Added (suc q ∷ slots) i e (live_q, live) (apart_q, distinct) absent =
      let (other, absent') = has_id_of_absent heap (suc q) slots st.id absent in
      elim (Option-cases (empty_slot slots)) [
        | inl full ↦ absurd (ground arith)
        | inr (j, ej) ↦
            let later : suc j ≡ i = ground arith in
            rw (← later)
              (cons-Added live_q apart_q other (set-Added slots j ej live distinct absent'))
      ]

-- The table with the stream at `p` added to that of `s`.
pub record Inserted {C : Type 0} (heap : Heap) (p : Ptr) (st : Stream) (s s' : Session C)
    : Type 0 where
  pub table : IsTable heap s'
  pub found :
      (id : ℕ)
      → lookup heap (slots_of s') id ≡ (if st.id == id then p else lookup heap (slots_of s) id)
  pub rest_same : s' ≡ record s {
    streams = s'.streams;
    stream_count = s'.stream_count;
    stream_capacity = s'.stream_capacity;
  }

module _ {C : Type 0} {heap : Heap} {p : Ptr} {st : Stream} (at : At heap p st) (s : Session C)
    (t : IsTable heap s) (absent : lookup heap (slots_of s) st.id ≡ null) where
  pub set-Inserted :
      (i : ℕ)
      → empty_slot (slots_of s) ≡ some i
      → Inserted heap p st s (record s { streams = set s.streams i p })
  set-Inserted i e =
      let a =
        rw (← take-set s.stream_count i s.streams p) at
          (set-Added at (slots_of s) i e t.live t.distinct absent) in
      record {
        table = record {
          live = a.live;
          distinct = a.distinct;
          room = t.room;
          sized = length-set s.streams i p ∙ t.sized;
          some_room = t.some_room;
        };
        found = a.found;
        rest_same = refl;
      }

  pub append-Inserted : s.stream_count < s.stream_capacity → Inserted heap p st s (append s p)
  unfolding append
  append-Inserted below =
      let a =
        rw (← take-set_end s.stream_count s.streams p (omega (arith, t.sized))) at
          (append-Added at (slots_of s) t.live t.distinct absent) in
      record {
        table = record {
          live = a.live;
          distinct = a.distinct;
          room = omega arith;
          sized = length-set s.streams s.stream_count p ∙ t.sized;
          some_room = t.some_room;
        };
        found = a.found;
        rest_same = refl;
      }
