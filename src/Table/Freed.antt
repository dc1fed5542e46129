-- ===== src/Table/Freed.antt =====
-- A stream that is freed while the table does not have it (src/yamux_stream.c).
use tiny_yamux.Base.{
  ℕ, ◌<◌, ◌≡◌, ◌≢◌, inl, inr, refl, sym, ◌∙◌, arith, none, List, [], ◌∷◌, ==-false, ==-self,
}
use mathlib.Core.Bool.{false≢true}
use tiny_yamux.World.{Ptr, null, Stream, Session, update}
use tiny_yamux.World.Laws.{At, At-update_ne}
use tiny_yamux.AcceptQueue.Chain.{NotIn}
use tiny_yamux.Table.Lookup.{
  Heap, Live, has_id, lookup, Distinct, IsTable, slots_of, has_id-At, has_id_of_absent,
}

-- A stream whose id the table does not have is in none of its slots.
pub NotIn-absent :
    {heap : Heap} {p : Ptr} {st : Stream}
    → At heap p st
    → (slots : List Ptr) → lookup heap slots st.id ≡ null
    → NotIn p slots
NotIn-absent at [] gone = tt
NotIn-absent {heap} {p} {st} at (q ∷ slots) gone =
    let (miss, rest) = has_id_of_absent heap q slots st.id gone in
    (
      λ e. false≢true (sym miss ∙ rw e (has_id-At st.id at ∙ ==-self st.id)),
      NotIn-absent at slots rest,
    )

-- Nor is an address that no stream has had.
pub NotIn-fresh :
    {heap : Heap} (n : Ptr) (slots : List Ptr)
    → 0 < n
    → ((q : Ptr) (st : Stream) → At heap q st → q < n)
    → Live heap slots
    → NotIn n slots
NotIn-fresh n [] started below live = tt
NotIn-fresh n (q ∷ slots) started below (inl e, live) =
    (λ e'. absurd (omega arith), NotIn-fresh n slots started below live)
NotIn-fresh n (q ∷ slots) started below (inr (st, at), live) =
    (λ e'. absurd (omega (arith, below q st at)), NotIn-fresh n slots started below live)

module _ (heap : Heap) (p : Ptr) where
  has_id-freed : (q : Ptr) (id : ℕ) → q ≢ p → has_id (update heap p none) q id ≡ has_id heap q id
  has_id-freed q id ne = rw (==-false q p ne) refl

  Live-freed :
      (slots : List Ptr) → NotIn p slots → Live heap slots → Live (update heap p none) slots
  Live-freed [] gone live = tt
  Live-freed (q ∷ slots) (ne, gone) (inl e, live) = (inl e, Live-freed slots gone live)
  Live-freed (q ∷ slots) (ne, gone) (inr (st', at'), live) =
      (inr (st', At-update_ne p none ne at'), Live-freed slots gone live)

  lookup-freed :
      (slots : List Ptr) (id : ℕ)
      → NotIn p slots
      → lookup (update heap p none) slots id ≡ lookup heap slots id
  unfolding lookup
  lookup-freed [] id gone = refl
  lookup-freed (q ∷ slots) id (ne, gone) =
      rw (has_id-freed q id ne, lookup-freed slots id gone) refl

  Distinct-freed :
      (slots : List Ptr) → NotIn p slots → Distinct heap slots → Distinct (update heap p none) slots
  Distinct-freed [] gone d = tt
  Distinct-freed (q ∷ slots) (ne, gone) (h, d) = (
    λ id e. lookup-freed slots id gone ∙ h id (sym (has_id-freed q id ne) ∙ e),
    Distinct-freed slots gone d,
  )

  pub IsTable-freed :
      {C : Type 0} (s : Session C)
      → NotIn p (slots_of s)
      → IsTable heap s
      → IsTable (update heap p none) s
  IsTable-freed s gone t = record {
    live = Live-freed (slots_of s) gone t.live;
    distinct = Distinct-freed (slots_of s) gone t.distinct;
    room = t.room;
    sized = t.sized;
    some_room = t.some_room;
  }
