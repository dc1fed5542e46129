-- ===== src/Table/SameIds.antt =====
-- A heap in which each stream is still there under its id (src/yamux_stream_utils.c).
use tiny_yamux.Base.{
  ℕ, ◌≡◌, ◌≢◌, ◌⊎◌, inl, inr, refl, sym, ◌∙◌, ap, true, false, some, none, List, [], ◌∷◌, ◌==◌,
  Bool-cases, ==_iff, eq_of_some,
}
use mathlib.Core.Bool.{false≢true}
use tiny_yamux.World.{Ptr, null, Stream, Session, update}
use tiny_yamux.World.Laws.{At, At-update, At-update_ne}
use tiny_yamux.Table.Lookup.{Heap, Live, has_id, lookup, Distinct, IsTable, slots_of, has_id-At}

abbrev pub SameIds : Heap → Heap → Type 0
SameIds heap heap' =
    (q : Ptr) (st : Stream) → At heap q st → (st' : Stream) × At heap' q st' × (st'.id ≡ st.id)

module _ (heap heap' : Heap) (same : SameIds heap heap') where
  Live-SameIds : (slots : List Ptr) → Live heap slots → Live heap' slots
  Live-SameIds [] live = tt
  Live-SameIds (q ∷ slots) (inl e, live) = (inl e, Live-SameIds slots live)
  Live-SameIds (q ∷ slots) (inr (st, at), live) =
      let (st', at', _) = same q st at in (inr (st', at'), Live-SameIds slots live)

  has_id-SameIds :
      (q : Ptr) (id : ℕ)
      → (q ≡ null) ⊎ ((st : Stream) × At heap q st)
      → has_id heap' q id ≡ has_id heap q id
  has_id-SameIds q id (inl e) = rw e refl
  has_id-SameIds q id (inr (st, at)) =
      let (st', at', e) = same q st at in
      has_id-At id at' ∙ ap (λ n. n == id) e ∙ sym (has_id-At id at)

  pub lookup-SameIds :
      (slots : List Ptr) (id : ℕ) → Live heap slots → lookup heap' slots id ≡ lookup heap slots id
  unfolding lookup
  lookup-SameIds [] id live = refl
  lookup-SameIds (q ∷ slots) id (there, live) =
      rw (has_id-SameIds q id there, lookup-SameIds slots id live) refl

  Distinct-SameIds :
      (slots : List Ptr) → Live heap slots → Distinct heap slots → Distinct heap' slots
  Distinct-SameIds [] live d = tt
  Distinct-SameIds (q ∷ slots) (there, live) (h, d) = (
    λ id e. lookup-SameIds slots id live ∙ h id (sym (has_id-SameIds q id there) ∙ e),
    Distinct-SameIds slots live d,
  )

  pub IsTable-SameIds : {C : Type 0} (s : Session C) → IsTable heap s → IsTable heap' s
  IsTable-SameIds s t = record {
    live = Live-SameIds (slots_of s) t.live;
    distinct = Distinct-SameIds (slots_of s) t.live t.distinct;
    room = t.room;
    sized = t.sized;
    some_room = t.some_room;
  }

-- A stream at an address that held none.
pub update-SameIds :
    (heap : Heap) (p : Ptr) (new : Stream) → heap p ≡ none → SameIds heap (update heap p (some new))
update-SameIds heap p new vacant q st at =
    (st, At-update_ne p _ (λ e. occupied (sym vacant ∙ ap heap (sym e) ∙ at.holds)) at, refl)
  where
    occupied : {A : Type 0} {a : A} → none ≢ some a
    occupied e = false≢true (ap (λ o. elim o [ none ↦ false | some _ ↦ true ]) e)

-- Another stream with the same id.
pub replace-SameIds :
    (heap : Heap) {p : Ptr} {st : Stream} (new : Stream)
    → At heap p st
    → new.id ≡ st.id
    → SameIds heap (update heap p (some new))
replace-SameIds heap {p} {st} new at same q st' at' = elim (Bool-cases (q == p)) [
  | inl hit ↦ (
    new,
    rw ((==_iff q p).0 hit) (At-update heap p new at.ne_null),
    same ∙ ap (λ s. s.id) (unique ((==_iff q p).0 hit)),
  )
  | inr miss ↦ (st', At-update_ne p _ (λ e. false≢true (sym miss ∙ (==_iff q p).1 e)) at', refl)
]
  where
    unique : q ≡ p → st ≡ st'
    unique e = eq_of_some (sym at.holds ∙ ap heap (sym e) ∙ at'.holds)
