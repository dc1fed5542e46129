-- ===== src/Safety/Waiting.antt =====
-- Whether a stream waits to be accepted (src/yamux_internal.h).
use tiny_yamux.Base.{◌≡◌, sym, ap, ◌∙◌, List, [], ◌∷◌, eq_of_some}
use tiny_yamux.World.{Ptr, World}
use tiny_yamux.Table.Lookup.{Heap}
use tiny_yamux.AcceptQueue.Chain.{NotIn, Chain}

-- The accept queue does not have `p`.
abbrev pub NotWaiting : {C : Type 0} → World C → Ptr → Type 0
NotWaiting w p = (q : List Ptr) → Chain w.heap w.session.accept_queue q → NotIn p q

-- The chain from an address is one list.
pub Chain-NotIn :
    (heap : Heap) (p a : Ptr) (xs ys : List Ptr)
    → Chain heap p xs
    → Chain heap p ys
    → NotIn a xs
    → NotIn a ys
Chain-NotIn heap p a [] [] c c' ni = tt
Chain-NotIn heap p a [] (y ∷ ys) c (e, (st, at, c')) ni = absurd (at.ne_null (sym e ∙ c))
Chain-NotIn heap p a (x ∷ xs) [] c c' ni = tt
Chain-NotIn heap p a (x ∷ xs) (y ∷ ys) (e, (st, at, c)) (e', (st', at', c')) (ne, ni) =
    (λ h. ne (sym e ∙ e' ∙ h), Chain-NotIn heap st'.next a xs ys (rw next_same at c) c' ni)
  where
    same : x ≡ y
    same = sym e ∙ e'

    next_same : st.next ≡ st'.next
    next_same = ap (λ s. s.next) (eq_of_some (sym at.holds ∙ ap heap same ∙ at'.holds))
