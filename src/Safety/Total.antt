-- ===== src/Safety/Total.antt =====
-- Total correctness of a command: from a given world it returns, and what it leaves is as stated
-- (src/yamux_internal.h).
use tiny_yamux.Base.{◌≡◌, refl, Option, some, none}
use tiny_yamux.World.{World}

-- The outcome is a return, not undefined behaviour, and `Q` holds of the value and the world.
pub data Returns {C A : Type 0} (o : Option (A × World C)) (Q : A → World C → Type 0) : Type 0 where
  returns : (a : A) (w : World C) → o ≡ some (a, w) → Q a w → Returns o Q

pub Returns-pure :
    {C A : Type 0} {Q : A → World C → Type 0} {a : A} {w : World C}
    → Q a w
    → Returns (some (a, w)) Q
Returns-pure {a} {w} q = returns a w refl q

-- A command and its continuation.
pub Returns-bind :
    {C A B : Type 0} {o : Option (A × World C)} {k : A → World C → Option (B × World C)}
    {Q : A → World C → Type 0} {R : B → World C → Type 0}
    → Returns o Q
    → ((a : A) (w : World C) → Q a w → Returns (k a w) R)
    → Returns (elim o [ none ↦ none | some (a, w) ↦ k a w ]) R
Returns-bind (returns a w e q) f = rw e (f a w q)

pub Returns-weaken :
    {C A : Type 0} {o : Option (A × World C)} {Q R : A → World C → Type 0}
    → Returns o Q
    → ((a : A) (w : World C) → Q a w → R a w)
    → Returns o R
Returns-weaken (returns a w e q) f = returns a w e (f a w q)
