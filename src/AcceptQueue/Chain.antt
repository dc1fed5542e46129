-- ===== src/AcceptQueue/Chain.antt =====
-- A chain of streams through their `next` pointers, and the lists of its addresses
-- (src/yamux_stream_utils.c).
use tiny_yamux.Base.{
  ℕ, zero, suc, ◌≤◌, ◌<◌, ◌≡◌, ◌≢◌, arith, Option, none, some, List, [], ◌∷◌, length, ◌==◌,
  if◌then◌else◌, Bool-cases, ==_iff, inl, inr,
}
use tiny_yamux.World.{Ptr, null, Stream, update}
use tiny_yamux.World.Laws.{At, At-update_ne}

abbrev pub NotIn : ℕ → List ℕ → Type 0
NotIn a [] = Unit {0}
NotIn a (x ∷ xs) = (x ≢ a) × NotIn a xs

abbrev pub Apart : List ℕ → Type 0
Apart [] = Unit {0}
Apart (x ∷ xs) = NotIn x xs × Apart xs

abbrev pub Below : ℕ → List ℕ → Type 0
Below n [] = Unit {0}
Below n (x ∷ xs) = (x < n) × Below n xs

-- The list less its first `a`.
without : ℕ → List ℕ → List ℕ
without a [] = []
without a (x ∷ xs) = if x == a then xs else x ∷ without a xs

length-without : (a : ℕ) (xs : List ℕ) → length xs ≤ suc (length (without a xs))
unfolding without
length-without a [] = omega arith
length-without a (x ∷ xs) = ground (arith, length-without a xs)

without-NotIn : (a b : ℕ) (xs : List ℕ) → NotIn b xs → NotIn b (without a xs)
unfolding without
without-NotIn a b [] n = tt
without-NotIn a b (x ∷ xs) (ne, n) = elim (Bool-cases (x == a)) [
  | inl hit ↦ rw hit n
  | inr miss ↦ rw miss (ne, without-NotIn a b xs n)
]

without-Apart : (a : ℕ) (xs : List ℕ) → Apart xs → Apart (without a xs)
unfolding without
without-Apart a [] d = tt
without-Apart a (x ∷ xs) (n, d) = elim (Bool-cases (x == a)) [
  | inl hit ↦ rw hit d
  | inr miss ↦ rw miss (without-NotIn a x xs n, without-Apart a xs d)
]

Below-NotIn : (n : ℕ) (xs : List ℕ) → Below (suc n) xs → NotIn n xs → Below n xs
Below-NotIn n [] b d = tt
Below-NotIn n (x ∷ xs) (lt, b) (ne, d) = (omega arith, Below-NotIn n xs b d)

without-Below : (n : ℕ) (xs : List ℕ) → Below (suc n) xs → Apart xs → Below n (without n xs)
unfolding without
without-Below n [] b d = tt
without-Below n (x ∷ xs) (lt, b) (ni, d) = elim (Bool-cases (x == n)) [
  | inl hit ↦ rw hit (Below-NotIn n xs b (rw ((==_iff x n).0 hit) at ni))
  | inr miss ↦ rw miss (ground arith, without-Below n xs b d)
]

-- Different numbers below `n` are at most `n`.
length_of_Below : (n : ℕ) (xs : List ℕ) → Below n xs → Apart xs → length xs ≤ n
length_of_Below zero [] b d = omega arith
length_of_Below zero (x ∷ xs) (lt, b) d = absurd (omega arith)
length_of_Below (suc n) xs b d = omega (
  arith,
  length-without n xs,
  length_of_Below n (without n xs) (without-Below n xs b d) (without-Apart n xs d),
)

-- From `p` the `next` pointers lead through the streams at `xs` to NULL.
abbrev pub Chain : (Ptr → Option Stream) → Ptr → List Ptr → Type 0
Chain heap p [] = p ≡ null
Chain heap p (x ∷ xs) = (p ≡ x) × ((st : Stream) × At heap x st × Chain heap st.next xs)

Chain-null :
    (heap : Ptr → Option Stream) (p : Ptr) (xs : List Ptr) → Chain heap p xs → NotIn null xs
Chain-null heap p [] c = tt
Chain-null heap p (x ∷ xs) (e, (st, at, c)) = (at.ne_null, Chain-null heap st.next xs c)

-- A change elsewhere leaves the chain.
pub Chain-update :
    (heap : Ptr → Option Stream) (q : Ptr) (c : Option Stream) (p : Ptr) (xs : List Ptr)
    → Chain heap p xs
    → NotIn q xs
    → Chain (update heap q c) p xs
Chain-update heap q c p [] ch n = ch
Chain-update heap q c p (x ∷ xs) (e, (st, at, ch)) (ne, n) =
    (e, (st, At-update_ne q c ne at, Chain-update heap q c st.next xs ch n))

-- An address that holds no stream is not in a chain.
pub Chain-vacant :
    (heap : Ptr → Option Stream) (a : Ptr) (p : Ptr) (xs : List Ptr)
    → heap a ≡ none
    → Chain heap p xs
    → NotIn a xs
Chain-vacant heap a p [] vacant c = tt
Chain-vacant heap a p (x ∷ xs) vacant (e, (st, at, c)) =
    (λ same. occupied vacant (at.holds) same, Chain-vacant heap a st.next xs vacant c)
  where
    occupied : heap a ≡ none → heap x ≡ some st → x ≢ a
    occupied h h' same = cc

-- A chain of different addresses below `n` is shorter than `n`, for NULL is not in it.
pub length-Chain :
    (heap : Ptr → Option Stream) (n : ℕ) (p : Ptr) (xs : List Ptr)
    → Chain heap p xs
    → Apart xs
    → Below n xs
    → 0 < n
    → length xs < n
length-Chain heap n p xs c d b pos =
    omega (arith, length_of_Below n (null ∷ xs) (pos, b) (Chain-null heap p xs c, d))
