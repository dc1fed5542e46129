-- ===== src/AcceptQueue/Link.antt =====
-- Linking a stream to the end of a chain (src/yamux_stream_utils.c).
use tiny_yamux.Base.{
  ℕ, zero, suc, ◌<◌, ◌≡◌, refl, sym, ap, ◌∙◌, arith, ◌≢◌, Option, none, some, List, [], ◌∷◌, ◌++◌,
  length, ◌==◌, ==-false, Bool-cases, eq_of_some, ==_iff, inl, inr, false,
}
use mathlib.Core.Bool.{false≢true}
use tiny_yamux.World.{Ptr, null, Stream, World, update, ◌>>=◌}
use tiny_yamux.World.Laws.{At, At-update, At-update_ne, load-At, store-At}
use tiny_yamux.AcceptQueue.{set_next, link_last}
use tiny_yamux.AcceptQueue.Chain.{NotIn, Apart, Chain}

pub set_next-At :
    {C : Type 0} (w : World C) {p : Ptr} {st : Stream} (q : Ptr)
    → At w.heap p st
    → set_next p q w
      ≡ some (tt, record w { heap = update w.heap p (some (record st { next = q })) })
unfolding set_next
set_next-At w {st} q at =
    rw (set_next, ◌>>=◌, load-At w at) (store-At w at (record st { next = q }))

-- Every stream is still there, with the same fields but `next`.
abbrev pub Kept : (Ptr → Option Stream) → (Ptr → Option Stream) → Type 0
Kept heap heap' =
    (q : Ptr) (st : Stream) → At heap q st → (n : Ptr) × At heap' q (record st { next = n })

pub Kept-update :
    (heap : Ptr → Option Stream) (p : Ptr) (st : Stream) (n : Ptr)
    → At heap p st
    → Kept heap (update heap p (some (record st { next = n })))
Kept-update heap p st n at q st' at' = elim (Bool-cases (q == p)) [
  | inl same ↦ (
    n,
    record {
      ne_null = at'.ne_null;
      holds =
          rw same
            (ap {A = Stream} (λ s. some (record s { next = n })) (unique ((==_iff _ _).0 same)));
    },
  )
  | inr other ↦ (st'.next, At-update_ne p _ (λ e. false≢true (sym other ∙ (==_iff _ _).1 e)) at')
]
  where
    unique : q ≡ p → st ≡ st'
    unique e = eq_of_some (sym at.holds ∙ ap heap (sym e) ∙ at'.holds)

-- Where no stream was, there is none.
pub update_vacant :
    {heap : Ptr → Option Stream} {p : Ptr} {st : Stream}
    → At heap p st
    → (n : Ptr) (a : Ptr) → heap a ≡ none
    → update heap p (some (record st { next = n })) a ≡ none
update_vacant {heap} {p} {st} at n a vacant = elim (Bool-cases (a == p)) [
  | inl same ↦ absurd (none_is_some ((==_iff _ _).0 same))
  | inr other ↦ rw other vacant
]
  where
    none_is_some : a ≢ p
    none_is_some same = occupied (sym vacant ∙ ap heap same ∙ at.holds)
      where
        occupied : none ≢ some st
        occupied h = cc

-- What the walk to the end and the link there leave.
pub record Linked {C : Type 0} (w : World C) (c : Ptr) (xs : List Ptr) (stream : Ptr)
    (heap' : Ptr → Option Stream) : Type 0 where
  pub chain : Chain heap' c ((c ∷ xs) ++ (stream ∷ []))
  pub others : (q : Ptr) → NotIn q (c ∷ xs) → heap' q ≡ w.heap q
  pub kept : Kept w.heap heap'

pub link_last-Linked :
    {C : Type 0} (k : ℕ) (w : World C) (c : Ptr) (xs : List Ptr) (stream : Ptr) {new : Stream}
    → Chain w.heap c (c ∷ xs)
    → Apart (c ∷ xs)
    → NotIn stream (c ∷ xs)
    → At w.heap stream new
    → new.next ≡ null
    → length xs < k
    → (heap' : Ptr → Option Stream) × (link_last k c stream w
        ≡ some (tt, record w { heap = heap' }))
      × Linked w c xs stream heap'
unfolding link_last
link_last-Linked zero w c xs stream ch d ni at e fuel = absurd (omega arith)
link_last-Linked (suc k) w c [] stream {new} (_, (st, at_c, end)) d (ne, _) at e fuel = (
  update w.heap c (some (record st { next = stream })),
  simp (link_last, ◌>>=◌, load-At w at_c, (==_iff _ _).1 end) (set_next-At w stream at_c),
  record {
    chain = (
      refl,
      (
        _,
        At-update w.heap c _ at_c.ne_null,
        (refl, (new, At-update_ne c _ (λ eq. ne (sym eq)) at, e)),
      ),
    );
    others = λ q (ne_q, _). rw (==-false q c (λ eq. ne_q (sym eq))) refl;
    kept = Kept-update w.heap c st stream at_c;
  },
)
link_last-Linked (suc k) w c (y ∷ ys) stream {new} (_, (st, at_c, (to_y, rest))) ((ne_cy, ni_c), d)
      (ne, ni) at e fuel =
    let (heap', run, l) = link_last-Linked k w y ys stream (refl, rest) d ni at e (omega arith) in
    let not_end : (st.next == null) ≡ false = rw to_y (==-false y null rest.1.ne_null) in
    (
      heap',
      simp (link_last, ◌>>=◌, load-At w at_c, not_end) (rw to_y run),
      record {
        chain = (
          refl,
          (
            st,
            record { ne_null = at_c.ne_null; holds = l.others c (ne_cy, ni_c) ∙ at_c.holds },
            rw to_y l.chain,
          ),
        );
        others = λ q (ne_q, ni_q). l.others q ni_q;
        kept = l.kept;
      },
    )
