-- ===== src/Safety/Keeps.antt =====
-- The changes to the state that keep it in order (src/yamux_internal.h).
use tiny_yamux.AcceptQueue.Fifo.{IsQueue-same}
use tiny_yamux.Base.{
  refl, ℕ, ◌≡◌, ◌≢◌, ◌⊎◌, inl, inr, sym, ap, ◌∙◌, Option, some, List, [], ◌∷◌, ◌==◌, Bool-cases,
  ==_iff, eq_of_some,
}
use mathlib.Core.Path.{subst}
use mathlib.Core.Bool.{false≢true}
use tiny_yamux.World.{Ptr, Stream, World, update}
use tiny_yamux.World.Laws.{At, At-update, At-update_ne}
use tiny_yamux.World.Calls.{replaced, after_read, sent_world}
use tiny_yamux.Table.Lookup.{Heap}
use tiny_yamux.Table.SameIds.{replace-SameIds, IsTable-SameIds}
use tiny_yamux.AcceptQueue.Chain.{Chain}
use tiny_yamux.Safety.{IsSound, InOrder}

-- What the callbacks change.
pub after_read-InOrder : {C : Type 0} {w : World C} (n : ℕ) → InOrder w → InOrder (after_read w n)
unfolding after_read
after_read-InOrder n o = record {
  reader = o.reader;
  allocator = o.allocator;
  table = o.table;
  waiting = o.waiting;
  queue = IsQueue-same refl refl refl o.queue;
  below = o.below;
  sound = o.sound;
  recv_buf = o.recv_buf;
  window_fits = o.window_fits;
}

pub sent_world-InOrder :
    {C : Type 0} {w : World C} (bytes : List ℕ) → InOrder w → InOrder (sent_world w bytes)
unfolding sent_world
sent_world-InOrder bytes o = record {
  reader = o.reader;
  allocator = o.allocator;
  table = o.table;
  waiting = o.waiting;
  queue = IsQueue-same refl refl refl o.queue;
  below = o.below;
  sound = o.sound;
  recv_buf = o.recv_buf;
  window_fits = o.window_fits;
}

-- What an updated heap holds at an address.
pub At-of_update :
    {heap : Heap} {p q : Ptr} {c : Option Stream} {st : Stream}
    → At (update heap p c) q st
    → ((q ≡ p) × (c ≡ some st)) ⊎ ((q ≢ p) × At heap q st)
At-of_update {heap} {p} {q} {c} {st} at = elim (Bool-cases (q == p)) [
  | inl same ↦ inl ((==_iff q p).0 same, rw same at at.holds)
  | inr other ↦ inr (
    λ e. false≢true (sym other ∙ (==_iff q p).1 e),
    record { ne_null = at.ne_null; holds = rw other at at.holds },
  )
]

-- The chain runs through a stream whose `next` stays.
pub Chain-replaced :
    {heap : Heap} {p : Ptr} {st : Stream} (new : Stream) (first : Ptr) (xs : List Ptr)
    → At heap p st
    → new.next ≡ st.next
    → Chain heap first xs
    → Chain (update heap p (some new)) first xs
Chain-replaced new first [] at same c = c
Chain-replaced {heap} {p} {st} new first (x ∷ xs) at same (e, (st', at', c)) =
    elim (Bool-cases (x == p)) [
      | inl hit ↦ (
        e,
        (
          new,
          rw ((==_iff x p).0 hit) (At-update heap p new at.ne_null),
          rw (same ∙ ap (λ s. s.next) (unique ((==_iff x p).0 hit)))
              (Chain-replaced new st'.next xs at same c),
        ),
      )
      | inr miss ↦ (
        e,
        (
          st',
          At-update_ne p _ (λ eq. false≢true (sym miss ∙ (==_iff x p).1 eq)) at',
          Chain-replaced new st'.next xs at same c,
        ),
      )
    ]
  where
    unique : x ≡ p → st ≡ st'
    unique eq = eq_of_some (sym at.holds ∙ ap heap (sym eq) ∙ at'.holds)

-- A stream is replaced by one with the same id and the same `next`.
pub replaced-InOrder :
    {C : Type 0} {w : World C} {p : Ptr} {st : Stream} (new : Stream)
    → InOrder w
    → At w.heap p st
    → new.id ≡ st.id
    → new.next ≡ st.next
    → IsSound new
    → InOrder (replaced w p new)
unfolding replaced
replaced-InOrder {w} {p} {st} new o at same_id same_next ok = record {
  reader = o.reader;
  allocator = o.allocator;
  table =
      IsTable-SameIds w.heap (update w.heap p (some new)) (replace-SameIds w.heap new at same_id)
        w.session o.table;
  waiting = o.waiting;
  queue = record {
    chain = Chain-replaced new w.session.accept_queue o.waiting at same_next o.queue.chain;
    apart = o.queue.apart;
    below = o.queue.below;
    started = o.queue.started;
  };
  below = λ q st' at'. elim (At-of_update at') [
    | inl (e, _) ↦ rw e (o.below p st at)
    | inr (_, old) ↦ o.below q st' old
  ];
  sound = λ q st' at'. elim (At-of_update at') [
    | inl (_, e) ↦ subst (λ s. IsSound s) (eq_of_some e) ok
    | inr (_, old) ↦ o.sound q st' old
  ];
  recv_buf = o.recv_buf;
  window_fits = o.window_fits;
}
