-- ===== src/Safety/Queueing.antt =====
-- A stream that joins or leaves the accept queue, in a state in order (src/yamux_internal.h).
use tiny_yamux.Base.{◌≡◌, inl, inr, refl, sym, ◌∙◌, none, some, List, eq_of_some, Option-cases}
use mathlib.Core.Path.{subst}
use tiny_yamux.World.{Ptr, Stream, World}
use tiny_yamux.World.Laws.{At}
use tiny_yamux.Table.Lookup.{IsTable-same, IsTable}
use tiny_yamux.Table.SameIds.{IsTable-SameIds}
use tiny_yamux.AcceptQueue.Fifo.{Enqueued}
use tiny_yamux.Safety.{IsSound, InOrder}

module _ {C : Type 0} {w : World C} (o : InOrder w) {w' : World C} {q : List Ptr}
    (enq : Enqueued w q w') where
  -- A stream after the change was there before, but for its `next`.
  earlier :
      (p : Ptr) (st' : Stream)
      → At w'.heap p st'
      → (st : Stream) × At w.heap p st × (n : Ptr) × (st' ≡ record st { next = n })
  earlier p st' at' = elim (Option-cases (w.heap p)) [
    | inl e ↦ absurd (nothing (enq.no_more p e) at'.holds)
    | inr (st, e) ↦
        let at : At w.heap p st = record { ne_null = at'.ne_null; holds = e } in
        let (n, at₂) = enq.kept p st at in (st, at, n, eq_of_some (sym at'.holds ∙ at₂.holds))
  ]
    where
      nothing : w'.heap p ≡ none → ¬ (w'.heap p ≡ some st')
      nothing e e' = cc

  kept_ids :
      (p : Ptr) (st : Stream)
      → At w.heap p st
      → (st' : Stream) × At w'.heap p st' × (st'.id ≡ st.id)
  kept_ids p st at = let (n, at') = enq.kept p st at in (record st { next = n }, at', refl)

  requeued : (first : Ptr) → w'.session ≡ record w.session { accept_queue = first } → InOrder w'
  requeued first same = record {
    reader = rw same o.reader;
    allocator = rw enq.same_grants o.allocator;
    table = IsTable-SameIds w.heap w'.heap kept_ids w'.session (rw same requeued_table);
    waiting = q;
    queue = enq.queue;
    below =
        λ p st' at'. let (st, at, _, _) = earlier p st' at' in rw enq.same_fresh (o.below p st at);
    sound = λ p st' at'.
        let (st, at, n, e) = earlier p st' at' in
        let ok = o.sound p st at in
        subst (λ s. IsSound s) (sym e)
          (record { buffer = ok.buffer; send_fits = ok.send_fits; recv_fits = ok.recv_fits });
    recv_buf = rw same (record { is_sized = o.recv_buf.is_sized });
    window_fits = rw same o.window_fits;
  }
    where
      requeued_table : IsTable w.heap (record w.session { accept_queue = first })
      requeued_table = IsTable-same refl refl refl o.table

  pub enqueued-InOrder : InOrder w'
  enqueued-InOrder = requeued w'.session.accept_queue enq.same_session
