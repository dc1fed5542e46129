-- ===== src/AcceptQueue/Orders.antt =====
-- The order in which streams come out of the accept queue (src/yamux_stream_utils.c,
-- src/yamux_stream.c).
use tiny_yamux.Base.{
  ℕ, zero, suc, ◌<◌, ◌≡◌, ◌≢◌, refl, ap, ◌∙◌, false, some, List, [], ◌∷◌, length, if◌then◌else◌,
  ==-false,
}
use tiny_yamux.Protocol.{ok, is_ok}
use tiny_yamux.World.{Ptr, null, Stream, Session, World, the_session, M, pure, update, ◌>>=◌, ◌>>◌}
use tiny_yamux.World.Laws.{At, At-update, not_null}
use tiny_yamux.AcceptQueue.{enqueue_stream, stream_accept}
use tiny_yamux.AcceptQueue.Chain.{NotIn, Chain-update}
use tiny_yamux.AcceptQueue.Link.{Kept-update, update_vacant, set_next-At}
use tiny_yamux.AcceptQueue.Fifo.{IsQueue, Enqueued}
use tiny_yamux.AcceptQueue.Accepting.{accept_takes_first, accept_refuses}

-- `yamux_enqueue_stream` of a stream that is there and not yet queued, on an open session with a
-- backlog that is not 0, succeeds and puts it at the head of the queue, before all that wait. Each
-- stream keeps all its fields but `next`, and nothing is sent.
pub enqueue_pushes :
    {C : Type 0} (w : World C) (q : List Ptr) {p : Ptr} {st : Stream}
    → IsQueue w q
    → At w.heap p st
    → p < w.fresh
    → NotIn p q
    → w.session.go_away_received ≡ false
    → w.session.config.accept_backlog ≢ 0
    → (w' : World C) × (enqueue_stream the_session p w ≡ some (ok, w')) × Enqueued w (p ∷ q) w'
unfolding enqueue_stream
enqueue_pushes w q {p} {st} iq at lt ni is_open backlog = (
  record w {
    session = record w.session { accept_queue = p };
    heap = update w.heap p (some (record st { next = w.session.accept_queue }));
  },
  simp
      (
        enqueue_stream,
        not_null at,
        ◌>>=◌,
        ◌>>◌,
        is_open,
        ==-false w.session.config.accept_backlog 0 backlog,
        set_next-At w w.session.accept_queue at,
      )
      refl,
  record {
    queue = record {
      chain = (
        refl,
        (
          _,
          At-update w.heap p _ at.ne_null,
          Chain-update w.heap p _ w.session.accept_queue q iq.chain ni,
        ),
      );
      apart = (ni, iq.apart);
      below = (lt, iq.below);
      started = iq.started;
    };
    kept = Kept-update w.heap p st w.session.accept_queue at;
    same_session = refl;
    same_sent = refl;
    same_fresh = refl;
    same_grants = refl;
    no_more = λ a e. update_vacant at w.session.accept_queue a e;
  },
)

-- A server that accepts until there is nothing left, at most `n` times.
unfoldable pub accept_all : {C : Type 0} → (n : ℕ) → M C (List Ptr)
accept_all zero = pure []
accept_all (suc n) =
    let rest = accept_all n in
    do
      (result, p) ← stream_accept the_session
      if is_ok result then (do later ← rest; pure (p ∷ later)) else pure []

-- On an open session, as many accepts as there are streams waiting, and one more, give all of them in
-- the order in which they wait, and leave the queue empty: no stream waits for ever.
pub accept_all-queue :
    {C : Type 0} (w : World C) (q : List Ptr)
    → IsQueue w q
    → w.session.go_away_received ≡ false
    → (w' : World C) × (accept_all (suc (length q)) w ≡ some (q, w'))
      × (w'.session.accept_queue ≡ null)
unfolding accept_all
accept_all-queue w [] iq is_open = (
  w,
  rw (accept_all, ◌>>=◌, accept_refuses w (rw (is_open, iq.chain) refl), is_open) refl,
  iq.chain,
)
accept_all-queue w (p ∷ q) iq is_open =
    let (w₁, run, enq) = accept_takes_first w p q iq is_open in
    let open₁ : w₁.session.go_away_received ≡ false =
      ap {A = Session _} (λ s. s.go_away_received) enq.same_session ∙ is_open in
    let (w₂, rest, empty) = accept_all-queue w₁ q enq.queue open₁ in
    (w₂, rw (accept_all, ◌>>=◌, run, rest) refl, empty)
