-- ===== src/AcceptQueue/Fifo.antt =====
-- The accept queue is first in, first out (src/yamux_stream_utils.c, src/yamux_stream.c).
use tiny_yamux.Base.{
  ℕ, ◌<◌, ◌≡◌, ◌≢◌, refl, sym, arith, ◌∙◌, none, some, List, [], ◌∷◌, ◌++◌, ==_iff,
}
use tiny_yamux.Protocol.{ok}
use tiny_yamux.World.{Ptr, null, Stream, World, the_session, update, ◌>>=◌, ◌>>◌}
use tiny_yamux.World.Laws.{At, At-update, not_null}
use tiny_yamux.AcceptQueue.{enqueue_stream_for_accept}
use tiny_yamux.AcceptQueue.Chain.{
  NotIn, Apart, Below, Chain, Chain-update, Chain-vacant, length-Chain,
}
use tiny_yamux.AcceptQueue.Link.{Kept, Kept-update, update_vacant, link_last-Linked, set_next-At}

-- The session's queue holds the streams at `q`, in this order.
pub record IsQueue {C : Type 0} (w : World C) (q : List Ptr) : Type 0 where
  pub chain : Chain w.heap w.session.accept_queue q
  pub apart : Apart q
  pub below : Below w.fresh q
  pub started : 0 < w.fresh

-- The queue is in these fields.
pub IsQueue-same :
    {C : Type 0} {w w' : World C} {q : List Ptr}
    → w'.heap ≡ w.heap
    → w'.session.accept_queue ≡ w.session.accept_queue
    → w'.fresh ≡ w.fresh
    → IsQueue w q
    → IsQueue w' q
IsQueue-same heap first fresh iq = record {
  chain = rw (heap, first) iq.chain;
  apart = iq.apart;
  below = rw fresh iq.below;
  started = rw fresh iq.started;
}

Apart-append : (xs : List ℕ) (a : ℕ) → Apart xs → NotIn a xs → Apart (xs ++ (a ∷ []))
Apart-append [] a d n = (tt, tt)
Apart-append (x ∷ xs) a (ni, d) (ne, n) =
    (NotIn-append xs ni (λ e. ne (sym e)), Apart-append xs a d n)
  where
    NotIn-append : (ys : List ℕ) → NotIn x ys → a ≢ x → NotIn x (ys ++ (a ∷ []))
    NotIn-append [] ni' ne' = (ne', tt)
    NotIn-append (y ∷ ys) (h, ni') ne' = (h, NotIn-append ys ni' ne')

Below-append : (n : ℕ) (xs : List ℕ) (a : ℕ) → Below n xs → a < n → Below n (xs ++ (a ∷ []))
Below-append n [] a b h = (h, tt)
Below-append n (x ∷ xs) a (lt, b) h = (lt, Below-append n xs a b h)

-- What an enqueueing of `stream` leaves.
pub record Enqueued {C : Type 0} (w : World C) (q : List Ptr) (w' : World C) : Type 0 where
  pub queue : IsQueue w' q
  pub kept : Kept w.heap w'.heap
  pub same_session : w'.session ≡ record w.session { accept_queue = w'.session.accept_queue }
  pub same_sent : w'.sent ≡ w.sent
  pub same_fresh : w'.fresh ≡ w.fresh
  pub same_grants : w'.grants ≡ w.grants
  pub no_more : (a : Ptr) → w.heap a ≡ none → w'.heap a ≡ none

-- `yamux_enqueue_stream_for_accept` of a stream that is there and not yet queued succeeds and puts it
-- at the end of the queue. Each stream keeps all its fields but `next`, and nothing is sent.
pub enqueue_appends :
    {C : Type 0} (w : World C) (q : List Ptr) {p : Ptr} {st : Stream}
    → IsQueue w q
    → At w.heap p st
    → p < w.fresh
    → NotIn p q
    → (w' : World C) × (enqueue_stream_for_accept the_session p w ≡ some (ok, w'))
      × Enqueued w (q ++ (p ∷ [])) w'
unfolding enqueue_stream_for_accept
enqueue_appends w [] {p} {st} iq at lt ni = (
  record w {
    session = record w.session { accept_queue = p };
    heap = update w.heap p (some (record st { next = null }));
  },
  simp
      (
        enqueue_stream_for_accept,
        not_null at,
        ◌>>=◌,
        ◌>>◌,
        set_next-At w null at,
        (==_iff _ _).1 iq.chain,
      )
      refl,
  record {
    queue = record {
      chain = (refl, (_, At-update w.heap p _ at.ne_null, refl));
      apart = (tt, tt);
      below = (lt, tt);
      started = iq.started;
    };
    kept = Kept-update w.heap p st null at;
    same_session = refl;
    same_sent = refl;
    same_fresh = refl;
    same_grants = refl;
    no_more = λ a e. update_vacant at null a e;
  },
)
enqueue_appends w (x ∷ xs) {p} {st} iq at lt (ne, ni) =
    let heap₁ = update w.heap p (some (record st { next = null })) in
    let ch : Chain heap₁ x (x ∷ xs) =
      (refl, (Chain-update w.heap p _ w.session.accept_queue (x ∷ xs) iq.chain (ne, ni)).1) in
    let short =
      length-Chain w.heap w.fresh w.session.accept_queue (x ∷ xs) iq.chain iq.apart iq.below
        iq.started in
    let (heap', run, l) =
      link_last-Linked w.fresh (record w { heap = heap₁ }) x xs p ch iq.apart (ne, ni)
        (At-update w.heap p _ at.ne_null) refl (omega (arith, short)) in
    (
      record w { heap = heap' },
      simp
          (
            enqueue_stream_for_accept,
            not_null at,
            ◌>>=◌,
            ◌>>◌,
            set_next-At w null at,
            iq.chain.0,
            not_null iq.chain.1.1,
            run,
          )
          refl,
      record {
        queue = record {
          chain = (iq.chain.0, l.chain.1);
          apart = Apart-append (x ∷ xs) p iq.apart (ne, ni);
          below = Below-append w.fresh (x ∷ xs) p iq.below lt;
          started = iq.started;
        };
        kept = λ q' st' at'. l.kept q' _ (Kept-update w.heap p st null at q' st' at').1;
        same_session = refl;
        same_sent = refl;
        same_fresh = refl;
        same_grants = refl;
        no_more = λ a e.
            let e₁ = update_vacant at null a e in
            l.others a (Chain-vacant heap₁ a x (x ∷ xs) e₁ ch) ∙ e₁;
      },
    )
