-- ===== src/AcceptQueue/Accepting.antt =====
-- Accepting takes the queue from its front (src/yamux_stream.c).
use tiny_yamux.Base.{
  ◌||◌, or_right, ◌≡◌, refl, some, List, ◌∷◌, ◌==◌, if◌then◌else◌, Bool-cases, inl, inr, true,
  false,
}
use tiny_yamux.Protocol.{ok, err_timeout, err_closed}
use tiny_yamux.World.{Ptr, null, Stream, World, the_session, update, ◌>>=◌, ◌>>◌}
use tiny_yamux.World.Laws.{At, load-At, not_null}
use tiny_yamux.AcceptQueue.{take_first, stream_accept}
use tiny_yamux.AcceptQueue.Chain.{Chain, Chain-update}
use tiny_yamux.AcceptQueue.Link.{Kept-update, update_vacant, set_next-At}
use tiny_yamux.AcceptQueue.Fifo.{Enqueued, IsQueue}

-- What taking the stream `p` off leaves.
unfoldable without_first : {C : Type 0} → World C → Ptr → Stream → World C
without_first w p st = record w {
  session = record w.session { accept_queue = st.next };
  heap = update w.heap p (some (record st { next = null }));
}

take_first-At :
    {C : Type 0} (w : World C) {p : Ptr} {st : Stream}
    → At w.heap p st
    → take_first p w ≡ some ((ok, p), without_first w p st)
unfolding take_first without_first
take_first-At w {p} {st} at =
    simp (take_first, ◌>>=◌, ◌>>◌, load-At w at)
      (rw
        (
          ◌>>=◌,
          set_next-At (record w { session = record w.session { accept_queue = st.next } }) null at,
        )
        refl)

without_first-Enqueued :
    {C : Type 0} (w : World C) {p : Ptr} {st : Stream} (q : List Ptr)
    → IsQueue w (p ∷ q)
    → At w.heap p st
    → Chain w.heap st.next q
    → Enqueued w q (without_first w p st)
unfolding without_first
without_first-Enqueued w {p} {st} q iq at ch = record {
  queue = record {
    chain = Chain-update w.heap p _ st.next q ch iq.apart.0;
    apart = iq.apart.1;
    below = iq.below.1;
    started = iq.started;
  };
  kept = Kept-update w.heap p st null at;
  same_session = refl;
  same_sent = refl;
  same_fresh = refl;
  same_grants = refl;
  no_more = λ a e. update_vacant at null a e;
}

-- `yamux_stream_accept` on an open session whose queue is not empty takes its first stream, leaves the
-- others in their order, and changes nothing of the streams but the first one's `next`.
pub accept_takes_first :
    {C : Type 0} (w : World C) (p : Ptr) (q : List Ptr)
    → IsQueue w (p ∷ q)
    → w.session.go_away_received ≡ false
    → (w' : World C) × (stream_accept the_session w ≡ some ((ok, p), w')) × Enqueued w q w'
unfolding stream_accept
accept_takes_first w p q iq opened =
    let (st, at, ch) = iq.chain.1 in
    (
      without_first w p st,
      simp (stream_accept, ◌>>=◌, opened, iq.chain.0, not_null at) (take_first-At w at),
      without_first-Enqueued w q iq at ch,
    )

-- `yamux_stream_accept` on a session that is shut down reports that, and on an open one with an empty
-- queue a timeout; it gives no stream and changes nothing.
pub accept_refuses :
    {C : Type 0} (w : World C)
    → (w.session.go_away_received || w.session.accept_queue == null) ≡ true
    → stream_accept the_session w
      ≡ some ((if w.session.go_away_received then err_closed else err_timeout, null), w)
unfolding stream_accept
accept_refuses w refused = elim (Bool-cases w.session.go_away_received) [
  | inl shut ↦ simp (stream_accept, ◌>>=◌, shut) refl
  | inr opened ↦
      simp
        (
          stream_accept,
          ◌>>=◌,
          opened,
          or_right w.session.go_away_received (w.session.accept_queue == null) opened refused,
        )
        refl
]
