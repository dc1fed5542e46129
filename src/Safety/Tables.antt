-- ===== src/Safety/Tables.antt =====
-- The table's operations in a state in order (src/yamux_stream_utils.c).
use tiny_yamux.Base.{ℕ, ◌≡◌, ◌⊎◌, inl, inr, refl, sym, ap, ◌∙◌, true, false, Bool-cases, ==-self}
use tiny_yamux.Protocol.{ok, err_closed, is_ok}
use tiny_yamux.World.{Ptr, null, Stream, Session, World, the_session, ◌>>=◌, free_stream}
use tiny_yamux.World.Laws.{At, not_null, free_stream-At}
use tiny_yamux.Table.{add_stream, remove_stream}
use tiny_yamux.Table.Lookup.{lookup, slots_of}
use tiny_yamux.Table.Add.{add_stream_lem}
use tiny_yamux.Table.Born.{born}
use tiny_yamux.Table.Freed.{NotIn-fresh}
use tiny_yamux.Table.Remove.{remove_stream_lem}
use tiny_yamux.AcceptQueue.Chain.{NotIn}
use tiny_yamux.Safety.{InOrder}
use tiny_yamux.Safety.Total.{Returns, returns}
use tiny_yamux.Safety.Lists.{freed-InOrder, retabled-InOrder}
use tiny_yamux.Safety.Waiting.{NotWaiting}
use tiny_yamux.Safety.Commands.{InOrderAfter}

-- The streams, and which of them wait, are as they were.
pub record SameStreams {C : Type 0} (w w' : World C) : Type 0 where
  pub same_heap : w'.heap ≡ w.heap
  pub same_queue : w'.session.accept_queue ≡ w.session.accept_queue
  pub in_order : InOrder w'

pub SameStreams-NotWaiting :
    {C : Type 0} {w w' : World C} {p : Ptr} → SameStreams w w' → NotWaiting w p → NotWaiting w' p
SameStreams-NotWaiting same apart q c = apart q (rw (same.same_heap, same.same_queue) at c)

module _ {C : Type 0} {w : World C} (o : InOrder w) where
  -- Either the stream is in the table, or nothing has changed.
  pub add_stream-Returns :
      {p : Ptr} {st : Stream}
      → At w.heap p st
      → Returns
          (add_stream the_session p w)
          (λ r w'. ((is_ok r ≡ true) × SameStreams w w') ⊎ ((is_ok r ≡ false) × (w' ≡ w)))
  unfolding add_stream
  add_stream-Returns {p} {st} at = elim (Bool-cases w.session.go_away_received) [
    | inl shut ↦ returns err_closed w (rw (not_null at, ◌>>=◌, shut) refl) (inr (refl, refl))
    | inr is_open ↦ elim (add_stream_lem w at o.table is_open) [
      | inr (_, e) ↦ returns _ w e (inr (refl, refl))
      | inl (_, inr (e, _, _, _)) ↦ returns _ w e (inr (refl, refl))
      | inl (_, inl (s', e, ins)) ↦ returns ok _ e (
          inl (
            refl,
            record {
              same_heap = refl;
              same_queue = ap {A = Session C} (λ s. s.accept_queue) ins.rest_same;
              in_order = retabled-InOrder o s' ins.table ins.rest_same;
            },
          ))
    ]
  ]

  -- Whether the table has the id or not.
  pub remove_stream-Returns :
      (id : ℕ)
      → Returns
          (remove_stream the_session id w)
          (λ _ w'. SameStreams w w' × (lookup w'.heap (slots_of w'.session) id ≡ null))
  remove_stream-Returns id = elim (remove_stream_lem w id o.table) [
    | inr (gone, e) ↦
        returns _ w e (record { same_heap = refl; same_queue = refl; in_order = o }, gone)
    | inl (_, (s', e, u)) ↦ returns ok _ e (
      record {
        same_heap = refl;
        same_queue = ap {A = Session C} (λ s. s.accept_queue) u.rest_same;
        in_order = retabled-InOrder o s' u.table (rest s' u.rest_same);
      },
      u.found id ∙ rw (==-self id) refl,
    )
  ]
    where
      rest :
          (s' : Session C)
          → s' ≡ record w.session { streams = s'.streams; stream_count = s'.stream_count }
          → s' ≡ record w.session {
            streams = s'.streams;
            stream_count = s'.stream_count;
            stream_capacity = s'.stream_capacity;
          }
      rest s' same =
          same
          ∙ ap
              (λ n. record w.session {
                streams = s'.streams;
                stream_count = s'.stream_count;
                stream_capacity = n;
              })
              (sym (ap {A = Session C} (λ s. s.stream_capacity) same))

  pub free_stream-Returns :
      {p : Ptr} {st : Stream}
      → At w.heap p st
      → NotIn p (slots_of w.session)
      → NotWaiting w p
      → Returns (free_stream p w) InOrderAfter
  free_stream-Returns at gone apart =
      returns tt _ (free_stream-At w at) (freed-InOrder o at gone apart)

  -- A new stream is neither in the table nor in the queue.
  pub born-NotIn : (st : Stream) → NotIn w.fresh (slots_of (born w st).session)
  unfolding born
  born-NotIn st = NotIn-fresh w.fresh (slots_of w.session) o.queue.started o.below o.table.live
