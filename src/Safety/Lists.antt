-- ===== src/Safety/Lists.antt =====
-- Streams that come, go and queue up, and the session's own fields, in a state in order
-- (src/yamux_internal.h).
use tiny_yamux.Base.{
  ℕ, ◌<◌, ◌≡◌, inl, inr, refl, sym, arith, Bool, none, some, List, length, eq_of_some, Option-cases,
}
use mathlib.Core.Path.{subst}
use tiny_yamux.World.{Ptr, null, Stream, Session, World, update}
use tiny_yamux.World.Laws.{At}
use tiny_yamux.World.Calls.{replaced}
use tiny_yamux.Table.Lookup.{IsTable-same, IsTable, slots_of}
use tiny_yamux.Table.Born.{born, born-IsTable}
use tiny_yamux.Table.Freed.{IsTable-freed}
use tiny_yamux.AcceptQueue.Chain.{NotIn, Chain-update}
use tiny_yamux.AcceptQueue.Fifo.{IsQueue-same}
use tiny_yamux.Handlers.RecvBuf.{rebuffered}
use tiny_yamux.Handlers.WindowUpdate.Syn.{NotIn-Below, Below-suc}
use tiny_yamux.Safety.{IsSound, InOrder}
use tiny_yamux.Safety.Keeps.{At-of_update, Chain-replaced}
use tiny_yamux.Safety.Waiting.{NotWaiting, Chain-NotIn}

module _ {C : Type 0} {w : World C} (o : InOrder w) where
  pub vacant : w.heap w.fresh ≡ none
  vacant = elim (Option-cases (w.heap w.fresh)) [
    | inl e ↦ e
    | inr (st, e) ↦ absurd (
        taken (o.below w.fresh st (record { ne_null = λ z. started z o.queue.started; holds = e })))
  ]
    where
      taken : ¬ (w.fresh < w.fresh)
      taken h = omega arith

      started : w.fresh ≡ null → ¬ (0 < w.fresh)
      started e h = omega arith

  -- Replacing a stream moves nothing in the queue.
  pub replaced-NotWaiting :
      {p : Ptr} {st : Stream} (new : Stream) (a : Ptr)
      → At w.heap p st
      → new.next ≡ st.next
      → NotWaiting w a
      → NotWaiting (replaced w p new) a
  unfolding replaced
  replaced-NotWaiting {p} new a at same apart q c =
      Chain-NotIn (update w.heap p (some new)) w.session.accept_queue a o.waiting q
        (Chain-replaced new w.session.accept_queue o.waiting at same o.queue.chain) c
        (apart o.waiting o.queue.chain)

  -- A new stream, not in the table.
  pub born-InOrder : (st : Stream) → IsSound st → InOrder (born w st)
  unfolding born
  born-InOrder st ok = record {
    reader = o.reader;
    allocator = o.allocator;
    table = born-IsTable w o.table vacant o.queue.started st;
    waiting = o.waiting;
    queue = record {
      chain =
          Chain-update w.heap w.fresh (some st) w.session.accept_queue o.waiting o.queue.chain
            (NotIn-Below w.fresh o.waiting o.queue.below);
      apart = o.queue.apart;
      below = Below-suc w.fresh o.waiting o.queue.below;
      started = omega arith;
    };
    below = λ q st' at'. elim (At-of_update at') [
      | inl (e, _) ↦ omega arith
      | inr (_, old) ↦ omega (arith, o.below q st' old)
    ];
    sound = λ q st' at'. elim (At-of_update at') [
      | inl (_, e) ↦ subst (λ s. IsSound s) (eq_of_some e) ok
      | inr (_, old) ↦ o.sound q st' old
    ];
    recv_buf = o.recv_buf;
    window_fits = o.window_fits;
  }

  pub born-NotWaiting : (st : Stream) → NotWaiting (born w st) w.fresh
  unfolding born
  born-NotWaiting st q c =
      let apart = NotIn-Below w.fresh o.waiting o.queue.below in
      Chain-NotIn (update w.heap w.fresh (some st)) w.session.accept_queue w.fresh o.waiting q
        (Chain-update w.heap w.fresh (some st) w.session.accept_queue o.waiting o.queue.chain apart)
        c apart

  -- A stream is freed that is neither in the table nor in the queue.
  pub freed-InOrder :
      {p : Ptr} {st : Stream}
      → At w.heap p st
      → NotIn p (slots_of w.session)
      → NotWaiting w p
      → InOrder (record w { heap = update w.heap p none })
  freed-InOrder {p} at gone unqueued = record {
    reader = o.reader;
    allocator = o.allocator;
    table = IsTable-freed w.heap p w.session gone o.table;
    waiting = o.waiting;
    queue = record {
      chain =
          Chain-update w.heap p none w.session.accept_queue o.waiting o.queue.chain
            (unqueued o.waiting o.queue.chain);
      apart = o.queue.apart;
      below = o.queue.below;
      started = o.queue.started;
    };
    below = λ q st' at'. elim (At-of_update at') [
      | inl (_, e) ↦ absurd (nothing e)
      | inr (_, old) ↦ o.below q st' old
    ];
    sound = λ q st' at'. elim (At-of_update at') [
      | inl (_, e) ↦ absurd (nothing e)
      | inr (_, old) ↦ o.sound q st' old
    ];
    recv_buf = o.recv_buf;
    window_fits = o.window_fits;
  }
    where
      nothing : {s : Stream} → ¬ (none ≡ some s)
      nothing e = cc

  retabled :
      (streams : List Ptr) (count capacity : ℕ)
      → IsTable w.heap
          (record w.session { streams = streams; stream_count = count; stream_capacity = capacity })
      → InOrder (record w {
        session = record w.session {
          streams = streams;
          stream_count = count;
          stream_capacity = capacity;
        };
      })
  retabled streams count capacity t = record {
    reader = o.reader;
    allocator = o.allocator;
    table = t;
    waiting = o.waiting;
    queue = IsQueue-same refl refl refl o.queue;
    below = o.below;
    sound = o.sound;
    recv_buf = record { is_sized = o.recv_buf.is_sized };
    window_fits = o.window_fits;
  }

  -- The session with another table.
  pub retabled-InOrder :
      (s' : Session C)
      → IsTable w.heap s'
      → s' ≡ record w.session {
        streams = s'.streams;
        stream_count = s'.stream_count;
        stream_capacity = s'.stream_capacity;
      }
      → InOrder (record w { session = s' })
  retabled-InOrder s' t same =
      subst (λ s. InOrder (record w { session = s })) (sym same)
        (retabled s'.streams s'.stream_count s'.stream_capacity
          (subst (λ s. IsTable w.heap s) same t))

  -- Another receive buffer, of the size noted.
  pub rebuffered-InOrder :
      (block : List ℕ) (size : ℕ) → length block ≡ size → InOrder (rebuffered w block size)
  unfolding rebuffered
  rebuffered-InOrder block size sized = record {
    reader = o.reader;
    allocator = o.allocator;
    table = IsTable-same refl refl refl o.table;
    waiting = o.waiting;
    queue = IsQueue-same refl refl refl o.queue;
    below = o.below;
    sound = o.sound;
    recv_buf = record { is_sized = inr (block, refl, sized) };
    window_fits = o.window_fits;
  }

  -- Fields that nothing else depends on.
  pub renoted-InOrder :
      (shut : Bool) (next_id : ℕ)
      → InOrder (record w {
        session = record w.session { go_away_received = shut; next_stream_id = next_id };
      })
  renoted-InOrder shut next_id = record {
    reader = o.reader;
    allocator = o.allocator;
    table = IsTable-same refl refl refl o.table;
    waiting = o.waiting;
    queue = IsQueue-same refl refl refl o.queue;
    below = o.below;
    sound = o.sound;
    recv_buf = record { is_sized = o.recv_buf.is_sized };
    window_fits = o.window_fits;
  }
