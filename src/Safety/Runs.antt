-- ===== src/Safety/Runs.antt =====
-- Runs of calls, by the application and for the peer's frames, in any order (src/yamux_session.c,
-- src/yamux_stream.c, src/yamux_stream_ext.c).
use tiny_yamux.Base.{
  ℕ, ◌^◌, ◌<◌, ◌≤◌, ◌≡◌, inl, refl, sym, ap, ◌∙◌, eq_of_some, arith, Option, Bool, true, none, some,
  List, [], length, replicate,
}
use mathlib.Core.Path.{subst}
use tiny_yamux.Protocol.{ok, Config}
use tiny_yamux.World.{
  with_allocator, Io, Ptr, Stream, Purpose, Session, World, the_session, M, pure, ◌>>=◌,
}
use tiny_yamux.World.Laws.{At}
use tiny_yamux.AcceptQueue.{stream_accept}
use tiny_yamux.AcceptQueue.Fifo.{IsQueue-same}
use tiny_yamux.Streams.{stream_open_detailed, stream_close, stream_update_window}
use tiny_yamux.Streams.Transfer.{stream_read, stream_write}
use tiny_yamux.Session.{default_config, fresh_session, session_create, session_process}
use tiny_yamux.Safety.{IsReader, IsAllocator, InOrder}
use tiny_yamux.Safety.Total.{Returns, returns, Returns-pure, Returns-bind}
use tiny_yamux.Safety.Commands.{InOrderAfter}
use tiny_yamux.Safety.Waiting.{NotWaiting}
use tiny_yamux.Safety.Opens.{stream_open-InOrder, stream_accept-InOrder}
use tiny_yamux.Safety.Process.{NextServable, session_process-InOrder}
use tiny_yamux.Safety.Transfers.{stream_read-InOrder}
use tiny_yamux.Safety.Writes.{stream_write-InOrder, stream_update_window-InOrder}
use tiny_yamux.Safety.Closing.{stream_close-InOrder}

-- A call of the library, with the arguments that it takes.
pub data Call : Type 0 where
  opens : (stream_id : ℕ) → Call
  accepts processes : Call
  reads : Ptr → (len : ℕ) → Call
  writes : Ptr → (buf : List ℕ) → (len : ℕ) → Call
  closes : Ptr → (reset : Bool) → Call
  widens : Ptr → (increment : ℕ) → Call

abbrev quietly : {C A : Type 0} → M C A → M C (Unit {0})
quietly m = do _ ← m; pure tt

-- The call, whatever it gives back.
unfoldable pub perform : {C : Type 0} → Call → M C (Unit {0})
perform (opens stream_id) = quietly (stream_open_detailed the_session stream_id)
perform accepts = quietly (stream_accept the_session)
perform processes = quietly (session_process the_session)
perform (reads p len) = quietly (stream_read p len)
perform (writes p buf len) = quietly (stream_write p (some buf) len)
perform (closes p reset) = quietly (stream_close p reset)
perform (widens p increment) = quietly (stream_update_window p increment)

-- What the application owes: the stream is there, the array holds what is to be written, and a stream
-- that is reset does not wait to be accepted; and the peer: its next frame is servable.
abbrev pub Allowed : {C : Type 0} → World C → Call → Type 0
Allowed w (opens stream_id) = Unit {0}
Allowed w accepts = Unit {0}
Allowed w processes = NextServable w
Allowed w (reads p len) = (st : Stream) × At w.heap p st
Allowed w (writes p buf len) =
    ((st : Stream) × At w.heap p st) × (len ≤ length buf) × (len < 2 ^ 64)
Allowed w (closes p reset) = ((st : Stream) × At w.heap p st) × (reset ≡ true → NotWaiting w p)
Allowed w (widens p increment) = (st : Stream) × At w.heap p st

with_allocator-InOrder :
    {C : Type 0} {w : World C} {grants : Purpose → ℕ → Bool}
    → InOrder w
    → IsAllocator grants
    → InOrder (with_allocator w grants)
with_allocator-InOrder o allocator = record {
  reader = o.reader;
  allocator = allocator;
  table = o.table;
  waiting = o.waiting;
  queue = IsQueue-same refl refl refl o.queue;
  below = o.below;
  sound = o.sound;
  recv_buf = o.recv_buf;
  window_fits = o.window_fits;
}

-- The worlds that calls lead to. Each call finds an allocator of its own, which may refuse what another
-- call was given.
pub data Reach {C : Type 0} (w : World C) : World C → Type 0 where
  here : Reach w w
  next :
      {u v : World C}
      → Reach w u
      → (grants : Purpose → ℕ → Bool) → IsAllocator grants
      → (call : Call) → Allowed (with_allocator u grants) call
      → perform call (with_allocator u grants) ≡ some (tt, v)
      → Reach w v

quietly-InOrder :
    {C A : Type 0} {o : Option (A × World C)}
    → Returns o InOrderAfter
    → Returns {C = C} {A = Unit {0}}
        (elim o [ none ↦ none | some (_, w) ↦ some (tt, w) ])
        InOrderAfter
quietly-InOrder r = Returns-bind r λ _ w' o. Returns-pure o

perform-Returns :
    {C : Type 0} {w : World C}
    → InOrder w
    → (call : Call) → Allowed w call
    → Returns (perform call w) InOrderAfter
unfolding perform
perform-Returns o (opens stream_id) _ = quietly-InOrder (stream_open-InOrder o stream_id)
perform-Returns o accepts _ = quietly-InOrder (stream_accept-InOrder o)
perform-Returns o processes servable = quietly-InOrder (session_process-InOrder o servable)
perform-Returns o (reads p len) (st, at) = quietly-InOrder (stream_read-InOrder o at len)
perform-Returns o (writes p buf len) ((st, at), inb, small) =
    quietly-InOrder (stream_write-InOrder o at buf len inb small)
perform-Returns o (closes p reset) ((st, at), apart) =
    quietly-InOrder (stream_close-InOrder o at reset apart)
perform-Returns o (widens p increment) (st, at) =
    quietly-InOrder (stream_update_window-InOrder o at increment)

-- Every call that a session in order allows returns, and leaves the session in order: opening,
-- accepting, closing, resetting, reading, writing and widening a stream, and processing a frame, with
-- whatever the callbacks give and whatever the allocator refuses.
pub perform-InOrder :
    {C : Type 0} {w : World C} (call : Call)
    → InOrder w
    → Allowed w call
    → (w' : World C) × (perform call w ≡ some (tt, w')) × InOrder w'
perform-InOrder call o allowed = returned_world (perform-Returns o call allowed)
  where
    returned_world :
        {C : Type 0} {out : Option (Unit {0} × World C)}
        → Returns out InOrderAfter
        → (w' : World C) × (out ≡ some (tt, w')) × InOrder w'
    returned_world (returns tt w' e o) = (w', e, o)

-- From a session in order, every run of allowed calls leads to a session in order, whatever the
-- allocator of each call gives and refuses.
pub Reach-InOrder : {C : Type 0} {w u : World C} → InOrder w → Reach w u → InOrder u
Reach-InOrder o here = o
Reach-InOrder o (next {u} r grants allocator call allowed e) =
    let (w', e', o') =
      perform-InOrder call (with_allocator-InOrder (Reach-InOrder o r) allocator) allowed in
    subst (λ v. InOrder v) (ap (λ p. p.1) (eq_of_some (sym e' ∙ e))) o'

-- The library's state once `session` has been created, with no stream yet.
abbrev pub started : {C : Type 0} → (grants : Purpose → ℕ → Bool) → Session C → (ctx : C) → World C
started grants session ctx = record {
  session = session;
  heap = λ _. none;
  fresh = 1;
  grants = grants;
  ctx = ctx;
  sent = [];
}

-- The window of a configuration is 32 bits wide.
abbrev pub IsConfig : Option Config → Type 0
IsConfig none = Unit {0}
IsConfig (some config) = config.max_stream_window_size < 2 ^ 32

fresh_session-InOrder :
    {C : Type 0} (grants : Purpose → ℕ → Bool) (io : Io C) (client : Bool) (config : Config)
    (ctx : C)
    → IsReader io
    → IsAllocator grants
    → config.max_stream_window_size < 2 ^ 32
    → InOrder (started grants (fresh_session io client config) ctx)
unfolding fresh_session replicate
fresh_session-InOrder grants io client config ctx reader allocator small = record {
  reader = reader;
  allocator = allocator;
  table = record {
    live = tt;
    distinct = tt;
    room = omega arith;
    sized = refl;
    some_room = omega arith;
  };
  waiting = [];
  queue = record { chain = refl; apart = tt; below = tt; started = omega arith };
  below = λ p st at. absurd (nothing at.holds);
  sound = λ p st at. absurd (nothing at.holds);
  recv_buf = record { is_sized = inl (refl, refl) };
  window_fits = small;
}
  where
    nothing : {s : Stream} → ¬ (none ≡ some s)
    nothing e = cc

-- A session that `yamux_session_create` has made is in order.
pub created-InOrder :
    {C : Type 0} (memory : ℕ → Bool) (grants : Purpose → ℕ → Bool) (io : Io C) (client : Bool)
    (config : Option Config) {s : Session C} (ctx : C)
    → IsReader io
    → IsAllocator grants
    → IsConfig config
    → session_create memory (some io) client config ≡ (ok, some s)
    → InOrder (started grants s ctx)
unfolding session_create
created-InOrder memory grants io client none ctx reader allocator small made =
    subst (λ s. InOrder (started grants s ctx)) (grind arith)
      (fresh_session-InOrder grants io client default_config ctx reader allocator (omega arith))
created-InOrder memory grants io client (some config) ctx reader allocator small made =
    subst (λ s. InOrder (started grants s ctx)) (grind arith)
      (fresh_session-InOrder grants io client config ctx reader allocator small)

-- After `yamux_session_create` and any run of allowed calls, the next allowed call returns: no call
-- leaves the behaviour that C defines. The callback `read` gives bytes, at most as many as it is asked
-- for, and the configured window has 32 bits. Each call has an allocator of its own, that gives no
-- block of 2^63 bytes; what these give and refuse is free otherwise.
pub runs_return :
    {C : Type 0} (memory : ℕ → Bool) (grants : Purpose → ℕ → Bool) (io : Io C) (client : Bool)
    (config : Option Config) {s : Session C} (ctx : C) {u : World C} (grants' : Purpose → ℕ → Bool)
    (call : Call)
    → IsReader io
    → IsAllocator grants
    → IsConfig config
    → session_create memory (some io) client config ≡ (ok, some s)
    → Reach (started grants s ctx) u
    → IsAllocator grants'
    → Allowed (with_allocator u grants') call
    → (v : World C) × (perform call (with_allocator u grants') ≡ some (tt, v)) × InOrder v
runs_return memory grants io client config ctx grants' call reader allocator small made r allocator'
      allowed =
    perform-InOrder call
      (with_allocator-InOrder
        (Reach-InOrder
          (created-InOrder memory grants io client config ctx reader allocator small made) r)
        allocator')
      allowed
