-- ===== src/World/Calls.antt =====
-- What a call of one of the application's callbacks changes (src/yamux_internal.h).
use tiny_yamux.Base.{length, ℕ, ◌≡◌, refl, ap, some, List, [], ◌∷◌, ◌++◌, Option}
use tiny_yamux.World.{Io, Ptr, Stream, World, io_read, io_write, update, store}
use tiny_yamux.World.Laws.{At, update-same, update-update, store-At, At-update}

-- The world once `io.read` has been called for `n` bytes.
unfoldable pub after_read : {C : Type 0} → World C → ℕ → World C
after_read w n = record w { ctx = (w.session.io.read w.ctx n).1 }

pub io_read-after :
    {C : Type 0} (w : World C) (n : ℕ)
    → io_read n w ≡ some ((w.session.io.read w.ctx n).0, after_read w n)
unfolding io_read after_read
io_read-after w n = refl

-- The world once `io.write` has been called with the bytes.
unfoldable pub sent_world : {C : Type 0} → World C → List ℕ → World C
sent_world w bytes = record w {
  ctx = (w.session.io.write w.ctx bytes).1;
  sent = w.sent ++ (bytes ∷ []);
}

pub io_write-sent :
    {C : Type 0} (w : World C) (bytes : List ℕ)
    → io_write bytes w ≡ some ((w.session.io.write w.ctx bytes).0, sent_world w bytes)
unfolding io_write sent_world
io_write-sent w bytes = refl

module _ {C : Type 0} (w : World C) (bytes : List ℕ) where
  pub sent_world-At : {p : Ptr} {st : Stream} → At w.heap p st → At (sent_world w bytes).heap p st
  unfolding sent_world
  sent_world-At at = at

  pub heap-sent_world : (sent_world w bytes).heap ≡ w.heap
  unfolding sent_world
  heap-sent_world = refl

  pub sent-sent_world : (sent_world w bytes).sent ≡ w.sent ++ (bytes ∷ [])
  unfolding sent_world
  sent-sent_world = refl

module _ {C : Type 0} (w : World C) (n : ℕ) where
  pub after_read-At : {p : Ptr} {st : Stream} → At w.heap p st → At (after_read w n).heap p st
  unfolding after_read
  after_read-At at = at

-- The world with another stream at an address.
unfoldable pub replaced : {C : Type 0} → World C → Ptr → Stream → World C
replaced w p st = record w { heap = update w.heap p (some st) }

pub store-replaced :
    {C : Type 0} (w : World C) {p : Ptr} {st : Stream} (new : Stream)
    → At w.heap p st
    → store p new w ≡ some (tt, replaced w p new)
unfolding replaced
store-replaced w new at = store-At w at new

pub replaced-At :
    {C : Type 0} (w : World C) {p : Ptr} {st : Stream} (new : Stream)
    → At w.heap p st
    → At (replaced w p new).heap p new
unfolding replaced
replaced-At w {p} new at = At-update w.heap p new at.ne_null

pub replaced-same :
    {C : Type 0} (w : World C) {p : Ptr} {st : Stream} → At w.heap p st → replaced w p st ≡ w
unfolding replaced
replaced-same {C} w {p} {st} at =
    ap {A = Ptr → Option Stream} (λ heap. record w { heap = heap })
      (update-same w.heap p (some st) at.holds)

pub replaced-replaced :
    {C : Type 0} (w : World C) (p : Ptr) (old new : Stream)
    → replaced (replaced w p old) p new ≡ replaced w p new
unfolding replaced
replaced-replaced w p old new =
    ap {A = Ptr → Option Stream} (λ heap. record w { heap = heap })
      (update-update w.heap p (some old) (some new))

module _ {C : Type 0} (w : World C) (p : Ptr) (st : Stream) where
  pub heap-replaced : (replaced w p st).heap ≡ update w.heap p (some st)
  unfolding replaced
  heap-replaced = refl

  pub sent-replaced : (replaced w p st).sent ≡ w.sent
  unfolding replaced
  sent-replaced = refl

-- A callback that takes every write whole.
abbrev pub AcceptsAll : {C : Type 0} → Io C → Type 0
AcceptsAll {C} io = (c : C) (bytes : List ℕ) → (io.write c bytes).0 ≡ some (length bytes)
