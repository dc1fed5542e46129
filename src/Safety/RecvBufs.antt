-- ===== src/Safety/RecvBufs.antt =====
-- The session's receive buffer in a state in order (src/yamux_handlers.c).
use tiny_yamux.Base.{
  ℕ, ◌≤◌, ◌≡◌, ◌≢◌, inl, inr, refl, arith, true, false, some, List, ◌∷◌, [], ◌++◌, drop,
  length-append, length-drop, length,
}
use mathlib.Core.Bool.{false≢true}
use tiny_yamux.World.{World}
use tiny_yamux.Handlers.{fill_recv_buf, reserve_recv_buf}
use tiny_yamux.Safety.{InOrder}
use tiny_yamux.Safety.Total.{Returns, returns, Returns-pure}
use tiny_yamux.Safety.Lists.{rebuffered-InOrder}
use tiny_yamux.Handlers.RecvBuf.{
  heap-rebuffered, recv_buf-rebuffered, fill_recv_buf-fits, recv_buf-fits, reserve_recv_buf-Outcome,
}

-- The callback's bytes in the session's buffer.
pub fill_recv_buf-InOrder :
    {C : Type 0} {w : World C} (o : InOrder w) (bytes old : List ℕ)
    → w.session.recv_buf ≡ some old
    → length bytes ≤ length old
    → Returns (fill_recv_buf bytes w) (λ _ w'.
      InOrder w'
      × (w'.heap ≡ w.heap)
      × (source : List ℕ) × (w'.session.recv_buf ≡ some source)
      × (length source ≡ length old))
unfolding fill_recv_buf
fill_recv_buf-InOrder {w} o [] old held fits = Returns-pure (o, refl, old, held, refl)
fill_recv_buf-InOrder {w} o (b ∷ bytes) old held fits =
    returns tt _ (fill_recv_buf-fits w (b ∷ bytes) old held fits (omega arith)) (
      rebuffered-InOrder o _ _ (omega (arith, filled_length, noted)),
      heap-rebuffered w _ _,
      _,
      recv_buf-rebuffered w _ _,
      filled_length,
    )
  where
    filled_length : length ((b ∷ bytes) ++ drop (length (b ∷ bytes)) old) ≡ length old
    filled_length = omega (
      arith,
      length-append (b ∷ bytes) (drop (length (b ∷ bytes)) old),
      length-drop (length (b ∷ bytes)) old,
    )

    noted : length old ≡ w.session.recv_buf_size
    noted = rw held at (recv_buf-fits w.session o.recv_buf)

pub reserve_recv_buf-Returns :
    {C : Type 0} {w : World C} (o : InOrder w) (len : ℕ)
    → len ≢ 0
    → Returns (reserve_recv_buf len w) (λ fits w'.
      InOrder w'
      × (w'.heap ≡ w.heap)
      × (fits ≡ true
          → (block : List ℕ) × (w'.session.recv_buf ≡ some block) × (len ≤ length block)))
reserve_recv_buf-Returns {w} o len ne =
    elim (reserve_recv_buf-Outcome w len o.recv_buf (omega arith)) [
      | inl (block, size, e, sized, inb) ↦ returns true _ e (
        rebuffered-InOrder o block size sized,
        heap-rebuffered w block size,
        λ _. (block, recv_buf-rebuffered w block size, omega arith),
      )
      | inr (e, _, _) ↦ returns false w e (o, refl, λ no_room. absurd (false≢true no_room))
    ]
