-- ===== src/Table/Born.antt =====
-- A new stream on the heap, not yet in the table (src/yamux_stream.c, src/yamux_handlers.c).
use tiny_yamux.Base.{ℕ, suc, ◌<◌, ◌≡◌, refl, arith, none, some}
use tiny_yamux.World.{Stream, World, new_stream, update}
use tiny_yamux.World.Laws.{At, At-update}
use tiny_yamux.Table.Lookup.{IsTable, stream_of, slots_of}
use tiny_yamux.Table.SameIds.{update-SameIds, lookup-SameIds, IsTable-SameIds}

-- The world after the allocation.
unfoldable pub born : {C : Type 0} → World C → Stream → World C
born w st = record w { heap = update w.heap w.fresh (some st); fresh = suc w.fresh }

pub new_stream-born :
    {C : Type 0} (w : World C) (st : Stream) → new_stream st w ≡ some (w.fresh, born w st)
unfolding new_stream born
new_stream-born w st = refl

module _ {C : Type 0} (w : World C) (t : IsTable w.heap w.session) (vacant : w.heap w.fresh ≡ none)
    (started : 0 < w.fresh) (st : Stream) where
  pub born-At : At (born w st).heap w.fresh st
  unfolding born
  born-At = At-update w.heap w.fresh st (λ e. absurd (omega arith))

  pub born-IsTable : IsTable (born w st).heap (born w st).session
  unfolding born
  born-IsTable =
      IsTable-SameIds w.heap (born w st).heap (update-SameIds w.heap w.fresh st vacant) w.session t

  pub born-stream_of : (id : ℕ) → stream_of (born w st) id ≡ stream_of w id
  unfolding born
  born-stream_of id =
      lookup-SameIds w.heap (born w st).heap (update-SameIds w.heap w.fresh st vacant)
        (slots_of w.session) id t.live
