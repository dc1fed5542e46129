-- ===== src/Safety/Commands.antt =====
-- The primitive commands in a state in order (src/yamux_internal.h).
use tiny_yamux.Base.{ℕ, ◌≤◌, ◌≡◌, ◌⊎◌, refl, some, Option, List, length}
use tiny_yamux.World.{Ptr, null, Stream, World, store, io_read, io_write, the_session}
use tiny_yamux.World.Laws.{At}
use tiny_yamux.World.Calls.{
  store-replaced, replaced-At, after_read, io_read-after, sent_world, io_write-sent,
}
use tiny_yamux.Frame.{IsBytes}
use tiny_yamux.Table.{get_stream}
use tiny_yamux.Table.Lookup.{slots_of, lookup-At, get_stream-stream_of}
use tiny_yamux.Safety.{IsSound, InOrder}
use tiny_yamux.Safety.Total.{Returns, returns}
use tiny_yamux.Safety.Keeps.{replaced-InOrder, after_read-InOrder, sent_world-InOrder}

-- The state afterwards is in order.
abbrev pub InOrderAfter : {C A : Type 0} → A → World C → Type 0
InOrderAfter a w = InOrder w

-- A call of a callback leaves the streams and the session.
pub record IsSteady {C : Type 0} (w w' : World C) : Type 0 where
  pub same_heap : w'.heap ≡ w.heap
  pub same_session : w'.session ≡ w.session
  pub in_order : InOrder w'

pub At-along :
    {heap heap' : Ptr → Option Stream} {p : Ptr} {st : Stream}
    → heap' ≡ heap
    → At heap p st
    → At heap' p st
At-along same at = rw same at

pub IsSteady-At :
    {C : Type 0} {w w' : World C} {p : Ptr} {st : Stream}
    → IsSteady w w'
    → At w.heap p st
    → At w'.heap p st
IsSteady-At steady at = At-along steady.same_heap at

-- `p` is NULL or the address of a stream.
abbrev pub MayHold : {C : Type 0} → World C → Ptr → Type 0
MayHold w p = (p ≡ null) ⊎ ((st : Stream) × At w.heap p st)

module _ {C : Type 0} {w : World C} (o : InOrder w) where
  pub store-Returns :
      {p : Ptr} {st : Stream} (new : Stream)
      → At w.heap p st
      → new.id ≡ st.id
      → new.next ≡ st.next
      → IsSound new
      → Returns (store p new w) (λ _ w'. InOrder w' × At w'.heap p new)
  store-Returns new at same_id same_next ok =
      returns tt _ (store-replaced w new at)
        (replaced-InOrder new o at same_id same_next ok, replaced-At w new at)

  pub get_stream-Returns :
      (id : ℕ)
      → Returns
          (get_stream the_session id w)
          (λ p w'. (w' ≡ w) × ((p ≡ null) ⊎ ((st : Stream) × At w.heap p st × (st.id ≡ id))))
  get_stream-Returns id =
      returns _ w (get_stream-stream_of w id o.table)
        (refl, lookup-At w.heap (slots_of w.session) id o.table.live)

  -- What the callback stored is as it promises.
  pub io_read-Returns :
      (n : ℕ)
      → Returns (io_read n w) (λ got w'.
        IsSteady w w' × ((bytes : List ℕ) → got ≡ some bytes → (length bytes ≤ n) × IsBytes bytes))
  unfolding after_read
  io_read-Returns n = returns _ _ (io_read-after w n) (
    record { same_heap = refl; same_session = refl; in_order = after_read-InOrder n o },
    o.reader w.ctx n,
  )

  pub io_write-Returns : (bytes : List ℕ) → Returns (io_write bytes w) (λ n w'. IsSteady w w')
  unfolding sent_world
  io_write-Returns bytes =
      returns _ _ (io_write-sent w bytes)
        (record { same_heap = refl; same_session = refl; in_order = sent_world-InOrder bytes o })
