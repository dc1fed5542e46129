-- ===== src/AcceptQueue.antt =====
-- The queue of streams that wait to be accepted, linked through their `next` pointers
-- (src/yamux_stream_utils.c, and `yamux_stream_accept` of src/yamux_stream.c).
pub mod Accepting
pub mod Link
pub mod Chain
pub mod Fifo
pub mod Orders
use tiny_yamux.Base.{ℕ, zero, suc, ◌==◌, if◌then◌else◌}
use tiny_yamux.Protocol.{Result, ok, err_invalid, err_closed, err_timeout}
use tiny_yamux.World.{
  Ptr, null, SessionPtr, M, pure, undefined, ◌>>=◌, ◌>>◌, with_session, get_session, set_session,
  load, store,
}

module _ {C : Type 0} where
  -- `p->next = q`.
  unfoldable pub set_next : Ptr → Ptr → M C (Unit {0})
  set_next p q = do st ← load p; store p (record st { next = q })

  -- At the head, unless the backlog is 0.
  unfoldable pub enqueue_stream : SessionPtr → Ptr → M C Result
  enqueue_stream session stream = with_session session err_invalid (
      if stream == null then pure err_invalid else do
        s ← get_session
        if s.go_away_received
            then pure err_closed
            else if s.config.accept_backlog == 0
            then pure err_timeout
            else do
              set_next stream s.accept_queue
              set_session (record s { accept_queue = stream })
              pure ok)

  -- `while (current->next) current = current->next; current->next = stream`, on fuel: each round
  -- goes one stream further, so the number of queued streams is enough.
  unfoldable pub link_last : ℕ → Ptr → Ptr → M C (Unit {0})
  link_last zero current stream = undefined
  link_last (suc k) current stream =
      let walk = λ (next : Ptr). link_last k next stream in
      do st ← load current; if st.next == null then set_next current stream else walk st.next

  -- At the end. The addresses below `fresh` bound the length of the queue.
  unfoldable pub enqueue_stream_for_accept : SessionPtr → Ptr → M C Result
  enqueue_stream_for_accept session stream = with_session session err_invalid (
      if stream == null then pure err_invalid else do
        set_next stream null
        s ← get_session
        if s.accept_queue == null
            then set_session (record s { accept_queue = stream })
            else (λ w. link_last w.fresh s.accept_queue stream w)
        pure ok)

  -- The queue is not empty: its first stream leaves it.
  unfoldable pub take_first : Ptr → M C (Result × Ptr)
  take_first first = do
    st ← load first
    s ← get_session
    set_session (record s { accept_queue = st.next })
    set_next first null
    pure (ok, first)

  -- The result, and what goes through the out parameter.
  unfoldable pub stream_accept : SessionPtr → M C (Result × Ptr)
  stream_accept session =
      with_session session (err_invalid, null)
        do
          s ← get_session
          if s.go_away_received
              then pure (err_closed, null)
              else if s.accept_queue == null
              then pure (err_timeout, null)
              else take_first s.accept_queue
