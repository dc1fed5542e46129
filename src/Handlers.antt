-- ===== src/Handlers.antt =====
-- The handlers of received frames (src/yamux_handlers.c, src/yamux_session_utils.c).
pub mod Filling
pub mod RecvBuf
pub mod WindowUpdate
pub mod Pings
pub mod Twins
pub mod Delivery
use tiny_yamux.Base.{
  ℕ, zero, suc, ◌+◌, ◌-◌, ◌*◌, ◌/◌, ◌%◌, ◌^◌, Bool, true, false, not, ◌&&◌, ◌||◌, Option, none,
  some, List, [], ◌∷◌, ◌++◌, take, drop, length, ltb, leb, replicate, ◌==◌, if◌then◌else◌,
}
use tiny_yamux.Protocol.{
  Result, ok, err_invalid, err_nomem, err_io, err_closed, err_protocol, err_invalid_stream, is_ok,
  StreamState, established, fin_sent, fin_recv, closed, state_code, Header, type_window_update,
  type_ping, flag_syn, flag_ack, flag_fin, has, header_size, default_window_size,
  window_update_threshold, sub_u32,
}
use tiny_yamux.Frame.{Encoded, encoded, encode_header}
use tiny_yamux.Buffer
use tiny_yamux.Buffer.{Buffer}
use tiny_yamux.World.{
  for_recv_buf, for_buffer, Ptr, null, Stream, Session, World, SessionPtr, M, pure, undefined,
  ◌>>=◌, ◌>>◌, with_session, get_session, set_session, granted, allocator, load, store, io_read,
  io_write, io_write_null, encode_local, put_u32, returned,
}
use tiny_yamux.Table.{get_stream}
use tiny_yamux.Streams.{header}

-- The state after a FIN on a DATA frame.
unfoldable pub fin_received : StreamState → StreamState
fin_received established = fin_recv
fin_received fin_sent = closed
fin_received s = s

module _ {C : Type 0} where
  -- What a callback stored at the start of `session->recv_buf`.
  unfoldable pub fill_recv_buf : List ℕ → M C (Unit {0})
  fill_recv_buf [] = pure tt
  fill_recv_buf (b ∷ bytes) = do
    s ← get_session
    elim s.recv_buf [
      | none ↦ undefined
      | some old ↦
          if leb (length (b ∷ bytes)) (length old)
          then set_session
              (record s { recv_buf = some ((b ∷ bytes) ++ drop (length (b ∷ bytes)) old) })
          else undefined
    ]

  -- `realloc(session->recv_buf, length)` where it is too small; false if the allocator refuses.
  unfoldable pub reserve_recv_buf : ℕ → M C Bool
  reserve_recv_buf len = do
    s ← get_session
    if ltb s.recv_buf_size len
        then (do
          fits ← granted for_recv_buf len
          if fits
              then (do
                set_session (record s {
                  recv_buf = some (Buffer.resize s.recv_buf len);
                  recv_buf_size = len;
                })
                pure true)
              else pure false)
        else pure true

  unfoldable pub write_buffer : Buffer → Option (List ℕ) → ℕ → M C (Result × Buffer)
  write_buffer b source len = do
    grants ← allocator for_buffer
    λ w. elim (Buffer.write grants b source len) [ none ↦ none | some r ↦ some (r, w) ]

  -- The window update that `yamux_handle_data` sends: the window overwrites the header's length.
  unfoldable pub refill_window : Ptr → M C Result
  refill_window stream = do
    st ← load stream
    if ltb st.recv_window window_update_threshold
        then (do
          frame ← encode_local (header type_window_update 0 st.id 4) header_size
          n ← io_write (put_u32 8 default_window_size frame)
          if returned n header_size
              then (do store stream (record st { recv_window = default_window_size }); pure ok)
              else pure err_io)
        else pure ok

  -- The payload, once it is read into `session->recv_buf`.
  unfoldable pub deliver : Ptr → ℕ → M C Result
  deliver stream bytes_read = do
    st ← load stream
    s ← get_session
    (result, b) ← write_buffer st.recvbuf s.recv_buf bytes_read
    store stream (record st { recvbuf = b })
    if is_ok result
        then (do
          store stream (record st { recvbuf = b; recv_window = sub_u32 st.recv_window bytes_read })
          refill_window stream)
        else pure result

  unfoldable pub read_payload : Ptr → (len : ℕ) → M C Result
  read_payload stream len = do
    fits ← reserve_recv_buf len
    if fits
        then (do
          got ← io_read len
          elim got [
            | none ↦ pure err_io
            | some bytes ↦ do
              fill_recv_buf bytes
              if ltb (length bytes) len then pure err_io else deliver stream (length bytes)
          ])
        else pure err_nomem

  unfoldable pub handle_data : SessionPtr → Header → M C Result
  handle_data session h = with_session session err_invalid do
    stream ← get_stream session h.stream_id
    if stream == null then pure err_invalid_stream else do
      st ← load stream
      if state_code st.state == state_code closed || state_code st.state == state_code fin_recv
          then pure err_closed
          else do
            if has h.flags flag_fin
                then store stream (record st { state = fin_received st.state })
                else pure tt
            if h.length == 0 then pure ok else read_payload stream h.length

  -- The reply to a ping, from `session->recv_buf`; a NULL buffer is not encoded into, unnoticed, and
  -- passed to the callback.
  unfoldable pub send_pong : Header → M C (Option ℕ)
  send_pong response = do
    s ← get_session
    elim (encode_header response s.recv_buf) [
      | encoded _ none ↦ io_write_null 8
      | encoded _ (some buffer) ↦ do
        set_session (record s { recv_buf = some buffer })
        io_write (take 8 buffer)
      | Encoded.undefined ↦ undefined
    ]

  unfoldable pub echo : List ℕ → (len : ℕ) → M C Result
  echo ping_data len =
      if ltb 8 len
      then undefined
      else do n ← io_write (take len ping_data); if returned n len then pure ok else pure err_io

  -- The first eight bytes of the ping's data, in an array of eight that starts as zeros.
  unfoldable pub read_ping_data : ℕ → M C (Option (List ℕ))
  read_ping_data len =
      if ltb 0 len
      then (do
        got ← io_read (if ltb len 8 then len else 8)
        elim got [
          | none ↦ pure none
          | some bytes ↦
              if ltb 8 (length bytes)
              then undefined
              else pure (some (bytes ++ replicate (8 - length bytes) 0))
        ])
      else pure (some (replicate 8 0))

  unfoldable pub handle_ping : SessionPtr → Header → M C Result
  handle_ping session h = with_session session err_invalid (
      if has h.flags flag_ack then pure ok else do
        got ← read_ping_data h.length
        elim got [
          | none ↦ pure err_io
          | some ping_data ↦ do
            n ← send_pong (header type_ping flag_ack 0 h.length)
            if returned n 8
                then (if ltb 0 h.length then echo ping_data h.length else pure ok)
                else pure err_io
        ])

  unfoldable pub set_go_away : M C Result
  set_go_away = do s ← get_session; set_session (record s { go_away_received = true }); pure ok

  unfoldable pub handle_go_away : SessionPtr → Header → M C Result
  handle_go_away session h = with_session session err_invalid (
      if not (h.length == 4) then pure err_protocol else do
        got ← io_read 4
        elim got [
          | none ↦ pure err_io
          | some bytes ↦ do
            fill_recv_buf bytes
            if ltb (length bytes) 4 then pure err_io else set_go_away
        ])

-- The versions in src/yamux_session_utils.c of two of the handlers.
module _ {C : Type 0} where
  unfoldable pub utils_handle_ping : SessionPtr → Header → M C Result
  utils_handle_ping session h = with_session session err_invalid (
      if has h.flags flag_syn
      then (do
        frame ← encode_local (header type_ping flag_ack 0 0) 8
        n ← io_write frame
        if returned n 8 then pure ok else pure err_io)
      else pure ok)

  unfoldable pub utils_handle_go_away : SessionPtr → Header → M C Result
  utils_handle_go_away session h = with_session session err_invalid (
      if not (h.length == 4) then pure err_protocol else do
        got ← io_read 4
        elim got [
          | none ↦ pure err_io
          | some bytes ↦
              if ltb 4 (length bytes)
              then undefined
              else if length bytes == 4
              then set_go_away
              else pure err_io
        ])
