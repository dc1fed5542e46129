-- ===== src/Streams.antt =====
-- Operations on one stream (src/yamux_stream.c, src/yamux_stream_ext.c): open, close, and the
-- queries; reading and writing are in `Transfer`.
pub mod Opening
pub mod Asking
pub mod Half
pub mod Frames
pub mod Transfer
pub mod Read
pub mod Open
pub mod Close
pub mod HalfClose
pub mod OneFrame
pub mod FullClose
pub mod Atomic
pub mod Dangling
pub mod Rounds
pub mod Write
pub mod WriteCall
use tiny_yamux.Base.{
  ℕ, zero, suc, ◌+◌, ◌-◌, ◌*◌, ◌/◌, ◌%◌, ◌^◌, Bool, true, false, ◌&&◌, ◌||◌, Option, none, some,
  List, [], ◌∷◌, ◌++◌, take, drop, length, ltb, leb, ◌==◌, if◌then◌else◌,
}
use tiny_yamux.Protocol.{
  Result, ok, err_invalid, err_nomem, err_io, err_closed, err_would_block, is_ok, StreamState, idle,
  syn_sent, fin_sent, fin_recv, closed, state_code, Header, proto_version, type_data,
  type_window_update, flag_syn, flag_fin, flag_rst, header_size, default_window_size,
  initial_buffer_size, max_data_frame_size, add_u32, sub_u32, sub_size,
}
use tiny_yamux.Buffer
use tiny_yamux.Buffer.{Buffer}
use tiny_yamux.World.{
  for_buffer, for_stream, Ptr, null, Stream, Session, World, SessionPtr, the_session, M, pure,
  undefined, ◌>>=◌, ◌>>◌, with_session, get_session, set_session, granted, allocator, load, store,
  free_stream, new_stream, io_write, encode_local, put_u32, returned, sizeof_stream, zero_buffer,
  zero_stream,
}
use tiny_yamux.Table.{add_stream, remove_stream}

-- A header as the functions fill it in.
abbrev pub header : (type flags stream_id length : ℕ) → Header
header type flags stream_id length = record {
  version = proto_version;
  type = type;
  flags = flags;
  stream_id = stream_id;
  length = length;
}

-- The stream that `yamux_stream_open_detailed` sets up.
abbrev pub opened : ℕ → Buffer → Stream
opened id buffer = record zero_stream {
  id = id;
  recvbuf = buffer;
  send_window = default_window_size;
  recv_window = default_window_size;
  state = idle;
}

module _ {C : Type 0} where
  -- The id given, or the session's next one.
  unfoldable pub take_id : ℕ → M C ℕ
  take_id stream_id =
      if stream_id == 0
      then (do
        s ← get_session
        set_session (record s { next_stream_id = add_u32 s.next_stream_id 2 })
        pure s.next_stream_id)
      else pure stream_id

  -- The SYN frame, its window payload behind the header.
  unfoldable pub send_syn : ℕ → M C (Option ℕ)
  send_syn id = do
    frame ← encode_local (header type_window_update flag_syn id 4) (header_size + 4)
    io_write (put_u32 header_size default_window_size frame)

  -- After the SYN is sent: into the table, and on to SYN_SENT.
  unfoldable pub open_added : Ptr → M C (Result × Ptr)
  open_added p = do
    result ← add_stream the_session p
    if is_ok result
        then (do st ← load p; store p (record st { state = syn_sent }); pure (ok, p))
        else (do free_stream p; pure (result, null))

  unfoldable pub open_sent : ℕ → Buffer → M C (Result × Ptr)
  open_sent id buffer = do
    p ← new_stream (opened id buffer)
    n ← send_syn id
    if returned n (header_size + 4) then open_added p else (do free_stream p; pure (err_io, null))

  -- What follows the allocation of the stream's structure, which takes its place here when its
  -- fields are set; on an error before that, it is only freed again.
  unfoldable pub open_allocated : ℕ → M C (Result × Ptr)
  open_allocated stream_id = do
    id ← take_id stream_id
    grants ← allocator for_buffer
    let (result, buffer) = Buffer.init grants zero_buffer initial_buffer_size
    if is_ok result then open_sent id buffer else pure (result, null)

  unfoldable pub stream_open_detailed : SessionPtr → ℕ → M C (Result × Ptr)
  stream_open_detailed session stream_id =
      with_session session (err_invalid, null)
        do
          s ← get_session
          if s.go_away_received
              then pure (err_closed, null)
              else if stream_id == 0xFFFFFFFF
              then pure (err_invalid, null)
              else do
                fits ← granted for_stream sizeof_stream
                if fits then open_allocated stream_id else pure (err_nomem, null)

  -- The state change of `yamux_stream_close` once its frame is sent.
  unfoldable pub close_reset : Ptr → Stream → M C Result
  close_reset p st = do
    store p (record st { state = closed })
    _ ← remove_stream the_session st.id
    free_stream p
    pure ok

  unfoldable pub close_normal : Ptr → Stream → M C Result
  close_normal p st =
      if state_code st.state == state_code fin_recv
      then (do
        store p (record st { state = closed })
        _ ← remove_stream the_session st.id
        store p (record st { state = closed; recvbuf = Buffer.free st.recvbuf })
        pure ok)
      else (do store p (record st { state = fin_sent }); pure ok)

  unfoldable pub stream_close : Ptr → (reset : Bool) → M C Result
  stream_close stream reset = if stream == null then pure err_invalid else do
    st ← load stream
    if state_code st.state == state_code closed then pure ok else do
      frame ←
          encode_local (header type_data (if reset then flag_rst else flag_fin) st.id 0) header_size
      _ ← io_write frame
      if reset then close_reset stream st else close_normal stream st

  unfoldable pub stream_get_id : Ptr → M C ℕ
  stream_get_id stream = if stream == null then pure 0 else do st ← load stream; pure st.id

  unfoldable pub stream_get_send_window : Ptr → M C ℕ
  stream_get_send_window stream =
      if stream == null then pure 0 else do st ← load stream; pure st.send_window

  unfoldable pub stream_get_state : Ptr → M C StreamState
  stream_get_state stream =
      if stream == null then pure closed else do st ← load stream; pure st.state

  unfoldable pub stream_update_window : Ptr → ℕ → M C Result
  stream_update_window stream increment = if stream == null then pure err_invalid else do
    st ← load stream
    store stream (record st { send_window = add_u32 st.send_window increment })
    pure ok
