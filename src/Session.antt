-- ===== src/Session.antt =====
-- The session's operations (src/yamux_session.c).
pub mod Frames
pub mod Closes
pub mod Refusals
pub mod Served
pub mod Message
pub mod Arrival
pub mod EndToEnd
pub mod Handshake
pub mod Peers
use tiny_yamux.Base.{
  ℕ, zero, suc, ◌+◌, ◌*◌, Bool, true, false, not, Option, none, some, List, [], ◌∷◌, length, ltb,
  replicate, ◌==◌, if◌then◌else◌,
}
use tiny_yamux.Protocol.{
  Result, ok, err_invalid, err_nomem, err_io, err_closed, err_protocol, Header, Config, type_data,
  type_window_update, type_ping, type_go_away, flag_syn, header_size,
}
use tiny_yamux.Frame.{Decoded, decoded, refused, decode_header}
use tiny_yamux.World.{
  Io, Ptr, null, Session, SessionPtr, M, pure, undefined, ◌>>=◌, ◌>>◌, with_session, get_session,
  set_session, io_read, io_write, encode_local, put_u32, returned, sizeof_pointer,
}
use tiny_yamux.Streams.{header, stream_close}
use tiny_yamux.Handlers.{handle_data, handle_ping, handle_go_away}
use tiny_yamux.Handlers.WindowUpdate.{handle_window_update}

-- `yamux_default_config`.
abbrev pub default_config : Config
default_config = record {
  accept_backlog = 256;
  enable_keepalive = 1;
  connection_write_timeout = 30000;
  keepalive_interval = 60000;
  max_stream_window_size = 256 * 1024;
}

-- The size of `yamux_session_t` on a 64-bit target.
abbrev pub sizeof_session : ℕ
sizeof_session = 120

abbrev pub initial_capacity : ℕ
initial_capacity = 16

abbrev pub slot_at : List Ptr → ℕ → Ptr
slot_at [] i = null
slot_at (p ∷ slots) zero = p
slot_at (p ∷ slots) (suc i) = slot_at slots i

module _ {C : Type 0} where
  unfoldable pub fresh_session : Io C → Bool → Config → Session C
  fresh_session io client config = record {
    io = io;
    client = client;
    next_stream_id = if client then 1 else 2;
    go_away_received = false;
    streams = replicate initial_capacity null;
    stream_count = 0;
    stream_capacity = initial_capacity;
    accept_queue = null;
    config = config;
    recv_buf = none;
    recv_buf_size = 0;
  }

  -- The result and `*session`. `io` and `config` are `none` where the pointers are NULL.
  unfoldable pub session_create :
      (grants : ℕ → Bool)
      → Option (Io C)
      → (client : Bool) → Option Config
      → Result × Option (Session C)
  session_create grants none client config = (err_invalid, none)
  session_create grants (some io) client config =
      if not (grants sizeof_session)
      then (err_nomem, none)
      else if grants (initial_capacity * sizeof_pointer)
      then (
        ok,
        some (fresh_session io client (elim config [ none ↦ default_config | some given ↦ given ])),
      )
      else (err_nomem, none)

  -- The loop of `yamux_session_close`, on fuel; `stream_count` may fall meanwhile.
  unfoldable pub close_streams : ℕ → (i : ℕ) → M C (Unit {0})
  close_streams zero i = undefined
  close_streams (suc k) i =
      let next = close_streams k (i + 1) in
      do
        s ← get_session
        if ltb i s.stream_count
            then (do
              let p = slot_at s.streams i
              _ ← if p == null then pure ok else stream_close p true
              next)
            else pure tt

  unfoldable pub drop_streams : M C (Unit {0})
  drop_streams = do
    s ← get_session
    set_session (record s { streams = []; stream_count = 0; stream_capacity = 0 })

  -- The go-away frame: the error code overwrites the header's length.
  unfoldable pub send_go_away : ℕ → M C (Unit {0})
  send_go_away err = do
    frame ← encode_local (header type_go_away 0 0 4) 12
    _ ← io_write (put_u32 8 err frame)
    pure tt

  unfoldable pub session_close : SessionPtr → (err : ℕ) → M C Result
  session_close session err = with_session session err_invalid do
    s ← get_session
    if s.go_away_received then pure ok else do
      set_session (record s { go_away_received = true })
      send_go_away err
      close_streams (suc s.stream_count) 0
      drop_streams
      pure ok

  -- The handler for a decoded frame.
  unfoldable pub dispatch : SessionPtr → Header → M C Result
  dispatch session h =
      if h.type == type_data
      then handle_data session h
      else if h.type == type_window_update
      then handle_window_update h
      else if h.type == type_ping
      then handle_ping session h
      else if h.type == type_go_away
      then handle_go_away session h
      else pure err_protocol

  unfoldable pub session_process : SessionPtr → M C Result
  session_process session = with_session session err_invalid do
    s ← get_session
    if s.go_away_received then pure err_closed else do
      got ← io_read header_size
      elim got [
        | none ↦ pure err_io
        | some bytes ↦
            if ltb header_size (length bytes)
            then undefined
            else if not (length bytes == header_size)
            then pure err_io
            else elim (decode_header (some bytes) header_size) [
              | refused r ↦ pure r
              | Decoded.undefined ↦ undefined
              | decoded h ↦ dispatch session h
            ]
      ]

  -- The frame is encoded into an array of eight bytes.
  unfoldable pub session_ping : SessionPtr → M C Result
  session_ping session = with_session session err_invalid do
    s ← get_session
    if s.go_away_received then pure err_closed else do
      frame ← encode_local (header type_ping flag_syn 0 0) 8
      n ← io_write frame
      if returned n 8 then pure ok else pure err_io
