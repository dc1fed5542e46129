-- ===== src/Handlers/WindowUpdate.antt =====
-- `yamux_handle_window_update` (src/yamux_handlers.c), in its parts: the payload, then SYN, ACK, the
-- window, FIN and RST.
pub mod Admits
pub mod Reset
pub mod Effects
pub mod Ends
pub mod Syn
use tiny_yamux.Base.{
  ℕ, ◌+◌, Bool, true, not, ◌&&◌, Option, none, some, List, [], ◌∷◌, length, ltb, ◌==◌,
  if◌then◌else◌,
}
use tiny_yamux.Protocol.{
  Result, ok, err_nomem, err_io, err_protocol, err_internal, is_ok, established, syn_sent, syn_recv,
  fin_sent, fin_recv, closed, state_code, Header, type_window_update, flag_syn, flag_ack, flag_fin,
  flag_rst, has, header_size, initial_buffer_size, add_u32,
}
use tiny_yamux.Frame.{join_u32}
use tiny_yamux.Buffer
use tiny_yamux.Buffer.{Buffer}
use tiny_yamux.World.{
  for_buffer, for_stream, Ptr, null, Stream, the_session, M, pure, undefined, ◌>>=◌, ◌>>◌,
  get_session, granted, allocator, load, store, free_stream, new_stream, io_read, io_write,
  encode_local, put_u32, returned, sizeof_stream, zero_buffer, zero_stream,
}
use tiny_yamux.Table.{get_stream, add_stream, remove_stream}
use tiny_yamux.AcceptQueue.{enqueue_stream_for_accept}
use tiny_yamux.Streams.{header}

-- What a frame's flags and length say of its payload.
pub data Plan : Type 0 where
  no_payload window_payload bad_length : Plan

-- `header->flags & SYN && !(header->flags & ACK)`.
abbrev pub opens : ℕ → Bool
opens flags = has flags flag_syn && not (has flags flag_ack)

unfoldable pub payload_plan : (flags len : ℕ) → Plan
payload_plan flags len =
    if opens flags
    then (if len == 0 then no_payload else if len == 4 then window_payload else bad_length)
    else if has flags (flag_fin + flag_rst)
    then (if len == 0
        then no_payload
        else if len == 4 && has flags flag_ack
        then window_payload
        else bad_length)
    else (if len == 4 then window_payload else if len == 0 then no_payload else bad_length)

-- `ntohl` of four bytes.
unfoldable pub window_of : List ℕ → Option ℕ
window_of (b3 ∷ b2 ∷ b1 ∷ b0 ∷ []) = some (join_u32 b3 b2 b1 b0)
window_of _ = none

-- A handler's early return, or the stream that it goes on with.
pub data Step : Type 0 where
  stop : Result → Step
  continue : Ptr → Step

-- The new stream of a SYN.
abbrev pub accepted : (id send_window recv_window : ℕ) → Buffer → Stream
accepted id send_window recv_window buffer = record zero_stream {
  id = id;
  state = syn_recv;
  send_window = send_window;
  recv_window = recv_window;
  recvbuf = buffer;
}

-- The stream after an ACK, at a client or a server.
unfoldable pub acked : (client : Bool) → (flags window : ℕ) → Stream → Stream
acked client flags window st =
    if client && (state_code st.state == state_code syn_sent && has flags flag_syn)
    then record st { send_window = window; state = established }
    else if not client && (state_code st.state == state_code syn_recv && not (has flags flag_syn))
    then record st { state = established }
    else if state_code st.state == state_code fin_sent && has flags flag_fin
    then record st { state = closed }
    else st

module _ {C : Type 0} where
  -- Four bytes through a local array.
  unfoldable pub read_window : M C (Option ℕ)
  read_window = do
    got ← io_read 4
    elim got [
      | none ↦ pure none
      | some bytes ↦ if ltb 4 (length bytes) then undefined else pure (window_of bytes)
    ]

  -- The window that the payload gives, 0 where there is none, or the error.
  unfoldable pub payload : Header → M C (Result × ℕ)
  payload h = elim (payload_plan h.flags h.length) [
    | no_payload ↦ pure (ok, 0)
    | bad_length ↦ pure (err_protocol, 0)
    | window_payload ↦ (do
      got ← read_window
      pure (elim got [ none ↦ (err_io, 0) | some v ↦ (ok, v) ]))
  ]

  unfoldable pub send_syn_ack : (id window : ℕ) → M C (Option ℕ)
  send_syn_ack id window = do
    frame ← encode_local (header type_window_update (flag_syn + flag_ack) id 4) (header_size + 4)
    io_write (put_u32 header_size window frame)

  -- The new stream goes into the table, the SYN-ACK out, and the stream into the accept queue.
  unfoldable pub admit : Stream → M C Step
  admit st = do
    p ← new_stream st
    result ← add_stream the_session p
    if is_ok result
        then (do
          n ← send_syn_ack st.id st.recv_window
          if returned n (header_size + 4)
              then (do _ ← enqueue_stream_for_accept the_session p; pure (continue p))
              else (do _ ← remove_stream the_session st.id; pure (stop err_io)))
        else (do free_stream p; pure (stop err_internal))

  unfoldable pub syn_new : Header → (window : ℕ) → M C Step
  syn_new h window = do
    s ← get_session
    fits ← granted for_stream sizeof_stream
    if not fits then pure (stop err_nomem) else do
      grants ← allocator for_buffer
      let (result, buffer) = Buffer.init grants zero_buffer initial_buffer_size
      let send_window =
          if h.length == 0 && opens h.flags then s.config.max_stream_window_size else window
      if is_ok result
          then admit (accepted h.stream_id send_window s.config.max_stream_window_size buffer)
          else pure (stop err_nomem)

  unfoldable pub on_syn : Header → (window : ℕ) → Ptr → M C Step
  on_syn h window stream =
      if has h.flags flag_syn
      then (do
        s ← get_session
        if s.client
            then pure (continue stream)
            else if not (stream == null)
            then pure (stop err_protocol)
            else syn_new h window)
      else pure (continue stream)

  unfoldable pub on_ack : Header → (window : ℕ) → Ptr → M C (Unit {0})
  on_ack h window stream =
      if has h.flags flag_ack && not (stream == null)
      then (do s ← get_session; st ← load stream; store stream (acked s.client h.flags window st))
      else pure tt

  unfoldable pub on_window : Header → (window : ℕ) → Ptr → M C (Unit {0})
  on_window h window stream =
      if (not (has h.flags flag_syn) && not (has h.flags flag_ack)) && not (stream == null)
      then (do
        st ← load stream
        store stream (record st { send_window = add_u32 st.send_window window }))
      else pure tt

  -- False if the FIN-ACK could not be sent.
  unfoldable pub on_fin : Header → Ptr → M C Bool
  on_fin h stream =
      if (has h.flags flag_fin && (not (has h.flags flag_ack) && not (has h.flags flag_syn)))
        && not (stream == null)
      then (do
        st ← load stream
        store stream (record st { state = fin_recv })
        frame ← encode_local (header type_window_update (flag_fin + flag_ack) st.id 0) header_size
        n ← io_write frame
        pure (returned n header_size))
      else pure true

  unfoldable pub on_rst : Header → Ptr → M C (Unit {0})
  on_rst h stream =
      if has h.flags flag_rst && not (stream == null)
      then (do
        st ← load stream
        store stream (record st { state = closed })
        _ ← remove_stream the_session st.id
        pure tt)
      else pure tt

  -- The parts after SYN.
  unfoldable pub rest_of_update : Header → (window : ℕ) → Ptr → M C Result
  rest_of_update h window stream = do
    on_ack h window stream
    on_window h window stream
    sent ← on_fin h stream
    if sent then (do on_rst h stream; pure ok) else pure err_io

  -- The handler's one caller passes the session.
  unfoldable pub handle_window_update : Header → M C Result
  handle_window_update h = do
    (result, window) ← payload h
    if is_ok result
        then (do
          stream ← get_stream the_session h.stream_id
          step ← on_syn h window stream
          elim step [ stop r ↦ pure r | continue p ↦ rest_of_update h window p ])
        else pure result
