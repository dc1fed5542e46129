-- ===== src/Streams/Transfer.antt =====
-- Reading from and writing to a stream (src/yamux_stream.c).
use tiny_yamux.Base.{
  ℕ, zero, suc, ◌+◌, ◌%◌, ◌^◌, Bool, false, ◌&&◌, ◌||◌, Option, none, some, List, [], take, drop,
  length, ltb, leb, ◌==◌, if◌then◌else◌,
}
use tiny_yamux.Protocol.{
  Result, ok, err_invalid, err_io, err_closed, err_would_block, is_ok, fin_sent, fin_recv, closed,
  state_code, type_data, type_window_update, header_size, default_window_size, max_data_frame_size,
  sub_u32, add_size, sub_size,
}
use tiny_yamux.Buffer
use tiny_yamux.Buffer.{Buffer}
use tiny_yamux.World.{
  Ptr, null, Stream, M, pure, undefined, ◌>>=◌, ◌>>◌, load, store, io_write, encode_local, put_u32,
  returned,
}
use tiny_yamux.Streams.{header}

-- The increment that a read announces, from `stream->recv_window` and `*bytes_read`.
unfoldable pub window_increment : (recv_window bytes_read : ℕ) → ℕ
window_increment recv_window bytes_read =
    let missing = sub_u32 default_window_size recv_window in
    let freed = bytes_read % 2 ^ 32 in
    let increment =
      if missing == 0 && ltb 0 bytes_read
      then freed
      else if ltb missing bytes_read && leb (add_size recv_window bytes_read) default_window_size
      then freed
      else missing in
    if increment == 0 then freed else increment

-- The length of the next DATA frame of a write; `room` wraps as size_t does.
unfoldable pub chunk_size : (total len_to_write send_window : ℕ) → ℕ
chunk_size total len_to_write send_window =
    let left = sub_size len_to_write total in
    let chunk = if ltb max_data_frame_size left then max_data_frame_size else left in
    let room = sub_size send_window total in
    if ltb room chunk && ltb room max_data_frame_size then room else chunk

module _ {C : Type 0} where
  unfoldable pub announce : Stream → (bytes_read : ℕ) → M C (Unit {0})
  announce st bytes_read = do
    frame ← encode_local (header type_window_update 0 st.id 4) (header_size + 4)
    _ ← io_write (put_u32 header_size (window_increment st.recv_window bytes_read) frame)
    pure tt

  -- `yamux_buffer_compact` once all is read.
  unfoldable pub compact_read : Buffer → M C Buffer
  compact_read b =
      if ltb 0 b.pos && b.pos == b.used
      then (λ w. elim (Buffer.compact b) [ none ↦ none | some (_, b') ↦ some (b', w) ])
      else pure b

  unfoldable pub read_buffer : Buffer → ℕ → M C (Result × List ℕ × Buffer)
  read_buffer b len w = elim (Buffer.read b len) [ none ↦ none | some r ↦ some (r, w) ]

  -- The result, the bytes stored through `buf`, and with their number `*bytes_read`. The caller's
  -- array is there and has room for `len` bytes.
  unfoldable pub stream_read : Ptr → (len : ℕ) → M C (Result × List ℕ)
  stream_read stream len = if stream == null || len == 0 then pure (err_invalid, []) else do
    st ← load stream
    if state_code st.state == state_code closed then pure (err_closed, []) else do
      (result, bytes, b) ← read_buffer st.recvbuf len
      store stream (record st { recvbuf = b })
      if is_ok result
          then (do
            if ltb 0 (length bytes) then announce st (length bytes) else pure tt
            b' ← compact_read b
            store stream (record st { recvbuf = b' })
            pure (ok, bytes))
          else pure (result, bytes)

  -- One frame of a write: header, then chunk. True if both were written whole.
  unfoldable pub send_chunk : ℕ → List ℕ → M C Bool
  send_chunk id chunk = do
    frame ← encode_local (header type_data 0 id (length chunk)) header_size
    n ← io_write frame
    if returned n header_size
        then (do m ← io_write chunk; pure (returned m (length chunk)))
        else pure false

  -- The loop, on fuel: each round sends at least one byte, so `len_to_write + 1` rounds are enough.
  unfoldable pub write_loop : ℕ → Ptr → List ℕ → (len_to_write total : ℕ) → M C (Result × ℕ)
  write_loop zero stream buf len_to_write total = undefined
  write_loop (suc k) stream buf len_to_write total =
      let again = λ (sent : ℕ). write_loop k stream buf len_to_write sent in
      if ltb total len_to_write
      then (do
        st ← load stream
        let chunk = chunk_size total len_to_write st.send_window
        if chunk == 0
            then pure (ok, total)
            else if ltb (length buf) (total + chunk)
            then undefined
            else do
              sent ← send_chunk st.id (take chunk (drop total buf))
              if sent
                  then (do
                    store stream (record st { send_window = sub_u32 st.send_window chunk })
                    again (total + chunk))
                  else pure (err_io, total))
      else pure (ok, total)

  -- The checks of state, length and window.
  unfoldable pub write_checked : Ptr → List ℕ → (len : ℕ) → M C (Result × ℕ)
  write_checked stream buf len = do
    st ← load stream
    if state_code st.state == state_code closed
          || (state_code st.state == state_code fin_sent
              || state_code st.state == state_code fin_recv)
        then pure (err_closed, 0)
        else if len == 0
        then pure (ok, 0)
        else if st.send_window == 0
        then pure (err_would_block, 0)
        else let len_to_write = if ltb st.send_window len then st.send_window else len in
          write_loop (suc len_to_write) stream buf len_to_write 0

  -- The result and `*bytes_written_out`. `buf` is the caller's array of at least `len` bytes.
  unfoldable pub stream_write : Ptr → (buf : Option (List ℕ)) → (len : ℕ) → M C (Result × ℕ)
  stream_write stream buf len = if stream == null then pure (err_invalid, 0) else elim buf [
    | none ↦ if ltb 0 len then pure (err_invalid, 0) else write_checked stream [] len
    | some bytes ↦ write_checked stream bytes len
  ]
