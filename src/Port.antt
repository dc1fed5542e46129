-- ===== src/Port.antt =====
-- The public interface over handles (src/yamux_port.c).
pub mod Calls
use tiny_yamux.Base.{
  ℕ, ◌-◌, ◌%◌, ◌^◌, ltb, Bool, Option, none, some, List, length, ◌==◌, ◌||◌, if◌then◌else◌,
}
use tiny_yamux.Protocol.{
  Result, ok, err_invalid, err_nomem, err_io, err_closed, err_timeout, err_protocol, err_internal,
  err_invalid_stream, err_would_block, is_ok, error_normal,
}
use tiny_yamux.World.{
  for_context, Io, Ptr, null, Session, SessionPtr, no_session, the_session, M, pure, ◌>>=◌, granted,
}
use tiny_yamux.AcceptQueue.{stream_accept}
use tiny_yamux.Streams.{stream_open_detailed, stream_close, stream_get_id}
use tiny_yamux.Streams.Transfer.{stream_read, stream_write}
use tiny_yamux.Session.{
  default_config, session_create, session_close, session_process, session_ping,
}

-- `negsuc n` is -(n + 1).
pub data ℤ : Type 0 where
  pos : ℕ → ℤ
  negsuc : ℕ → ℤ

-- `(int)result`.
unfoldable pub result_code : Result → ℤ
result_code ok = pos 0
result_code err_invalid = negsuc 0
result_code err_nomem = negsuc 1
result_code err_io = negsuc 2
result_code err_closed = negsuc 3
result_code err_timeout = negsuc 4
result_code err_protocol = negsuc 5
result_code err_internal = negsuc 6
result_code err_invalid_stream = negsuc 7
result_code err_would_block = negsuc 8

-- `(int)n` of a `size_t`: the low 32 bits, in two's complement.
unfoldable pub int_of : ℕ → ℤ
int_of n = let low = n % 2 ^ 32 in if ltb low (2 ^ 31) then pos low else negsuc (2 ^ 32 - 1 - low)

-- A session handle: NULL, or a `yamux_context_t` whose `session` is `context_session`.
pub data Handle : Type 0 where
  null_handle : Handle
  context : SessionPtr → Handle

-- `ctx->session`, NULL too where there is no context.
abbrev pub session_of : Handle → SessionPtr
session_of null_handle = no_session
session_of (context session) = session

-- The sizes of the two context structures on a 64-bit target.
abbrev pub sizeof_context : ℕ
sizeof_context = 56

abbrev pub sizeof_stream_context : ℕ
sizeof_stream_context = 16

module _ {C : Type 0} where
  -- The session of the context that `yamux_init` returns, `none` for NULL.
  unfoldable pub yamux_init : (grants : ℕ → Bool) → Io C → (is_client : Bool) → Option (Session C)
  yamux_init grants io is_client =
      if grants sizeof_context
      then (let (result, session) =
            session_create grants (some io) is_client (some default_config) in
          if is_ok result then session else none)
      else none

  unfoldable pub yamux_destroy : Handle → M C (Unit {0})
  yamux_destroy handle = elim (session_of handle) [
    | no_session ↦ pure tt
    | the_session ↦ (do _ ← session_close the_session error_normal; pure tt)
  ]

  unfoldable pub yamux_process : Handle → M C ℤ
  yamux_process handle = elim (session_of handle) [
    | no_session ↦ pure (negsuc 0)
    | the_session ↦ (do result ← session_process the_session; pure (result_code result))
  ]

  -- A stream handle is the stream that its context names, and NULL is 0.
  unfoldable pub yamux_open_stream : Handle → M C Ptr
  yamux_open_stream handle = elim (session_of handle) [
    | no_session ↦ pure null
    | the_session ↦ (do
      fits ← granted for_context sizeof_stream_context
      if fits
          then (do
            (result, stream) ← stream_open_detailed the_session 0
            pure (if is_ok result then stream else null))
          else pure null)
  ]

  unfoldable pub yamux_accept_stream : Handle → M C Ptr
  yamux_accept_stream handle = elim (session_of handle) [
    | no_session ↦ pure null
    | the_session ↦ (do
      fits ← granted for_context sizeof_stream_context
      if fits
          then (do
            (result, stream) ← stream_accept the_session
            pure (if is_ok result then stream else null))
          else pure null)
  ]

  unfoldable pub yamux_close_stream : Ptr → (reset : Bool) → M C ℤ
  yamux_close_stream stream reset =
      if stream == null
      then pure (negsuc 0)
      else do result ← stream_close stream reset; pure (result_code result)

  -- The value returned, and the bytes stored through `buf`, which is not NULL.
  unfoldable pub yamux_read : Ptr → (len : ℕ) → M C (ℤ × List ℕ)
  yamux_read stream len = if stream == null || len == 0 then pure (negsuc 0, List.[]) else do
    (result, bytes) ← stream_read stream len
    pure (if is_ok result then int_of (length bytes) else result_code result, bytes)

  unfoldable pub yamux_write : Ptr → (buf : Option (List ℕ)) → (len : ℕ) → M C ℤ
  yamux_write stream buf len = elim buf [
    | none ↦ pure (negsuc 0)
    | some bytes ↦
        (if stream == null || len == 0 then pure (negsuc 0) else do
          (result, written) ← stream_write stream (some bytes) len
          pure (if is_ok result then int_of written else result_code result))
  ]

  unfoldable pub yamux_get_stream_id : Ptr → M C ℕ
  yamux_get_stream_id stream = if stream == null then pure 0 else stream_get_id stream

  unfoldable pub yamux_ping : Handle → M C ℤ
  yamux_ping handle = elim (session_of handle) [
    | no_session ↦ pure (negsuc 0)
    | the_session ↦ (do result ← session_ping the_session; pure (result_code result))
  ]
