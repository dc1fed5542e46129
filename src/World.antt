-- ===== src/World.antt =====
-- The state that the library works on (src/yamux_internal.h): one session, the streams that it
-- allocates, and the connection behind its two callbacks. A function of the source is a command over
-- it; `none` is behaviour that C leaves undefined (a dangling pointer, an access outside an array).
pub mod Laws
pub mod Calls
use tiny_yamux.Base.{
  ℕ, suc, ◌+◌, Bool, true, false, Option, none, some, List, [], ◌∷◌, ◌++◌, take, drop, replicate,
  length, ltb, ◌==◌, if◌then◌else◌,
}
use tiny_yamux.Protocol.{Result, Header, StreamState, idle, Config, be32}
use tiny_yamux.Frame.{Encoded, encoded, encode_header}
use tiny_yamux.Buffer.{Buffer}

-- An address of a stream; 0 is NULL. An address is not used again once it is freed.
abbrev pub Ptr : Type 0
Ptr = ℕ

abbrev pub null : Ptr
null = 0

-- `yamux_io_t`, which the application supplies. A callback may change what its context points to.
-- `read ctx len` is what it stores, whose number it returns, and `none` for a negative result;
-- `write ctx bytes` is the number that it returns, and `none` for a negative one; `write_null ctx len`
-- is a call with NULL for the bytes, which may be undefined (the outer `none`).
pub record Io (C : Type 0) : Type 0 where
  pub read : C → ℕ → Option (List ℕ) × C
  pub write : C → List ℕ → Option ℕ × C
  pub write_null : C → ℕ → Option (Option ℕ × C)

-- `struct yamux_stream`. Its `session` is the one session.
pub record Stream : Type 0 where
  pub id : ℕ
  pub state : StreamState
  pub recvbuf : Buffer
  pub send_window : ℕ
  pub recv_window : ℕ
  pub next : Ptr

-- `struct yamux_session`, less the fields that no function reads or writes. `streams` is the array;
-- the code assigns `go_away_received` 0 or 1 only.
pub record Session (C : Type 0) : Type 0 where
  pub io : Io C
  pub client : Bool
  pub next_stream_id : ℕ
  pub go_away_received : Bool
  pub streams : List Ptr
  pub stream_count : ℕ
  pub stream_capacity : ℕ
  pub accept_queue : Ptr
  pub config : Config
  pub recv_buf : Option (List ℕ)
  pub recv_buf_size : ℕ

-- What memory is asked for; a call asks at most once for each of these.
pub data Purpose : Type 0 where
  for_stream for_buffer for_table for_recv_buf for_context : Purpose

-- `grants purpose n` says whether the allocator gives `n` bytes for that use in the call at hand; another
-- call may find another allocator. `fresh` is the address that it gives
-- next, `ctx` is what the callbacks' context points to, and `sent` lists the calls of `write`.
pub record World (C : Type 0) : Type 0 where
  pub session : Session C
  pub heap : Ptr → Option Stream
  pub fresh : Ptr
  pub grants : Purpose → ℕ → Bool
  pub ctx : C
  pub sent : List (List ℕ)

-- The world with another allocator.
abbrev pub with_allocator : {C : Type 0} → World C → (Purpose → ℕ → Bool) → World C
with_allocator w grants = record w { grants = grants }

-- An argument of type `yamux_session_t *`: NULL, or the session.
pub data SessionPtr : Type 0 where
  no_session the_session : SessionPtr

abbrev pub M : Type 0 → Type 0 → Type 0
M C A = World C → Option (A × World C)

abbrev pub pure : {C A : Type 0} → A → M C A
pure a w = some (a, w)

abbrev pub undefined : {C A : Type 0} → M C A
undefined w = none

infixl 5 ◌>>=◌ ◌>>◌
abbrev pub ◌>>=◌ : {C A B : Type 0} → M C A → (A → M C B) → M C B
◌>>=◌ m f w = elim (m w) [ none ↦ none | some (a, w') ↦ f a w' ]

abbrev pub ◌>>◌ : {C B : Type 0} → M C (Unit {0}) → M C B → M C B
m >> k = m >>= λ _. k

-- `if (!session) return refusal;` in front of a body.
abbrev pub with_session : {C A : Type 0} → SessionPtr → A → M C A → M C A
with_session no_session refusal body = pure refusal
with_session the_session refusal body = body

abbrev pub update : (Ptr → Option Stream) → Ptr → Option Stream → Ptr → Option Stream
update f p v q = if q == p then v else f q

module _ {C : Type 0} where
  abbrev pub get_session : M C (Session C)
  get_session w = some (w.session, w)

  abbrev pub set_session : Session C → M C (Unit {0})
  set_session s w = some (tt, record w { session = s })

  abbrev pub granted : Purpose → ℕ → M C Bool
  granted purpose n w = some (w.grants purpose n, w)

  abbrev pub allocator : Purpose → M C (ℕ → Bool)
  allocator purpose w = some (w.grants purpose, w)

  -- `*stream`.
  unfoldable pub load : Ptr → M C Stream
  load p w = if p == null then none else elim (w.heap p) [ none ↦ none | some st ↦ some (st, w) ]

  -- `*stream = st`, of a stream that is there.
  unfoldable pub store : Ptr → Stream → M C (Unit {0})
  store p st = do _ ← load p; λ w. some (tt, record w { heap = update w.heap p (some st) })

  unfoldable pub free_stream : Ptr → M C (Unit {0})
  free_stream p = do _ ← load p; λ w. some (tt, record w { heap = update w.heap p none })

  -- `malloc(sizeof(yamux_stream_t))`, granted, and the values stored there before its first use.
  unfoldable pub new_stream : Stream → M C Ptr
  new_stream st w =
      some (w.fresh, record w { heap = update w.heap w.fresh (some st); fresh = suc w.fresh })

  -- `session->io.read(session->io.ctx, buf, len)`.
  unfoldable pub io_read : ℕ → M C (Option (List ℕ))
  io_read len w = let (got, c) = w.session.io.read w.ctx len in some (got, record w { ctx = c })

  -- `session->io.write(session->io.ctx, buf, len)`; `bytes` are the `len` bytes.
  unfoldable pub io_write : List ℕ → M C (Option ℕ)
  io_write bytes w =
      let (n, c) = w.session.io.write w.ctx bytes in
      some (n, record w { ctx = c; sent = w.sent ++ (bytes ∷ []) })

  -- The same with NULL for the bytes, which are not listed in `sent`.
  unfoldable pub io_write_null : ℕ → M C (Option ℕ)
  io_write_null len w = elim (w.session.io.write_null w.ctx len) [
    | none ↦ none
    | some (n, c) ↦ some (n, record w { ctx = c })
  ]

  -- `yamux_encode_header` into a local array of `size` bytes.
  unfoldable pub encode_local : Header → (size : ℕ) → M C (List ℕ)
  encode_local h size = elim (encode_header h (some (replicate size 0))) [
    | encoded _ none ↦ undefined
    | encoded _ (some frame) ↦ pure frame
    | Encoded.undefined ↦ undefined
  ]

-- The size of `yamux_stream_t` and of a pointer, on a 64-bit target.
abbrev pub sizeof_stream : ℕ
sizeof_stream = 64

abbrev pub sizeof_pointer : ℕ
sizeof_pointer = 8

-- Four bytes of an array overwritten, big-endian, from index `at`.
unfoldable pub put_u32 : (at : ℕ) → ℕ → List ℕ → List ℕ
put_u32 at v frame = take at frame ++ (be32 v ++ drop (at + 4) frame)

-- `result == n` for the result of a callback.
abbrev pub returned : Option ℕ → ℕ → Bool
returned none n = false
returned (some m) n = m == n

-- `yamux_stream_t` as `memset` leaves it.
abbrev pub zero_buffer : Buffer
zero_buffer = record { block = none; size = 0; used = 0; pos = 0 }

abbrev pub zero_stream : Stream
zero_stream = record {
  id = 0;
  state = idle;
  recvbuf = zero_buffer;
  send_window = 0;
  recv_window = 0;
  next = 0;
}
