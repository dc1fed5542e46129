-- ===== src/Buffer.antt =====
-- The receive buffer (src/yamux_buffer.c). A block of memory is the list of its bytes; NULL is `none`.
-- `none` as an outcome is an access outside of a block. `grants n` says whether the allocator can
-- give `n` bytes; the bytes that it gives are unspecified in C, and 0 here.
pub mod Starts
pub mod Appends
pub mod Takes
pub mod Queue
use tiny_yamux.Base.{
  ℕ, ◌+◌, ◌-◌, ◌*◌, ◌%◌, ◌^◌, Bool, Option, none, some, List, [], ◌∷◌, ◌++◌, length, take, drop,
  replicate, ltb, leb, ◌==◌, if◌then◌else◌,
}
use tiny_yamux.Protocol.{Result, ok, err_invalid, err_nomem, add_size, sub_size}

-- `yamux_buffer_t`; `block` is `data`.
pub record Buffer : Type 0 where
  pub block : Option (List ℕ)
  pub size : ℕ
  pub used : ℕ
  pub pos : ℕ

-- A call's result and the buffer that it leaves.
abbrev pub Outcome : Type 0
Outcome = Option (Result × Buffer)

unfoldable pub init : (ℕ → Bool) → Buffer → ℕ → Result × Buffer
init grants b initial_size =
    if initial_size == 0
    then (err_invalid, b)
    else if grants initial_size
    then (
      ok,
      record { block = some (replicate initial_size 0); size = initial_size; used = 0; pos = 0 },
    )
    else (err_nomem, record b { block = none })

unfoldable pub free : Buffer → Buffer
free b = record { block = none; size = 0; used = 0; pos = 0 }

-- `realloc(data, n)`, granted.
unfoldable pub resize : Option (List ℕ) → ℕ → List ℕ
resize none n = replicate n 0
resize (some block) n = take n (block ++ replicate (n - length block) 0)

-- The doubled size, or what the new data needs.
unfoldable pub new_size : Buffer → ℕ → ℕ
new_size b len =
    let doubled = b.size * 2 % 2 ^ 64 in
    if ltb doubled (add_size b.used len) then add_size b.used len else doubled

-- The resizing of `yamux_buffer_write`; `none` where the allocator refuses.
unfoldable pub reserve : (ℕ → Bool) → Buffer → ℕ → Option Buffer
reserve grants b len =
    if ltb b.size (add_size b.used len)
    then (if grants (new_size b len)
        then some record b { block = some (resize b.block (new_size b len)); size = new_size b len }
        else none)
    else some b

-- `memcpy(data + used, src, len)` and the count of the bytes.
unfoldable pub store : Buffer → List ℕ → Option Buffer
store b bytes = elim b.block [
  | none ↦ none
  | some block ↦
      if leb (b.used + length bytes) (length block)
      then some record b {
        block = some (take b.used block ++ (bytes ++ drop (b.used + length bytes) block));
        used = add_size b.used (length bytes);
      }
      else none
]

-- The write behind the guards; `bytes` are the `len` bytes of the source.
unfoldable pub write_bytes : (ℕ → Bool) → Buffer → List ℕ → Outcome
write_bytes grants b bytes = elim (reserve grants b (length bytes)) [
  | none ↦ some (err_nomem, b)
  | some b' ↦ elim (store b' bytes) [ none ↦ none | some b'' ↦ some (ok, b'') ]
]

unfoldable pub write : (ℕ → Bool) → Buffer → Option (List ℕ) → (len : ℕ) → Outcome
write grants b none len = some (err_invalid, b)
write grants b (some source) len =
    if len == 0
    then some (err_invalid, b)
    else if ltb (length source) len
    then none
    else write_bytes grants b (take len source)

-- The bytes that `yamux_buffer_read` copies out and the buffer after it, for a length not above what
-- is available.
unfoldable pub read_bytes : Buffer → ℕ → Option (List ℕ × Buffer)
read_bytes b len = elim b.block [
  | none ↦ none
  | some block ↦
      if leb (b.pos + len) (length block)
      then some (take len (drop b.pos block), record b { pos = add_size b.pos len })
      else none
]

-- The caller's array holds at least `len` bytes; what is stored there is part of the outcome, and
-- `*bytes_read` is its length.
unfoldable pub read : Buffer → (len : ℕ) → Option (Result × List ℕ × Buffer)
read b len =
    if len == 0
    then some (err_invalid, [], b)
    else let available = sub_size b.used b.pos in
      if available == 0
      then some (ok, [], b)
      else elim (read_bytes b (if ltb available len then available else len)) [
        | none ↦ none
        | some (bytes, b') ↦ some (ok, bytes, b')
      ]

-- `memmove(data, data + pos, used - pos)`.
unfoldable pub shift_down : Buffer → Option (Option (List ℕ))
shift_down b =
    if ltb b.pos b.used
    then elim b.block [
      | none ↦ none
      | some block ↦
          if leb b.used (length block)
          then some (some (take (b.used - b.pos) (drop b.pos block) ++ drop (b.used - b.pos) block))
          else none
    ]
    else some b.block

unfoldable pub compact : Buffer → Outcome
compact b = if b.pos == 0 then some (ok, b) else elim (shift_down b) [
  | none ↦ none
  | some block ↦ some (ok, record b { block = block; used = sub_size b.used b.pos; pos = 0 })
]
