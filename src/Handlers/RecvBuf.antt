-- ===== src/Handlers/RecvBuf.antt =====
-- The session's receive buffer (src/yamux_handlers.c).
use tiny_yamux.Base.{
  ℕ, ◌-◌, ◌<◌, ◌≤◌, ◌≡◌, ◌⊎◌, inl, inr, refl, sym, ap, arith, true, false, Option, none, some, List,
  [], ◌∷◌, ◌++◌, length, drop, ltb, Bool-cases, ltb-false, leb-true, length-append, length-take,
  length-replicate, replicate, ltb→lt, ltb→le,
}
use tiny_yamux.Buffer
use tiny_yamux.Buffer.{Buffer}
use tiny_yamux.World.{for_recv_buf, Ptr, Session, World, ◌>>=◌, ◌>>◌, io_read}
use tiny_yamux.World.Calls.{after_read}
use tiny_yamux.Handlers.{fill_recv_buf, reserve_recv_buf, deliver, read_payload}

-- `recv_buf` is NULL, or an array of the size that the session notes.
pub record HasRecvBuf {C : Type 0} (s : Session C) : Type 0 where
  pub is_sized :
      ((s.recv_buf ≡ none) × (s.recv_buf_size ≡ 0))
      ⊎ ((old : List ℕ) × (s.recv_buf ≡ some old) × (length old ≡ s.recv_buf_size))

-- The session with another receive buffer.
unfoldable pub rebuffered : {C : Type 0} → World C → List ℕ → ℕ → World C
rebuffered w block size = record w {
  session = record w.session { recv_buf = some block; recv_buf_size = size };
}

module _ {C : Type 0} (w : World C) (block : List ℕ) (size : ℕ) where
  pub heap-rebuffered : (rebuffered w block size).heap ≡ w.heap
  unfolding rebuffered
  heap-rebuffered = refl

  pub recv_buf-rebuffered : (rebuffered w block size).session.recv_buf ≡ some block
  unfolding rebuffered
  recv_buf-rebuffered = refl

length-resize :
    (old : Option (List ℕ)) (n : ℕ)
    → elim old [ none ↦ 0 | some xs ↦ length xs ] ≤ n
    → length (Buffer.resize old n) ≡ n
unfolding Buffer.resize
length-resize none n h = length-replicate {A = ℕ} n 0
length-resize (some xs) n h = omega (
  arith,
  length-take n (xs ++ replicate (n - length xs) 0),
  length-append xs (replicate (n - length xs) 0),
  length-replicate {A = ℕ} (n - length xs) 0,
)

pub recv_buf-fits :
    {C : Type 0} (s : Session C)
    → HasRecvBuf s
    → elim s.recv_buf [ none ↦ 0 | some xs ↦ length xs ] ≡ s.recv_buf_size
recv_buf-fits s has_buf = elim has_buf.is_sized [
  | inl (e, e') ↦ rw e (sym e')
  | inr (old, e, sized) ↦ rw e sized
]

-- Either there is a block of `len` bytes or more now, or the allocator refuses.
pub reserve_recv_buf-Outcome :
    {C : Type 0} (w : World C) (len : ℕ)
    → HasRecvBuf w.session
    → 0 < len
    → ((block : List ℕ) × (size : ℕ) × (reserve_recv_buf len w
          ≡ some (true, rebuffered w block size))
        × (length block ≡ size)
        × (len ≤ size))
      ⊎ ((reserve_recv_buf len w ≡ some (false, w))
          × (w.session.recv_buf_size < len)
          × (w.grants for_recv_buf len ≡ false))
unfolding reserve_recv_buf rebuffered
reserve_recv_buf-Outcome w len has_buf some_bytes =
    elim (Bool-cases (ltb w.session.recv_buf_size len)) [
      | inl small ↦ elim (Bool-cases (w.grants for_recv_buf len)) [
        | inl fits ↦ inl (
          Buffer.resize w.session.recv_buf len,
          len,
          simp (reserve_recv_buf, ◌>>=◌, ◌>>◌, small, fits) refl,
          length-resize w.session.recv_buf len (
              omega
                (arith, recv_buf-fits w.session has_buf, ltb→lt w.session.recv_buf_size len small)),
          omega arith,
        )
        | inr refused ↦ inr (
          simp (reserve_recv_buf, ◌>>=◌, ◌>>◌, small, refused) refl,
          ltb→lt w.session.recv_buf_size len small,
          refused,
        )
      ]
      | inr large ↦ elim has_buf.is_sized [
        | inl (e, e') ↦ absurd (omega (arith, ltb→le w.session.recv_buf_size len large))
        | inr (old, e, sized) ↦ inl (
          old,
          w.session.recv_buf_size,
          simp (reserve_recv_buf, ◌>>=◌, large)
              (ap (λ b. some (true, record w { session = record w.session { recv_buf = b } })) e),
          sized,
          ltb→le w.session.recv_buf_size len large,
        )
      ]
    ]

pub fill_recv_buf-fits :
    {C : Type 0} (w : World C) (bytes old : List ℕ)
    → w.session.recv_buf ≡ some old
    → length bytes ≤ length old
    → 0 < length bytes
    → fill_recv_buf bytes w
      ≡ some (tt, rebuffered w (bytes ++ drop (length bytes) old) w.session.recv_buf_size)
unfolding fill_recv_buf rebuffered
fill_recv_buf-fits w [] old e fits pos = absurd (omega arith)
fill_recv_buf-fits w (b ∷ bytes) old e fits pos =
    simp (fill_recv_buf, ◌>>=◌, e, leb-true _ _ fits) refl

-- The world once the callback has stored `bytes` at the start of the block.
unfoldable pub received : {C : Type 0} → World C → (bytes block : List ℕ) → ℕ → World C
received w bytes block size =
    rebuffered (after_read (rebuffered w block size) (length bytes))
      (bytes ++ drop (length bytes) block) size

module _ {C : Type 0} (w : World C) (bytes block : List ℕ) (size : ℕ)
    (got : (w.session.io.read w.ctx (length bytes)).0 ≡ some bytes) (sized : length block ≡ size)
    (fits : length bytes ≤ size) (some_bytes : 0 < length bytes) where
  io_read-ready :
      io_read (length bytes) (rebuffered w block size)
      ≡ some (some bytes, after_read (rebuffered w block size) (length bytes))
  unfolding rebuffered io_read after_read
  io_read-ready = rw got refl

  fill_recv_buf-ready :
      fill_recv_buf bytes (after_read (rebuffered w block size) (length bytes))
      ≡ some (tt, received w bytes block size)
  unfolding rebuffered after_read received
  fill_recv_buf-ready =
      fill_recv_buf-fits (after_read (rebuffered w block size) (length bytes)) bytes block refl
        (omega arith) some_bytes

  pub read_payload-received :
      (p : Ptr)
      → reserve_recv_buf (length bytes) w ≡ some (true, rebuffered w block size)
      → read_payload p (length bytes) w ≡ deliver p (length bytes) (received w bytes block size)
  unfolding read_payload
  read_payload-received p reserved =
      simp
        (
          read_payload,
          ◌>>=◌,
          ◌>>◌,
          reserved,
          io_read-ready,
          fill_recv_buf-ready,
          ltb-false (length bytes) (length bytes) (omega arith),
        )
        refl
