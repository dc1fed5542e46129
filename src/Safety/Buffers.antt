-- ===== src/Safety/Buffers.antt =====
-- The receive buffer's operations in a state in order (src/yamux_buffer.c).
use tiny_yamux.Base.{
  ℕ, ◌^◌, ◌<◌, ◌≤◌, ◌≡◌, ◌≢◌, ◌⊎◌, inl, inr, refl, sym, ap, arith, Bool, true, some, List, [],
  length, Bool-cases, ==-false,
}
use tiny_yamux.Protocol.{Result, ok, err_nomem, initial_buffer_size}
use tiny_yamux.Buffer
use tiny_yamux.Buffer.{Buffer}
use tiny_yamux.Buffer.Queue.{Represents}
use tiny_yamux.Buffer.Starts.{init-Represents}
use tiny_yamux.Buffer.Appends.{write_appends}
use tiny_yamux.Buffer.Takes.{read_takes, compact_keeps}
use tiny_yamux.World.{zero_buffer}
use tiny_yamux.Safety.{IsBounded, IsBuffer}
use tiny_yamux.Safety.Emptied.{empty, empty-Represents, write-freed_refused, write_freed}

-- A write leaves the size or takes one that the allocator gave.
store-size : (b b' : Buffer) (bytes : List ℕ) → Buffer.store b bytes ≡ some b' → b'.size ≡ b.size
unfolding Buffer.store
store-size b b' bytes e = grind arith

reserve-size :
    (grants : ℕ → Bool) (b b' : Buffer) (len : ℕ)
    → Buffer.reserve grants b len ≡ some b'
    → (b'.size ≡ b.size) ⊎ (grants b'.size ≡ true)
unfolding Buffer.reserve
reserve-size grants b b' len e = grind arith

write-size :
    (grants : ℕ → Bool) (b b' : Buffer) (source : List ℕ) (len : ℕ) (r : Result)
    → Buffer.write grants b (some source) len ≡ some (r, b')
    → (b'.size ≡ b.size) ⊎ (grants b'.size ≡ true)
unfolding Buffer.write Buffer.write_bytes
write-size grants b b' source len r e = grind (arith, reserve-size, store-size)

-- A write, whatever the allocator says.
pub write-IsBuffer :
    {b : Buffer} (grants : ℕ → Bool) (source : List ℕ) (len : ℕ)
    → IsBounded grants
    → IsBuffer b
    → len ≢ 0
    → len ≤ length source
    → len < 2 ^ 63
    → (r : Result) × (b' : Buffer) × (Buffer.write grants b (some source) len ≡ some (r, b'))
      × IsBuffer b'
write-IsBuffer {b} grants source len alloc buf ne held fits = elim buf.kept [
  | inl (q, rep) ↦
      elim (write_appends grants source len rep ne held (omega (arith, used_fits rep))) [
        | inl (b', e, rep', _) ↦
            (ok, b', e, record { kept = inl (_, rep'); size_fits = bounded b e buf.size_fits })
        | inr (e, _, _) ↦ (err_nomem, b, e, buf)
      ]
  | inr e ↦ rw e (elim (write_appends grants source len empty-Represents ne held (omega arith)) [
    | inl (b', e', rep', _) ↦ (
      ok,
      b',
      write_freed grants source len b' ne held fits e',
      record { kept = inl (_, rep'); size_fits = bounded empty e' (omega arith) },
    )
    | inr (e', _, _) ↦ (
      err_nomem,
      zero_buffer,
      write-freed_refused grants source len ne held fits e',
      record { kept = inr refl; size_fits = omega arith },
    )
  ])
]
  where
    bounded :
        (b₁ : Buffer) {b' : Buffer} {r : Result}
        → Buffer.write grants b₁ (some source) len ≡ some (r, b')
        → b₁.size < 2 ^ 63
        → b'.size < 2 ^ 63
    bounded b₁ {b'} {r} e small = elim (write-size grants b₁ b' source len r e) [
      | inl same ↦ omega arith
      | inr given ↦ alloc b'.size given
    ]

    used_fits : {q : List ℕ} → Represents b q → b.used < 2 ^ 63
    used_fits (block, h, e) = omega (arith, h.used_in, buf.size_fits)

-- A read, and the compaction behind it.
read-size :
    (b b' : Buffer) (len : ℕ) (r : Result) (bytes : List ℕ)
    → Buffer.read b len ≡ some (r, bytes, b')
    → b'.size ≡ b.size
unfolding Buffer.read Buffer.read_bytes
read-size b b' len r bytes e = grind arith

compact-size : (b b' : Buffer) (r : Result) → Buffer.compact b ≡ some (r, b') → b'.size ≡ b.size
unfolding Buffer.compact Buffer.shift_down
compact-size b b' r e = grind arith

pub read-IsBuffer :
    {b : Buffer} (len : ℕ)
    → IsBuffer b
    → len ≢ 0
    → (bytes : List ℕ) × (b' : Buffer) × (Buffer.read b len ≡ some (ok, bytes, b')) × IsBuffer b'
unfolding Buffer.read
read-IsBuffer {b} len buf ne = elim buf.kept [
  | inl (q, rep) ↦
      let (b', e, rep') = read_takes len rep ne in
      (
        _,
        b',
        e,
        record { kept = inl (_, rep'); size_fits = rw (read-size b b' len ok _ e) buf.size_fits },
      )
  | inr e ↦ rw e (
    [],
    zero_buffer,
    rw (==-false len 0 ne) refl,
    record { kept = inr refl; size_fits = omega arith },
  )
]

pub compact-IsBuffer :
    {b : Buffer} → IsBuffer b → (b' : Buffer) × (Buffer.compact b ≡ some (ok, b')) × IsBuffer b'
unfolding Buffer.compact
compact-IsBuffer {b} buf = elim buf.kept [
  | inl (q, rep) ↦
      let (b', e, rep', _, _) = compact_keeps rep in
      (
        b',
        e,
        record { kept = inl (_, rep'); size_fits = rw (compact-size b b' ok e) buf.size_fits },
      )
  | inr e ↦ rw e (zero_buffer, refl, record { kept = inr refl; size_fits = omega arith })
]

-- A new buffer, or one that could not be had.
pub init-IsBuffer :
    (grants : ℕ → Bool)
    → (r : Result) × (b : Buffer) × (Buffer.init grants zero_buffer initial_buffer_size ≡ (r, b))
      × IsBuffer b
unfolding Buffer.init
init-IsBuffer grants = elim (Bool-cases (grants initial_buffer_size)) [
  | inl given ↦
      let (b, e, rep) =
        init-Represents grants zero_buffer initial_buffer_size given (omega arith) (omega arith) in
      (
        ok,
        b,
        e,
        record { kept = inl ([], rep); size_fits = rw (sym (made_size given b e)) (omega arith) },
      )
  | inr refused ↦
      (err_nomem, zero_buffer, rw refused refl, record { kept = inr refl; size_fits = omega arith })
]
  where
    made_size :
        grants initial_buffer_size ≡ true
        → (b : Buffer) → Buffer.init grants zero_buffer initial_buffer_size ≡ (ok, b)
        → initial_buffer_size ≡ b.size
    made_size given b e = ap (λ o. o.1.size) (rw given at e)
