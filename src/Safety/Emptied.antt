-- ===== src/Safety/Emptied.antt =====
-- A buffer that was freed (src/yamux_buffer.c).
use tiny_yamux.Base.{
  ℕ, ◌+◌, ◌-◌, ◌^◌, ◌<◌, ◌≤◌, ◌≡◌, ◌≢◌, inl, inr, refl, arith, Bool, none, some, List, [], length,
  take, replicate, ltb, Bool-cases, take_all, length-replicate, length-take, ◌%◌,
}
use tiny_yamux.Protocol.{ok, err_nomem}
use tiny_yamux.Buffer
use tiny_yamux.Buffer.{Buffer}
use tiny_yamux.Buffer.Queue.{Represents}
use tiny_yamux.World.{zero_buffer}

-- A buffer of no bytes, in use.
abbrev pub empty : Buffer
empty = record { block = some []; size = 0; used = 0; pos = 0 }

pub empty-Represents : Represents empty []
empty-Represents = (
  [],
  record {
    points = refl;
    sized = refl;
    size_fits = omega arith;
    used_in = omega arith;
    pos_in = omega arith;
  },
  refl,
)

resize-empty : (n : ℕ) → Buffer.resize (some []) n ≡ Buffer.resize none n
unfolding Buffer.resize replicate
resize-empty n =
    let same : n - 0 ≡ n = omega arith in
    rw same (take_all n (replicate {A = ℕ} n 0) (omega (arith, length-replicate {A = ℕ} n 0)))

-- A freed buffer is allocated anew like an empty one.
reserve_freed :
    (grants : ℕ → Bool) (n : ℕ)
    → 0 < n
    → n < 2 ^ 63
    → Buffer.reserve grants zero_buffer n ≡ Buffer.reserve grants empty n
unfolding Buffer.reserve Buffer.new_size
reserve_freed grants n pos small = elim (Bool-cases (ltb 0 ((0 + n) % 2 ^ 64))) [
  | inr e ↦ absurd (ground arith)
  | inl e ↦ rw (e, resize-empty _) refl
]

pub write_freed :
    (grants : ℕ → Bool) (source : List ℕ) (len : ℕ) (b' : Buffer)
    → len ≢ 0
    → len ≤ length source
    → len < 2 ^ 63
    → Buffer.write grants empty (some source) len ≡ some (ok, b')
    → Buffer.write grants zero_buffer (some source) len ≡ some (ok, b')
unfolding Buffer.write Buffer.write_bytes
write_freed grants source len b' ne held fits e = grind (
  arith,
  reserve_freed grants (length (take len source)) (omega (arith, length-take len source))
      (omega (arith, length-take len source)),
)

pub write-freed_refused :
    (grants : ℕ → Bool) (source : List ℕ) (len : ℕ)
    → len ≢ 0
    → len ≤ length source
    → len < 2 ^ 63
    → Buffer.write grants empty (some source) len ≡ some (err_nomem, empty)
    → Buffer.write grants zero_buffer (some source) len ≡ some (err_nomem, zero_buffer)
unfolding Buffer.write Buffer.write_bytes
write-freed_refused grants source len ne held fits e = grind (
  arith,
  reserve_freed grants (length (take len source)) (omega (arith, length-take len source))
      (omega (arith, length-take len source)),
)
