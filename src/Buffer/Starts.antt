-- ===== src/Buffer/Starts.antt =====
-- A new buffer is an empty queue (src/yamux_buffer.c).
use tiny_yamux.Base.{
  ℕ, ◌^◌, ◌<◌, ◌≡◌, refl, arith, Bool, true, some, [], replicate, length-replicate, ==-false,
}
use tiny_yamux.Protocol.{ok}
use tiny_yamux.Buffer
use tiny_yamux.Buffer.{Buffer}
use tiny_yamux.Buffer.Queue.{Represents}

pub init-Represents :
    (grants : ℕ → Bool) (b : Buffer) (n : ℕ)
    → grants n ≡ true
    → 0 < n
    → n < 2 ^ 64
    → (b' : Buffer) × (Buffer.init grants b n ≡ (ok, b')) × Represents b' []
unfolding Buffer.init
init-Represents grants b n fits pos small = (
  record { block = some (replicate n 0); size = n; used = 0; pos = 0 },
  rw (==-false n 0 (λ e. absurd (omega arith)), fits) refl,
  (
    replicate n 0,
    record {
      points = refl;
      sized = length-replicate {A = ℕ} n 0;
      size_fits = small;
      used_in = omega arith;
      pos_in = omega arith;
    },
    refl,
  ),
)
