-- ===== src/Buffer/Queue.antt =====
-- The buffer as a queue of unread bytes (src/yamux_buffer.c).
use tiny_yamux.Base.{
  ℕ, ◌-◌, ◌^◌, ◌≤◌, ◌<◌, ◌≡◌, arith, some, List, length, take, drop, length-take, length-drop,
}
use tiny_yamux.Buffer.{Buffer}

-- `block` is what the buffer points to, and the counters lie in it.
pub record Holds (b : Buffer) (block : List ℕ) : Type 0 where
  pub points : b.block ≡ some block
  pub sized : length block ≡ b.size
  pub size_fits : b.size < 2 ^ 64
  pub used_in : b.used ≤ b.size
  pub pos_in : b.pos ≤ b.used

-- The bytes that are written and not yet read.
abbrev pub unread : Buffer → List ℕ → List ℕ
unread b block = take (b.used - b.pos) (drop b.pos block)

-- The buffer is well formed, and `q` is what it has to be read.
abbrev pub Represents : Buffer → List ℕ → Type 0
Represents b q = (block : List ℕ) × Holds b block × (unread b block ≡ q)

pub length-unread : {b : Buffer} {q : List ℕ} → Represents b q → length q ≡ b.used - b.pos
length-unread {b} {q} (block, h, e) =
    rw (← e)
      (omega (arith, length-take (b.used - b.pos) (drop b.pos block), length-drop b.pos block))
