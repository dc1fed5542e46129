-- ===== src/Buffer/Takes.antt =====
-- Reading and compacting the queue (src/yamux_buffer.c).
use tiny_yamux.Base.{
  ℕ, ◌+◌, ◌-◌, ◌≤◌, ◌≡◌, ◌≢◌, inl, inr, refl, ap, arith, true, Bool-cases, some, List, [], ◌++◌,
  length, take, drop, ltb, ◌==◌, length-append, length-take, length-drop, drop-drop, take_all,
  leb-true, ==-false, ◌∙◌, take-take_le, drop-take, drop_all, nil_of_length, take-nil, drop-nil,
  ltb→lt, ltb→le, ==_iff, take-append_exact,
}
use tiny_yamux.Protocol.{ok, add_size, sub_size}
use tiny_yamux.Buffer
use tiny_yamux.Buffer.{
  Buffer, Outcome, resize, new_size, reserve, store, write_bytes, read_bytes, shift_down,
}
use tiny_yamux.Buffer.Queue.{Holds, Represents, length-unread, unread}

read_bytes_lem :
    {b : Buffer} {block : List ℕ} (len : ℕ)
    → Holds b block
    → len ≤ b.used - b.pos
    → (b' : Buffer) × (read_bytes b len ≡ some (take len (drop b.pos block), b'))
      × Holds b' block
      × (b'.used ≡ b.used)
      × (b'.pos ≡ b.pos + len)
unfolding read_bytes
read_bytes_lem {b} {block} len h fits = (
  record b { pos = add_size b.pos len },
  rw (h.points, leb-true (b.pos + len) (length block) (omega arith)) refl,
  record {
    points = h.points;
    sized = h.sized;
    size_fits = h.size_fits;
    used_in = h.used_in;
    pos_in = omega arith;
  },
  refl,
  omega arith,
)

read_some :
    {b : Buffer} {block : List ℕ} (len : ℕ)
    → Holds b block
    → len ≤ b.used - b.pos
    → (b' : Buffer) × (read_bytes b len ≡ some (take len (unread b block), b'))
      × Represents b' (drop len (unread b block))
read_some {b} {block} len h fits =
    let (b', got, h', used', pos') = read_bytes_lem len h fits in
    (
      b',
      rw (take-take_le len (b.used - b.pos) (drop b.pos block) fits) got,
      (
        block,
        h',
        rw
            (
              used',
              pos',
              drop-take len (b.used - b.pos) (drop b.pos block),
              drop-drop len b.pos block,
            )
            (ap (λ n. take n (drop (b.pos + len) block)) (omega arith)),
      ),
    )

-- A call of `yamux_buffer_read` for `len` bytes, 0 < `len`, always succeeds, takes the first `len`
-- unread bytes, or all if there are fewer, and leaves the rest. It never reads outside of its block.
pub read_takes :
    {b : Buffer} {q : List ℕ} (len : ℕ)
    → Represents b q
    → len ≢ 0
    → (b' : Buffer) × (Buffer.read b len ≡ some (ok, take len q, b')) × Represents b' (drop len q)
unfolding Buffer.read
read_takes {b} {q} len (block, h, e) ne =
    rw (==-false len 0 ne, stored)
      (elim (Bool-cases (b.used - b.pos == 0)) [
        | inl none_left ↦
            rw (none_left, empty none_left, take-nil len, drop-nil len)
              (b, refl, (block, h, e ∙ empty none_left))
        | inr some_left ↦ rw some_left (elim (Bool-cases (ltb (b.used - b.pos) len)) [
          | inl short ↦
              let (b', got, rep') = read_some (b.used - b.pos) h (omega arith) in
              let ge = ltb→lt _ _ short in
              (
                b',
                rw
                    (
                      short,
                      got,
                      e,
                      take_all (b.used - b.pos) q (omega (arith, left)),
                      take_all len q (omega (arith, left)),
                    )
                    refl,
                rw (drop_all len q (omega (arith, left)))
                    (rw (e, drop_all (b.used - b.pos) q (omega (arith, left))) at rep'),
              )
          | inr enough ↦
              let (b', got, rep') = read_some len h (ltb→le _ _ enough) in
              (b', rw (enough, got, e) refl, rw e at rep')
        ])
      ])
  where
    left : length q ≡ b.used - b.pos
    left = length-unread (block, h, e)

    stored : sub_size b.used b.pos ≡ b.used - b.pos
    stored = omega arith

    empty : (b.used - b.pos == 0) ≡ true → q ≡ []
    empty t = nil_of_length q (left ∙ (==_iff _ _).0 t)

shift_down_lem :
    {b : Buffer} {block : List ℕ}
    → Holds b block
    → shift_down b ≡ some (some (unread b block ++ drop (b.used - b.pos) block))
unfolding shift_down
shift_down_lem {b} {block} h = elim (Bool-cases (ltb b.pos b.used)) [
  | inl more ↦ rw (more, h.points, leb-true b.used (length block) (omega arith)) refl
  | inr all ↦ rw (all, h.points, gone (ltb→le _ _ all)) refl
]
  where
    gone : b.used ≤ b.pos → b.used - b.pos ≡ 0
    gone le = omega arith

-- `yamux_buffer_compact` always succeeds, keeps the unread bytes, moves the read position to 0 and
-- frees the space of the bytes already read.
pub compact_keeps :
    {b : Buffer} {q : List ℕ}
    → Represents b q
    → (b' : Buffer) × (Buffer.compact b ≡ some (ok, b'))
      × Represents b' q
      × (b'.pos ≡ 0)
      × (b'.used + b.pos ≡ b.used)
unfolding Buffer.compact
compact_keeps {b} {q} (block, h, e) = elim (Bool-cases (b.pos == 0)) [
  | inl start ↦ (b, rw start refl, (block, h, e), (==_iff _ _).0 start, ground arith)
  | inr later ↦ (
    record b { block = some shifted; used = sub_size b.used b.pos; pos = 0 },
    rw (later, shift_down_lem h) refl,
    (
      shifted,
      record {
        points = refl;
        sized = omega (
          arith,
          length-append (unread b block) (drop (b.used - b.pos) block),
          length-take (b.used - b.pos) (drop b.pos block),
          length-drop b.pos block,
          length-drop (b.used - b.pos) block,
        );
        size_fits = h.size_fits;
        used_in = omega arith;
        pos_in = omega arith;
      },
      ap (λ n. take n shifted) counted ∙ take-append_exact (unread b block) _ ∙ e,
    ),
    refl,
    omega arith,
  )
]
  where
    shifted : List ℕ
    shifted = unread b block ++ drop (b.used - b.pos) block

    counted : sub_size b.used b.pos - 0 ≡ length (unread b block)
    counted =
        omega (arith, length-take (b.used - b.pos) (drop b.pos block), length-drop b.pos block)
