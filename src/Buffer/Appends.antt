-- ===== src/Buffer/Appends.antt =====
-- Appending to the queue (src/yamux_buffer.c).
use tiny_yamux.Base.{
  ℕ, ◌+◌, ◌-◌, ◌^◌, ◌≤◌, ◌<◌, ◌≡◌, ◌≢◌, ◌⊎◌, inl, inr, refl, ap, arith, Bool, false, Bool-cases,
  none, some, List, ◌++◌, length, take, drop, replicate, ltb, length-append, length-take,
  length-drop, length-replicate, take-drop_copied, take_all, take-append, drop-append, leb-true,
  ==-false, ltb-false, ◌∙◌,
}
use tiny_yamux.Protocol.{ok, err_nomem, add_size}
use tiny_yamux.Buffer
use tiny_yamux.Buffer.{
  Buffer, Outcome, resize, new_size, reserve, store, write_bytes, read_bytes, shift_down,
}
use tiny_yamux.Buffer.Queue.{Holds, Represents, unread}

length-grown : (block : List ℕ) (k : ℕ) → length (block ++ replicate k 0) ≡ length block + k
length-grown block k =
    omega (arith, length-append block (replicate k 0), length-replicate {A = ℕ} k 0)

-- Growing keeps the old bytes in front.
resize-prefix :
    (block : List ℕ) (n : ℕ)
    → length block ≤ n
    → resize (some block) n ≡ block ++ replicate (n - length block) 0
unfolding resize
resize-prefix block n h =
    take_all n (block ++ replicate (n - length block) 0)
      (omega (arith, length-grown block (n - length block)))

length-resize : (block : List ℕ) (n : ℕ) → length block ≤ n → length (resize (some block) n) ≡ n
length-resize block n h =
    rw (resize-prefix block n h) (omega (arith, length-grown block (n - length block)))

new_size_bounds :
    (b : Buffer) (len : ℕ)
    → b.used + len < 2 ^ 64
    → (b.used + len ≤ new_size b len) × (new_size b len < 2 ^ 64)
unfolding new_size
new_size_bounds b len h = ground arith

-- What `reserve` leaves has room and the same unread bytes.
record Reserved (b : Buffer) (block : List ℕ) (len : ℕ) (b' : Buffer) : Type 0 where
  block' : List ℕ
  holds : Holds b' block'
  room : b.used + len ≤ b'.size
  same_used : b'.used ≡ b.used
  same_pos : b'.pos ≡ b.pos
  same_unread : unread b' block' ≡ unread b block

unread_grown :
    (pos used : ℕ) (block more : List ℕ)
    → pos ≤ used
    → used ≤ length block
    → take (used - pos) (drop pos (block ++ more)) ≡ take (used - pos) (drop pos block)
unread_grown pos used block more h k =
    rw (drop-append pos block more (omega arith))
      (take-append (used - pos) (drop pos block) more (omega (arith, length-drop pos block)))

reserve-Reserved :
    {b : Buffer} {block : List ℕ} (grants : ℕ → Bool) (len : ℕ)
    → Holds b block
    → b.used + len < 2 ^ 64
    → ((b' : Buffer) × (reserve grants b len ≡ some b') × Reserved b block len b')
      ⊎ ((reserve grants b len ≡ none)
          × (b.size < b.used + len)
          × (grants (new_size b len) ≡ false))
unfolding reserve
reserve-Reserved {b} {block} grants len h fits =
    elim (Bool-cases (ltb b.size (add_size b.used len))) [
      | inl small ↦ elim (Bool-cases (grants (new_size b len))) [
        | inl yes' ↦
            let grown = new_size_bounds b len fits in
            let n : ℕ = new_size b len in
            let fit : length block ≤ n = ground arith in
            inl (
              record b { block = some (resize b.block n); size = n },
              rw (small, yes') refl,
              record {
                block' = resize (some block) n;
                holds = record {
                  points = ap (λ p. some (resize p n)) h.points;
                  sized = length-resize block n fit;
                  size_fits = grown.1;
                  used_in = ground arith;
                  pos_in = h.pos_in;
                };
                room = grown.0;
                same_used = refl;
                same_pos = refl;
                same_unread =
                    rw (resize-prefix block n fit)
                      (unread_grown b.pos b.used block _ h.pos_in (omega arith));
              },
            )
        | inr no' ↦ inr (rw (small, no') refl, ground arith, no')
      ]
      | inr large ↦ inl (
        b,
        rw large refl,
        record {
          block' = block;
          holds = h;
          room = ground arith;
          same_used = refl;
          same_pos = refl;
          same_unread = refl;
        },
      )
    ]

length-copied :
    (used : ℕ) (block s : List ℕ)
    → used + length s ≤ length block
    → length (take used block ++ (s ++ drop (used + length s) block)) ≡ length block
length-copied used block s h = omega (
  arith,
  length-append (take used block) (s ++ drop (used + length s) block),
  length-append s (drop (used + length s) block),
  length-take used block,
  length-drop (used + length s) block,
)

store-Represents :
    {b : Buffer} {block : List ℕ} (bytes : List ℕ)
    → Holds b block
    → b.used + length bytes ≤ b.size
    → (b' : Buffer) × (store b bytes ≡ some b')
      × Represents b' (unread b block ++ bytes)
      × (b'.used ≡ b.used + length bytes)
unfolding store
store-Represents {b} {block} bytes h room =
    let copied = take b.used block ++ (bytes ++ drop (b.used + length bytes) block) in
    (
      record b { block = some copied; used = add_size b.used (length bytes) },
      rw (h.points, leb-true (b.used + length bytes) (length block) (omega arith)) refl,
      (
        copied,
        record {
          points = refl;
          sized = length-copied b.used block bytes (omega arith) ∙ h.sized;
          size_fits = h.size_fits;
          used_in = omega arith;
          pos_in = omega arith;
        },
        rw (sum_fits) (take-drop_copied b.pos b.used block bytes _ h.pos_in (omega arith)),
      ),
      sum_fits,
    )
  where
    sum_fits : add_size b.used (length bytes) ≡ b.used + length bytes
    sum_fits = omega arith

-- The outcomes of appending `bytes`.
abbrev Appended : (ℕ → Bool) → Buffer → List ℕ → List ℕ → ℕ → Outcome → Type 0
Appended grants b q bytes len o =
    ((b' : Buffer) × (o ≡ some (ok, b')) × Represents b' (q ++ bytes) × (b'.used ≡ b.used + len))
    ⊎ ((o ≡ some (err_nomem, b)) × (b.size < b.used + len) × (grants (new_size b len) ≡ false))

write_bytes-Appended :
    {b : Buffer} {block : List ℕ} (grants : ℕ → Bool) (bytes : List ℕ)
    → Holds b block
    → b.used + length bytes < 2 ^ 64
    → Appended grants b (unread b block) bytes (length bytes) (write_bytes grants b bytes)
unfolding write_bytes
write_bytes-Appended {b} {block} grants bytes h fits =
    elim (reserve-Reserved grants (length bytes) h fits) [
      | inl (b', e, r) ↦
          let (b'', e', rep, more) =
            store-Represents bytes r.holds (omega (arith, r.room, r.same_used)) in
          inl (
            b'',
            rw (write_bytes, e, e') refl,
            rw r.same_unread at rep,
            omega (arith, more, r.same_used),
          )
      | inr (e, small, no') ↦ inr (rw (write_bytes, e) refl, small, no')
    ]

-- A call of `yamux_buffer_write` for `len` bytes, 0 < `len`, that the source array holds and whose
-- end in the buffer is below 2^64, either succeeds, appends them to the unread bytes and uses as much
-- more of the buffer, or fails with a memory error and leaves the buffer, where the free space was too
-- small and the allocator refused. It never writes outside of its block.
pub write_appends :
    {b : Buffer} {q : List ℕ} (grants : ℕ → Bool) (source : List ℕ) (len : ℕ)
    → Represents b q
    → len ≢ 0
    → len ≤ length source
    → b.used + len < 2 ^ 64
    → ((b' : Buffer) × (Buffer.write grants b (some source) len ≡ some (ok, b'))
        × Represents b' (q ++ take len source)
        × (b'.used ≡ b.used + len))
      ⊎ ((Buffer.write grants b (some source) len ≡ some (err_nomem, b))
          × (b.size < b.used + len)
          × (grants (new_size b len) ≡ false))
unfolding Buffer.write
write_appends {b} {q} grants source len (block, h, e) ne held fits =
    rw (==-false len 0 ne, ltb-false (length source) len held, ← e)
      (rw taken at (write_bytes-Appended grants (take len source) h (omega (arith, taken))))
  where
    taken : length (take len source) ≡ len
    taken = omega (arith, length-take len source)
