-- ===== src/Frame/RoundTrip.antt =====
-- Encoding and decoding of headers are inverse (src/yamux_frame.c).
use tiny_yamux.Base.{
  ℕ, ◌+◌, ◌*◌, ◌/◌, ◌%◌, ◌^◌, ◌≤◌, ◌<◌, ◌≡◌, arith, some, List, [], ◌∷◌, ◌++◌, length, leb-true,
  drop, length-drop,
}
use tiny_yamux.Base.Bits.{bit_or_fields}
use tiny_yamux.Protocol.{Header, ok, be32}
use tiny_yamux.Frame.{
  encoded, encode_header, header_bytes, join_u32, join_u16, decoded, decode_header, IsBytes,
}

-- The fields fit their widths, and the header is one that `yamux_decode_header` accepts.
pub record IsHeader (h : Header) : Type 0 where
  pub version_zero : h.version ≡ 0
  pub known_type : h.type ≤ 3
  pub flags_u16 : h.flags < 2 ^ 16
  pub stream_id_u32 : h.stream_id < 2 ^ 32
  pub length_u32 : h.length < 2 ^ 32

pub join_u32_sum :
    (a b c d : ℕ)
    → b < 256
    → c < 256
    → d < 256
    → join_u32 a b c d ≡ a * 2 ^ 24 + b * 2 ^ 16 + c * 2 ^ 8 + d
unfolding join_u32
join_u32_sum a b c d hb hc hd =
    rw
      (
        bit_or_fields 24 a (b * 2 ^ 16) (omega arith),
        shift_out_16,
        bit_or_fields 16 (a * 256 + b) (c * 2 ^ 8) (omega arith),
        shift_out_8,
        bit_or_fields 8 (a * 65536 + b * 256 + c) d (omega arith),
      )
      (omega arith)
  where
    shift_out_16 : a * 2 ^ 24 + b * 2 ^ 16 ≡ (a * 256 + b) * 2 ^ 16
    shift_out_16 = omega arith

    shift_out_8 : (a * 256 + b) * 2 ^ 16 + c * 2 ^ 8 ≡ (a * 65536 + b * 256 + c) * 2 ^ 8
    shift_out_8 = omega arith

pub join_u16_sum : (a b : ℕ) → b < 256 → join_u16 a b ≡ a * 2 ^ 8 + b
unfolding join_u16
join_u16_sum a b h = bit_or_fields 8 a b h

-- The four bytes of a 32-bit value join to it again.
pub join_u32-be32 :
    (v : ℕ)
    → v < 2 ^ 32
    → join_u32 (v / 2 ^ 24 % 256) (v / 2 ^ 16 % 256) (v / 2 ^ 8 % 256) (v % 256) ≡ v
join_u32-be32 v h =
    omega (arith, join_u32_sum (v / 2 ^ 24 % 256) (v / 2 ^ 16 % 256) (v / 2 ^ 8 % 256) (v % 256))

join_u16_bytes : (v : ℕ) → v < 2 ^ 16 → join_u16 (v / 2 ^ 8 % 256) (v % 256) ≡ v
join_u16_bytes v h = omega (arith, join_u16_sum (v / 2 ^ 8 % 256) (v % 256))

module _ (h : Header) (v : IsHeader h) where
  pub decode-header_bytes :
      (rest : List ℕ) (n : ℕ) → 8 ≤ n → decode_header (some (header_bytes h ++ rest)) n ≡ decoded h
  unfolding decode_header header_bytes
  decode-header_bytes rest n big =
      ground (arith, join_u16_bytes h.flags, join_u32-be32 h.stream_id, join_u32-be32 h.length)

-- Into an array of at least twelve bytes, `yamux_encode_header` stores a header from which
-- `yamux_decode_header`, told of at least eight bytes, reads the same header.
pub decode-encode :
    (h : Header) (buffer : List ℕ) (n : ℕ)
    → IsHeader h
    → 12 ≤ length buffer
    → 8 ≤ n
    → (bytes : List ℕ) × (encode_header h (some buffer) ≡ encoded ok (some bytes))
      × (length bytes ≡ length buffer)
      × (decode_header (some bytes) n ≡ decoded h)
unfolding encode_header
decode-encode h buffer n v fits big = (
  header_bytes h ++ drop 12 buffer,
  rw (leb-true 12 (length buffer) fits),
  omega (arith, length-drop 12 buffer),
  decode-header_bytes h v _ n big,
)

-- The bytes of the three joined fields.
be32-join_u32 :
    (a b c d : ℕ)
    → a < 256
    → b < 256
    → c < 256
    → d < 256
    → be32 (join_u32 a b c d) ≡ a ∷ b ∷ c ∷ d ∷ []
unfolding be32
be32-join_u32 a b c d ha hb hc hd = ground (arith, join_u32_sum a b c d)

-- A twelve-byte array that `yamux_decode_header` accepts is what `yamux_encode_header` stores for
-- the header that it reads from it.
pub encode-decode :
    (bytes : List ℕ) (n : ℕ) (h : Header)
    → IsBytes bytes
    → length bytes ≡ 12
    → decode_header (some bytes) n ≡ decoded h
    → encode_header h (some bytes) ≡ encoded ok (some bytes)
unfolding decode_header encode_header
encode-decode (b0 ∷ b1 ∷ b2 ∷ b3 ∷ b4 ∷ b5 ∷ b6 ∷ b7 ∷ b8 ∷ b9 ∷ b10 ∷ b11 ∷ []) n h v l e =
    ground (arith, join_u16_sum b2 b3, be32-join_u32 b4 b5 b6 b7, be32-join_u32 b8 b9 b10 b11)
encode-decode _ n h v l e = absurd (omega arith)
