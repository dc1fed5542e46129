-- ===== src/Frame.antt =====
-- Frame headers on the wire (src/yamux_frame.c). A `uint8_t` array is the list of its bytes; NULL is
-- `none`. `undefined` is an access outside the array.
pub mod Accepts
pub mod RoundTrip
pub mod Fields
use tiny_yamux.Base.{
  ℕ, ◌+◌, ◌*◌, ◌/◌, ◌%◌, ◌^◌, ◌<◌, Bool, not, Option, none, some, List, [], ◌∷◌, ◌++◌, length, drop,
  ltb, leb, ◌==◌, if◌then◌else◌, bit_or,
}
use tiny_yamux.Protocol.{
  Result, ok, err_invalid, err_protocol, Header, proto_version, type_go_away, be32,
}

-- Every item fits a `uint8_t`.
abbrev pub IsBytes : List ℕ → Type 0
IsBytes [] = Unit {0}
IsBytes (b ∷ bs) = (b < 256) × IsBytes bs

-- The twelve bytes that `yamux_encode_header` stores.
unfoldable pub header_bytes : Header → List ℕ
unfolding be32
header_bytes h =
    h.version ∷ h.type ∷ h.flags / 2 ^ 8 % 256 ∷ h.flags % 256 ∷ be32 h.stream_id ++ be32 h.length

-- What a call of `yamux_encode_header` leaves in the array: its result and the array's bytes.
pub data Encoded : Type 0 where
  encoded : Result → Option (List ℕ) → Encoded
  undefined : Encoded

unfoldable pub encode_header : Header → Option (List ℕ) → Encoded
unfolding header_bytes
encode_header h none = encoded err_invalid none
encode_header h (some buffer) =
    if leb 12 (length buffer)
    then encoded ok (some (header_bytes h ++ drop 12 buffer))
    else undefined

-- `(b3 << 24) | (b2 << 16) | (b1 << 8) | b0`.
unfoldable pub join_u32 : ℕ → ℕ → ℕ → ℕ → ℕ
join_u32 b3 b2 b1 b0 = bit_or (bit_or (bit_or (b3 * 2 ^ 24) (b2 * 2 ^ 16)) (b1 * 2 ^ 8)) b0

unfoldable pub join_u16 : ℕ → ℕ → ℕ
join_u16 b1 b0 = bit_or (b1 * 2 ^ 8) b0

pub data Decoded : Type 0 where
  decoded : Header → Decoded
  refused : Result → Decoded
  undefined : Decoded

-- The loads of flags, stream id and length, once version and type are checked.
unfoldable pub decode_fields : ℕ → ℕ → List ℕ → Decoded
unfolding join_u32 join_u16
decode_fields v t (f1 ∷ f0 ∷ s3 ∷ s2 ∷ s1 ∷ s0 ∷ l3 ∷ l2 ∷ l1 ∷ l0 ∷ rest) = decoded record {
  version = v;
  type = t;
  flags = join_u16 f1 f0;
  stream_id = join_u32 s3 s2 s1 s0;
  length = join_u32 l3 l2 l1 l0;
}
decode_fields v t _ = Decoded.undefined

unfoldable pub decode_type : ℕ → List ℕ → Decoded
unfolding decode_fields
decode_type v [] = Decoded.undefined
decode_type v (t ∷ rest) =
    if ltb type_go_away t then refused err_protocol else decode_fields v t rest

unfoldable pub decode_version : List ℕ → Decoded
unfolding decode_type
decode_version [] = Decoded.undefined
decode_version (v ∷ rest) =
    if not (v == proto_version) then refused err_protocol else decode_type v rest

unfoldable pub decode_header : Option (List ℕ) → (buffer_len : ℕ) → Decoded
unfolding decode_version
decode_header none buffer_len = refused err_invalid
decode_header (some buffer) buffer_len =
    if ltb buffer_len 8 then refused err_invalid else decode_version buffer
