-- ===== src/Frame/Accepts.antt =====
-- Which headers `yamux_decode_header` accepts (src/yamux_frame.c).
use tiny_yamux.Base.{
  refl, Bool-cases, ◌&&◌, ◌==◌, leb, inl, inr, ℕ, ◌≤◌, ◌<◌, ◌≡◌, ◌≢◌, ◌⊎◌, arith, some, List, ◌∷◌,
  length, suc,
}
use tiny_yamux.Protocol.{Header, err_protocol}
use tiny_yamux.Frame.{Decoded, decoded, refused, decode_fields, decode_header}

-- With ten bytes behind version and type, the other fields are all read.
decode_fields-decoded :
    (v t : ℕ) (rest : List ℕ)
    → 10 ≤ length rest
    → (h : Header) × (decode_fields v t rest ≡ decoded h) × (h.type ≡ t)
unfolding decode_fields
decode_fields-decoded v t (a ∷ b ∷ c ∷ d ∷ e ∷ f ∷ g ∷ h ∷ i ∷ j ∷ rest) fits = (_, refl, refl)
decode_fields-decoded v t _ fits = absurd (omega arith)

-- An array of at least twelve bytes, announced as at least eight, is decoded, with the type that its
-- second byte says, if its version is 0 and its type at most 3, and is a protocol error if not.
pub decode_header_total :
    (v t : ℕ) (rest : List ℕ) (n : ℕ)
    → 10 ≤ length rest
    → 8 ≤ n
    → ((v ≡ 0)
        × (t ≤ 3)
        × ((h : Header) × (decode_header (some (v ∷ t ∷ rest)) n ≡ decoded h) × (h.type ≡ t)))
      ⊎ (((v ≢ 0) ⊎ (3 < t)) × (decode_header (some (v ∷ t ∷ rest)) n ≡ refused err_protocol))
unfolding decode_header
decode_header_total v t rest n fits big = elim (Bool-cases (v == 0 && leb t 3)) [
  | inl known ↦
      let (h, e, e') = decode_fields-decoded v t rest fits in
      inl (ground arith, ground arith, (h, ground arith, e'))
  | inr other ↦ inr (ground arith, ground arith)
]

decode_fields_short :
    (v t : ℕ) (rest : List ℕ) → length rest < 10 → decode_fields v t rest ≡ Decoded.undefined
unfolding decode_fields
decode_fields_short v t (a ∷ b ∷ c ∷ d ∷ e ∷ f ∷ g ∷ h ∷ i ∷ j ∷ rest) short = absurd (omega arith)
decode_fields_short v t _ short = refl

-- The guard admits arrays of eight to eleven bytes, whose length field is not there: whenever version
-- and type of such an array are valid, the call reads outside of it.
pub decode_header_short :
    (t : ℕ) (rest : List ℕ)
    → t ≤ 3
    → 6 ≤ length rest
    → length rest < 10
    → decode_header (some (0 ∷ t ∷ rest)) (suc (suc (length rest))) ≡ Decoded.undefined
unfolding decode_header
decode_header_short t rest known long short = ground (arith, decode_fields_short 0 t rest)
