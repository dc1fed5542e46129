-- ===== src/Frame/Fields.antt =====
-- The fields of a header that `yamux_decode_header` accepts (src/yamux_frame.c).
use tiny_yamux.Base.{ℕ, ◌^◌, ◌<◌, ◌≡◌, arith, some, List, [], ◌∷◌}
use tiny_yamux.Protocol.{Header}
use tiny_yamux.Frame.{IsBytes, decoded, join_u32, join_u16, decode_fields, decode_header}
use tiny_yamux.Frame.RoundTrip.{IsHeader, join_u32_sum, join_u16_sum}

join_u32_fits : (a b c d : ℕ) → a < 256 → b < 256 → c < 256 → d < 256 → join_u32 a b c d < 2 ^ 32
join_u32_fits a b c d ha hb hc hd = omega (arith, join_u32_sum a b c d hb hc hd)

join_u16_fits : (a b : ℕ) → a < 256 → b < 256 → join_u16 a b < 2 ^ 16
join_u16_fits a b ha hb = omega (arith, join_u16_sum a b hb)

-- What the loads behind version and type give.
record Loaded (v t : ℕ) (h : Header) : Type 0 where
  same_version : h.version ≡ v
  same_type : h.type ≡ t
  flags_fit : h.flags < 2 ^ 16
  id_fits : h.stream_id < 2 ^ 32
  length_fits : h.length < 2 ^ 32

decode_fields-Loaded :
    (v t : ℕ) (rest : List ℕ) (h : Header)
    → IsBytes rest
    → decode_fields v t rest ≡ decoded h
    → Loaded v t h
unfolding decode_fields
decode_fields-Loaded v t (f1 ∷ f0 ∷ s3 ∷ s2 ∷ s1 ∷ s0 ∷ l3 ∷ l2 ∷ l1 ∷ l0 ∷ rest) h
      (hf1, (hf0, (h3, (h2, (h1, (h0, (g3, (g2, (g1, (g0, _)))))))))) e =
    record {
      same_version = grind arith;
      same_type = grind arith;
      flags_fit = grind (arith, join_u16_fits f1 f0 hf1 hf0);
      id_fits = grind (arith, join_u32_fits s3 s2 s1 s0 h3 h2 h1 h0);
      length_fits = grind (arith, join_u32_fits l3 l2 l1 l0 g3 g2 g1 g0);
    }
decode_fields-Loaded v t [] h b e = cc
decode_fields-Loaded v t _ h b e = cc

-- Whatever bytes `yamux_decode_header` accepts, and whatever length it is told, the header that it
-- gives is well formed: version 0, a known type, and every field within its width.
pub decode_header-IsHeader :
    (bytes : List ℕ) (n : ℕ) (h : Header)
    → IsBytes bytes
    → decode_header (some bytes) n ≡ decoded h
    → IsHeader h
unfolding decode_header
decode_header-IsHeader (v ∷ t ∷ rest) n h (_, (_, b)) e =
    let loaded = decode_fields-Loaded v t rest h b (grind arith) in
    record {
      version_zero = grind (arith, loaded.same_version);
      known_type = grind (arith, loaded.same_type);
      flags_u16 = loaded.flags_fit;
      stream_id_u32 = loaded.id_fits;
      length_u32 = loaded.length_fits;
    }
decode_header-IsHeader [] n h b e = absurd (grind arith)
decode_header-IsHeader (v ∷ []) n h b e = absurd (grind arith)
