-- ===== src/World/Laws.antt =====
-- What the primitive commands do where the stream is there (src/yamux_internal.h).
use tiny_yamux.Base.{
  ℕ, ◌≡◌, ◌≢◌, refl, sym, arith, Bool-cases, ==_iff, inl, inr, Option, none, some, [], ◌∷◌, ◌++◌,
  ◌==◌, ==-false, ==-self, replicate, false,
}
use mathlib.Core.Path.{fun_ext}
use tiny_yamux.Protocol.{Header, be32}
use tiny_yamux.Frame.{encode_header, header_bytes}
use tiny_yamux.World.{
  Ptr, null, Stream, World, ◌>>=◌, update, load, store, free_stream, encode_local, put_u32,
}

-- `p` is the address of the stream `st`.
pub record At (heap : Ptr → Option Stream) (p : Ptr) (st : Stream) : Type 0 where
  pub ne_null : p ≢ null
  pub holds : heap p ≡ some st

pub not_null :
    {heap : Ptr → Option Stream} {p : Ptr} {st : Stream} → At heap p st → (p == null) ≡ false
not_null {p} at = ==-false p null at.ne_null

module _ {C : Type 0} (w : World C) {p : Ptr} {st : Stream} (at : At w.heap p st) where
  pub load-At : load p w ≡ some (st, w)
  unfolding load
  load-At = rw (not_null at, at.holds) refl

  pub store-At :
      (new : Stream) → store p new w ≡ some (tt, record w { heap = update w.heap p (some new) })
  unfolding store
  store-At new = rw (load-At, store, ◌>>=◌) refl

  pub free_stream-At : free_stream p w ≡ some (tt, record w { heap = update w.heap p none })
  unfolding free_stream
  free_stream-At = rw (load-At, free_stream, ◌>>=◌) refl

-- The address keeps its place when its stream is replaced, and other streams theirs.
pub At-update :
    (heap : Ptr → Option Stream) (p : Ptr) (st : Stream)
    → p ≢ null
    → At (update heap p (some st)) p st
At-update heap p st ne = record { ne_null = ne; holds = rw (==-self p) refl }

pub At-update_ne :
    {heap : Ptr → Option Stream} {q : Ptr} {st : Stream} (p : Ptr) (c : Option Stream)
    → q ≢ p
    → At heap q st
    → At (update heap p c) q st
At-update_ne {q} p c ne at = record { ne_null = at.ne_null; holds = rw (==-false q p ne) at.holds }

pub update-update :
    (heap : Ptr → Option Stream) (p : Ptr) (c d : Option Stream)
    → update (update heap p c) p d ≡ update heap p d
update-update heap p c d = fun_ext λ q. ground arith

pub update-same :
    (heap : Ptr → Option Stream) (p : Ptr) (c : Option Stream) → heap p ≡ c → update heap p c ≡ heap
update-same heap p c e = fun_ext λ q. elim (Bool-cases (q == p)) [
  | inl hit ↦ rw (hit, (==_iff q p).0 hit) (sym e)
  | inr miss ↦ rw miss refl
]

-- The three sizes of local arrays that hold a whole header.
pub encode_local_header :
    {C : Type 0} (h : Header) (w : World C) → encode_local h 12 w ≡ some (header_bytes h, w)
unfolding encode_local encode_header replicate header_bytes
encode_local_header h w = refl

pub encode_local_frame :
    {C : Type 0} (h : Header) (w : World C)
    → encode_local h 16 w ≡ some (header_bytes h ++ (0 ∷ 0 ∷ 0 ∷ 0 ∷ []), w)
unfolding encode_local encode_header replicate
encode_local_frame h w = refl

-- An array of eight bytes does not hold a header.
pub encode_local_short : {C : Type 0} (h : Header) (w : World C) → encode_local h 8 w ≡ none
unfolding encode_local encode_header replicate
encode_local_short h w = refl

-- The payload behind the header.
pub put_u32_payload :
    (h : Header) (v : ℕ)
    → put_u32 12 v (header_bytes h ++ (0 ∷ 0 ∷ 0 ∷ 0 ∷ [])) ≡ header_bytes h ++ be32 v
unfolding put_u32 header_bytes be32
put_u32_payload h v = refl

-- Written at index 8, the value takes the place of the header's length.
pub put_u32_length :
    (h : Header) (v : ℕ) → put_u32 8 v (header_bytes h) ≡ header_bytes (record h { length = v })
unfolding put_u32 header_bytes be32
put_u32_length h v = refl
