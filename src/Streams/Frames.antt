-- ===== src/Streams/Frames.antt =====
-- The frames of one round of `yamux_stream_write` (src/yamux_stream.c).
use tiny_yamux.Base.{
  ℕ, ◌+◌, ap, eq_of_some, Option, none, if◌then◌else◌, ◌-◌, ◌^◌, ◌≤◌, ◌<◌, ◌≡◌, ◌≢◌, ◌⊎◌, inl, inr,
  refl, sym, arith, Bool, true, false, some, List, [], ◌∷◌, ◌++◌, take, drop, length, append_assoc,
  append-nil, Bool-cases,
}
use tiny_yamux.Protocol.{be32, Result, ok, err_io, type_data, max_data_frame_size}
use tiny_yamux.Frame.{header_bytes}
use tiny_yamux.World.{Io, Ptr, Stream, World, ◌>>=◌, returned, io_write}
use tiny_yamux.World.Laws.{At, encode_local_header}
use tiny_yamux.Streams.{header}
use tiny_yamux.Streams.Transfer.{chunk_size, send_chunk}

-- The writes of a list of DATA frames: for each chunk its header, and then the chunk.
unfoldable pub data_frames : ℕ → List (List ℕ) → List (List ℕ)
data_frames id [] = []
data_frames id (c ∷ chunks) =
    header_bytes (header type_data 0 id (length c)) ∷ c ∷ data_frames id chunks

unfoldable pub joined : List (List ℕ) → List ℕ
joined [] = []
joined (c ∷ chunks) = c ++ joined chunks

-- No chunk is empty or longer than a frame may be.
abbrev pub Sized : List (List ℕ) → Type 0
Sized [] = Unit {0}
Sized (c ∷ chunks) = ((1 ≤ length c) × (length c ≤ max_data_frame_size)) × Sized chunks

-- A chunk stays within what is left and within a frame.
pub chunk_size_bounds :
    (total len window : ℕ)
    → total < len
    → len < 2 ^ 64
    → (chunk_size total len window ≤ len - total)
      × (chunk_size total len window ≤ max_data_frame_size)
unfolding chunk_size
chunk_size_bounds total len window h k = ground arith

-- The callback's context once it has taken all of the writes whole, `none` if it has not.
abbrev pub taken : {C : Type 0} → Io C → C → List (List ℕ) → Option C
taken io c [] = some c
taken io c (part ∷ parts) =
    let rest = taken io (io.write c part).1 parts in
    if returned (io.write c part).0 (length part) then rest else none

pub taken-append :
    {C : Type 0} (io : Io C) (c : C) {c' : C} (xs ys : List (List ℕ))
    → taken io c xs ≡ some c'
    → taken io c (xs ++ ys) ≡ taken io c' ys
taken-append io c [] ys e = ap (λ c. taken io c ys) (eq_of_some e)
taken-append io c (x ∷ xs) ys e = elim (Bool-cases (returned (io.write c x).0 (length x))) [
  | inl whole ↦ rw whole (taken-append io (io.write c x).1 xs ys (rw whole at e))
  | inr short ↦ absurd (none≢some (rw short at e))
]
  where
    none≢some : {A : Type 0} {a : A} → none ≢ some a
    none≢some e = cc

-- The writes for the frame of `chunk` that failed: of its header, or of its payload behind it.
abbrev pub IsCut : {C : Type 0} → Io C → C → (id : ℕ) → (chunk : List ℕ) → List (List ℕ) → Type 0
IsCut io c id chunk rest =
    (n : ℕ) × (rest ≡ take (1 + n) (data_frames id (chunk ∷ []))) × (taken io c rest ≡ none)

-- A chunk's two writes leave the streams and the session; if both are taken whole they are the chunk's
-- frame, and if not, one of them was refused.
pub record ChunkSent {C : Type 0} (w : World C) (id : ℕ) (chunk : List ℕ) (sent : Bool)
    (w' : World C) : Type 0 where
  pub same_heap : w'.heap ≡ w.heap
  pub same_session : w'.session ≡ w.session
  pub frame :
      sent ≡ true
      → (w'.sent ≡ w.sent ++ data_frames id (chunk ∷ []))
        × (taken w.session.io w.ctx (data_frames id (chunk ∷ [])) ≡ some w'.ctx)
  pub cut :
      sent ≡ false
      → (rest : List (List ℕ)) × (w'.sent ≡ w.sent ++ rest) × IsCut w.session.io w.ctx id chunk rest

pub send_chunk-ChunkSent :
    {C : Type 0} (w : World C) (id : ℕ) (chunk : List ℕ)
    → (sent : Bool) × (w' : World C) × (send_chunk id chunk w ≡ some (sent, w'))
      × ChunkSent w id chunk sent w'
unfolding send_chunk io_write data_frames header_bytes be32
send_chunk-ChunkSent w id chunk =
    let head = header_bytes (header type_data 0 id (length chunk)) in
    let first = w.session.io.write w.ctx head in
    let second = w.session.io.write first.1 chunk in
    elim (Bool-cases (returned first.0 12)) [
      | inl whole ↦ (
        returned second.0 (length chunk),
        record w { ctx = second.1; sent = (w.sent ++ (head ∷ [])) ++ (chunk ∷ []) },
        simp (send_chunk, ◌>>=◌, encode_local_header, whole) refl,
        record {
          same_heap = refl;
          same_session = refl;
          frame = λ e. (append_assoc w.sent (head ∷ []) (chunk ∷ []), rw (whole, e) refl);
          cut = λ e. (
            head ∷ chunk ∷ [],
            append_assoc w.sent (head ∷ []) (chunk ∷ []),
            (1, refl, rw (whole, e) refl),
          );
        },
      )
      | inr short ↦ (
        false,
        record w { ctx = first.1; sent = w.sent ++ (head ∷ []) },
        simp (send_chunk, ◌>>=◌, encode_local_header, short) refl,
        record {
          same_heap = refl;
          same_session = refl;
          frame = λ e. cc;
          cut = λ e. (head ∷ [], refl, (0, refl, rw short refl));
        },
      )
    ]

-- The end of a run of frames: the callback took them all, or the frame of the first bytes that are left
-- was cut.
abbrev pub Ending :
    {C : Type 0} → Io C → Result → (c c' : C) → (id : ℕ) → (left : List ℕ) → List (List ℕ) → Type 0
Ending io r c c' id left rest =
    ((r ≡ ok) × (rest ≡ []) × (c ≡ c'))
    ⊎ ((r ≡ err_io)
        × ((chunk : List ℕ) × (chunk ≡ take (length chunk) left)
            × ((1 ≤ length chunk) × (length chunk ≤ max_data_frame_size))
            × IsCut io c id chunk rest))

-- What was sent between two worlds, with the result `r`: whole frames that the callback took, whose
-- payloads join to `bytes`, and for an I/O error the cut frame of the next bytes, of those in `left`.
pub record FramesSent {C : Type 0} (w : World C) (id : ℕ) (bytes left : List ℕ) (r : Result)
    (w' : World C) : Type 0 where
  pub chunks : List (List ℕ)
  pub ctx : C
  pub rest : List (List ℕ)
  pub sent : w'.sent ≡ w.sent ++ (data_frames id chunks ++ rest)
  pub carried : joined chunks ≡ bytes
  pub sized : Sized chunks
  pub whole : taken w.session.io w.ctx (data_frames id chunks) ≡ some ctx
  pub ending : Ending w.session.io r ctx w'.ctx id left rest

-- What the loop has done when it stops, started at `w` with `total` bytes sent and the window of `st`.
pub record Wrote {C : Type 0} (w : World C) (p : Ptr) (st : Stream) (buf : List ℕ) (len total : ℕ)
    (r : Result) (n : ℕ) (w' : World C) : Type 0 where
  pub more : total ≤ n
  pub within : n ≤ len
  pub stream : At w'.heap p (record st { send_window = st.send_window - (n - total) })
  pub others : (q : Ptr) → q ≢ p → w'.heap q ≡ w.heap q
  pub same_session : w'.session ≡ w.session
  pub frames : FramesSent w st.id (take (n - total) (drop total buf)) (drop n buf) r w'

-- A loop that stops without sending.
pub Wrote-stop :
    {C : Type 0} (w : World C) {p : Ptr} {st : Stream} (buf : List ℕ) (len total : ℕ)
    → At w.heap p st
    → total ≤ len
    → Wrote w p st buf len total ok total w
unfolding data_frames joined
Wrote-stop w {p} {st} buf len total at h = record {
  more = omega arith;
  within = h;
  stream = rw (none_sent) at;
  others = λ q ne. refl;
  same_session = refl;
  frames = record {
    chunks = [];
    ctx = w.ctx;
    rest = [];
    sent = sym (append-nil w.sent);
    carried = rw (zero_left) refl;
    sized = tt;
    whole = refl;
    ending = inl (refl, refl, refl);
  };
}
  where
    zero_left : total - total ≡ 0
    zero_left = omega arith

    none_sent : st.send_window - (total - total) ≡ st.send_window
    none_sent = omega arith
