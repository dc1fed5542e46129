-- ===== src/Streams/Rounds.antt =====
-- One round of the loop of `yamux_stream_write` (src/yamux_stream.c).
use tiny_yamux.Base.{
  ◌++◌, false, [], ℕ, suc, ◌+◌, ◌-◌, ◌^◌, ◌≤◌, ◌<◌, ◌≡◌, ◌≢◌, inr, refl, sym, ap, ◌∙◌, arith, true,
  some, List, ◌∷◌, take, drop, length, append_assoc, ==-false, ltb-true, ltb-false, take_add,
  drop-drop, length-take, length-drop,
}
use tiny_yamux.Protocol.{Result, err_io, sub_u32, max_data_frame_size}
use tiny_yamux.World.{Ptr, null, Stream, World, ◌>>=◌, ◌>>◌, update, store}
use tiny_yamux.World.Laws.{At, load-At, store-At}
use tiny_yamux.Streams.Transfer.{chunk_size, send_chunk, write_loop}
use tiny_yamux.Streams.Frames.{
  taken-append, ChunkSent, Wrote, chunk_size_bounds, data_frames, joined,
}

length_chunk :
    (buf : List ℕ) (total c : ℕ) → total + c ≤ length buf → length (take c (drop total buf)) ≡ c
length_chunk buf total c inb = omega (arith, length-take c (drop total buf), length-drop total buf)

module _ {C : Type 0} (p : Ptr) (buf : List ℕ) (len : ℕ) where
  -- A failed frame.
  pub Wrote-failed :
      (w w' : World C) {st : Stream} (total c : ℕ)
      → At w.heap p st
      → total ≤ len
      → total + c ≤ length buf
      → 1 ≤ c
      → c ≤ max_data_frame_size
      → ChunkSent w st.id (take c (drop total buf)) false w'
      → Wrote w p st buf len total err_io total w'
  unfolding data_frames joined
  Wrote-failed w w' {st} total c at h inb pos small s = record {
    more = omega arith;
    within = h;
    stream = rw (s.same_heap, none_sent) at;
    others = λ q ne. rw s.same_heap refl;
    same_session = s.same_session;
    frames =
        let (rest, sent, is_cut) = s.cut refl in
        record {
          chunks = [];
          ctx = w.ctx;
          rest = rest;
          sent = sent;
          carried = rw (zero_left) refl;
          sized = tt;
          whole = refl;
          ending = inr (
            refl,
            (
              take c (drop total buf),
              ap (λ k. take k (drop total buf)) (sym size),
              (omega (arith, size), omega (arith, size)),
              is_cut,
            ),
          );
        };
  }
    where
      none_sent : st.send_window - (total - total) ≡ st.send_window
      none_sent = omega arith

      zero_left : total - total ≡ 0
      zero_left = omega arith

      size : length (take c (drop total buf)) ≡ c
      size = length_chunk buf total c inb

  -- One frame sent, and the rest of the loop.
  pub Wrote-next :
      (w w' w'' : World C) {st : Stream} (total c : ℕ) {r : Result} {n : ℕ}
      → total + c ≤ length buf
      → 1 ≤ c
      → c ≤ max_data_frame_size
      → c ≤ st.send_window
      → p ≢ null
      → ChunkSent w st.id (take c (drop total buf)) true w'
      → Wrote
          (record w' {
            heap = update w'.heap p (some (record st { send_window = st.send_window - c }));
          })
          p
          (record st { send_window = st.send_window - c })
          buf
          len
          (total + c)
          r
          n
          w''
      → Wrote w p st buf len total r n w''
  unfolding data_frames joined
  Wrote-next w w' w'' {st} total c {r} {n} inb pos small room ne s rest = record {
    more = omega (arith, rest.more);
    within = rest.within;
    stream = rw (window_left) at rest.stream;
    others = λ q q_ne. rest.others q q_ne ∙ rw (==-false q p q_ne, s.same_heap) refl;
    same_session = rest.same_session ∙ s.same_session;
    frames =
        let f = rest.frames in
        let (sent, whole) = s.frame refl in
        record {
          chunks = take c (drop total buf) ∷ f.chunks;
          ctx = f.ctx;
          rest = f.rest;
          sent =
              f.sent
              ∙ rw sent (
                  append_assoc w.sent (data_frames st.id (take c (drop total buf) ∷ []))
                    (data_frames st.id f.chunks ++ f.rest));
          carried =
              rw (f.carried, ← drop-drop c total buf)
                (sym (take_add c (n - (total + c)) (drop total buf))
                  ∙ ap (λ k. take k (drop total buf)) all_sent);
          sized = ((omega (arith, size), omega (arith, size)), f.sized);
          whole =
              taken-append w.session.io w.ctx (data_frames st.id (take c (drop total buf) ∷ []))
                (data_frames st.id f.chunks) whole
              ∙ rw s.same_session at f.whole;
          ending = rw s.same_session at f.ending;
        };
  }
    where
      size : length (take c (drop total buf)) ≡ c
      size = length_chunk buf total c inb

      window_left : st.send_window - c - (n - (total + c)) ≡ st.send_window - (n - total)
      window_left = omega (arith, rest.more)

      all_sent : c + (n - (total + c)) ≡ n - total
      all_sent = omega (arith, rest.more)

  -- The world after a chunk of `c` bytes is sent from `w'`'s stream.
  abbrev pub after_chunk : World C → Stream → ℕ → World C
  after_chunk w' st c = record w' {
    heap = update w'.heap p (some (record st { send_window = st.send_window - c }));
  }

  -- A round whose frame is taken goes on with the rest.
  pub write_loop-round :
      (k : ℕ) (w w' : World C) {st : Stream} (total : ℕ)
      → At w.heap p st
      → total < len
      → len ≤ length buf
      → len < 2 ^ 64
      → len ≤ total + st.send_window
      → st.send_window < 2 ^ 32
      → let c = chunk_size total len st.send_window in
        c ≢ 0
        → (send_chunk st.id (take c (drop total buf)) w ≡ some (true, w'))
        → At w'.heap p st
        → write_loop (suc k) p buf len total w
          ≡ write_loop k p buf len (total + c) (after_chunk w' st c)
  unfolding write_loop
  write_loop-round k w w' {st} total at more inb fits room small ne e at' =
      let c : ℕ = chunk_size total len st.send_window in
      let bounds = chunk_size_bounds total len st.send_window more fits in
      let stored : (store p (record st { send_window = st.send_window - c })
              >> write_loop k p buf len (total + c))
            w'
          ≡ write_loop k p buf len (total + c) (after_chunk w' st c) =
        rw (store-At w' at', ◌>>=◌) refl in
      let window : sub_u32 st.send_window c ≡ st.send_window - c = omega arith in
      simp
        (
          write_loop,
          ltb-true total len more,
          ◌>>=◌,
          load-At w at,
          ==-false c 0 ne,
          ltb-false (length buf) (total + c) (omega arith),
          e,
          window,
        )
        stored
