-- ===== src/Streams/OneFrame.antt =====
-- A write that fits one frame (src/yamux_stream.c).
use tiny_yamux.Base.{
  ℕ, suc, ◌+◌, ◌-◌, ◌^◌, ◌≤◌, ◌<◌, ◌≡◌, refl, sym, ap, ◌∙◌, arith, false, some, List, [], ◌∷◌, ◌++◌,
  take, drop, length, ==-false, ltb-false, length-take,
}
use tiny_yamux.Protocol.{ok, type_data, max_data_frame_size}
use tiny_yamux.Frame.{header_bytes}
use tiny_yamux.World.{Ptr, Stream, World, ◌>>=◌}
use tiny_yamux.World.Laws.{At, not_null, load-At}
use tiny_yamux.World.Calls.{AcceptsAll}
use tiny_yamux.Streams.{header}
use tiny_yamux.Streams.Transfer.{chunk_size, write_loop, write_checked, stream_write}
use tiny_yamux.Streams.Half.{send_chunk-accepts}
use tiny_yamux.Streams.Rounds.{write_loop-round, after_chunk}
use tiny_yamux.Streams.WriteCall.{finished}

whole_chunk :
    (len window : ℕ)
    → len ≤ max_data_frame_size
    → len ≤ window
    → window < 2 ^ 32
    → chunk_size 0 len window ≡ len
unfolding chunk_size
whole_chunk len window small room fits = ground arith

module _ {C : Type 0} (w : World C) {p : Ptr} {st : Stream} (buf : List ℕ) (len : ℕ)
    (all : AcceptsAll w.session.io) (at : At w.heap p st) (some_bytes : 0 < len)
    (small : len ≤ max_data_frame_size) (inb : len ≤ length buf) (room : len ≤ st.send_window)
    (fits : st.send_window < 2 ^ 32) where
  -- The one round, and the end of the loop behind it.
  one_round :
      (k : ℕ)
      → (w' : World C) × (write_loop (suc (suc k)) p buf len 0 w ≡ some ((ok, len), w'))
        × (w'.sent ≡ w.sent ++ (header_bytes (header type_data 0 st.id len) ∷ take len buf ∷ []))
  unfolding write_loop
  one_round k =
      let c : ℕ = chunk_size 0 len st.send_window in
      let whole : c ≡ len = whole_chunk len st.send_window small room fits in
      let (w', e, same, sent) = send_chunk-accepts w st.id (take c (drop 0 buf)) all in
      let at' : At w'.heap p st = rw same at in
      let round =
        write_loop-round p buf len (suc k) w w' 0 at some_bytes inb (omega arith) (omega arith) fits
          (omega arith) e at' in
      let ends : write_loop (suc k) p buf len len (after_chunk p buf len w' st c)
          ≡ some ((ok, len), after_chunk p buf len w' st c) =
        rw (write_loop, ltb-false len len (omega arith)) refl in
      let size : length (take len buf) ≡ len = omega (arith, length-take len buf) in
      (
        after_chunk p buf len w' st c,
        round
            ∙ ap (λ t. write_loop (suc k) p buf len t (after_chunk p buf len w' st c)) {x = 0 + c}
                {y = len} (omega arith)
            ∙ ends,
        sent
            ∙ ap
                (λ n.
                  w.sent
                  ++ (header_bytes (header type_data 0 st.id (length (take n buf)))
                      ∷ take n buf
                      ∷ []))
                whole
            ∙ ap (λ n. w.sent ++ (header_bytes (header type_data 0 st.id n) ∷ take len buf ∷ []))
                size,
      )

  pub stream_write_one :
      finished st.state ≡ false
      → (w' : World C) × (stream_write p (some buf) len w ≡ some ((ok, len), w'))
        × (w'.sent ≡ w.sent ++ (header_bytes (header type_data 0 st.id len) ∷ take len buf ∷ []))
  unfolding stream_write write_checked
  stream_write_one live =
      let (w', run, sent) = one_round (len - 1) in
      let fuel : suc (suc (len - 1)) ≡ suc len = omega arith in
      (
        w',
        simp
            (
              stream_write,
              write_checked,
              not_null at,
              ◌>>=◌,
              load-At w at,
              live,
              ==-false len 0 (omega arith),
              ==-false st.send_window 0 (omega arith),
              ltb-false st.send_window len room,
            )
            (ap (λ k. write_loop k p buf len 0 w) (sym fuel) ∙ run),
        sent,
      )
