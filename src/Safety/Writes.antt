-- ===== src/Safety/Writes.antt =====
-- Writing and widening a stream keep a session in order (src/yamux_stream.c,
-- src/yamux_stream_ext.c).
use tiny_yamux.Base.{
  ℕ, zero, suc, ◌+◌, ◌^◌, ◌<◌, ◌≤◌, inl, inr, refl, ◌∙◌, arith, some, List, take, drop, length, ltb,
  ◌==◌, ◌||◌, Bool-cases, ltb-false,
}
use tiny_yamux.Protocol.{
  closed, fin_sent, fin_recv, state_code, type_data, header_size, sub_u32, add_u32,
}
use tiny_yamux.World.{Ptr, Stream, World, ◌>>=◌, returned}
use tiny_yamux.World.Laws.{At, not_null, load-At, encode_local_header}
use tiny_yamux.Streams.{header, stream_update_window}
use tiny_yamux.Streams.Transfer.{chunk_size, send_chunk, write_loop, write_checked, stream_write}
use tiny_yamux.Safety.{InOrder}
use tiny_yamux.Safety.Total.{Returns, Returns-pure, Returns-bind}
use tiny_yamux.Safety.Commands.{
  InOrderAfter, IsSteady, IsSteady-At, store-Returns, io_write-Returns,
}

chunk_size_fits :
    (total len window : ℕ) → total ≤ len → len < 2 ^ 64 → total + chunk_size total len window ≤ len
unfolding chunk_size
chunk_size_fits total len window h small = ground arith

send_chunk-Returns :
    {C : Type 0} {w : World C}
    → InOrder w
    → (id : ℕ) (chunk : List ℕ) → Returns (send_chunk id chunk w) (λ _ w'. IsSteady w w')
unfolding send_chunk
send_chunk-Returns {w} o id chunk =
    rw (◌>>=◌, encode_local_header (header type_data 0 id (length chunk)) w)
      (Returns-bind (io_write-Returns o _) λ n w₁ steady.
        elim (Bool-cases (returned n header_size)) [
          | inr lost ↦ rw lost (Returns-pure steady)
          | inl sent ↦ rw sent (
              Returns-bind (io_write-Returns steady.in_order chunk) λ m w₂ steady₂.
                Returns-pure (record {
                  same_heap = steady₂.same_heap ∙ steady.same_heap;
                  same_session = steady₂.same_session ∙ steady.same_session;
                  in_order = steady₂.in_order;
                }))
        ])

-- The loop ends, for each round but the last sends a byte at least.
write_loop-InOrder :
    {C : Type 0} (k : ℕ) {w : World C} {p : Ptr} {st : Stream} (buf : List ℕ) (len total : ℕ)
    → InOrder w
    → At w.heap p st
    → len < total + k
    → total ≤ len
    → len ≤ length buf
    → len < 2 ^ 64
    → Returns (write_loop k p buf len total w) InOrderAfter
unfolding write_loop
write_loop-InOrder zero buf len total o at fuel h inb small = absurd (omega arith)
write_loop-InOrder (suc k) {w} {p} {st} buf len total o at fuel h inb small =
    elim (Bool-cases (ltb total len)) [
      | inr done ↦ rw (write_loop, done) (Returns-pure o)
      | inl more ↦ elim (Bool-cases (chunk_size total len st.send_window == 0)) [
        | inl none_fits ↦ rw (write_loop, more, ◌>>=◌, load-At w at, none_fits) (Returns-pure o)
        | inr some_fits ↦
            let c : ℕ = chunk_size total len st.send_window in
            let room = chunk_size_fits total len st.send_window h small in
            rw
              (
                write_loop,
                more,
                ◌>>=◌,
                load-At w at,
                some_fits,
                ltb-false (length buf) (total + c) (omega arith),
              )
              (Returns-bind (send_chunk-Returns o st.id (take c (drop total buf))) λ sent w₁ steady.
                elim (Bool-cases sent) [
                  | inr lost ↦ rw lost (Returns-pure steady.in_order)
                  | inl took ↦ rw took (
                      Returns-bind
                        (store-Returns steady.in_order
                          (record st { send_window = sub_u32 st.send_window c })
                          (IsSteady-At steady at) refl refl
                          (record {
                            buffer = (o.sound p st at).buffer;
                            send_fits = omega arith;
                            recv_fits = (o.sound p st at).recv_fits;
                          }))
                        λ _ w₂ (o₂, at₂).
                          write_loop-InOrder k buf len (total + c) o₂ at₂ (ground arith) room inb
                            small)
                ])
      ]
    ]

module _ {C : Type 0} {w : World C} (o : InOrder w) {p : Ptr} {st : Stream}
    (at : At w.heap p st) where
  -- `yamux_stream_write` from an array of at least `len` bytes.
  pub stream_write-InOrder :
      (buf : List ℕ) (len : ℕ)
      → len ≤ length buf
      → len < 2 ^ 64
      → Returns (stream_write p (some buf) len w) InOrderAfter
  unfolding stream_write write_checked
  stream_write-InOrder buf len inb small =
      rw (not_null at, ◌>>=◌, load-At w at)
        (elim (Bool-cases (
          state_code st.state == state_code closed
          || (state_code st.state == state_code fin_sent
              || state_code st.state == state_code fin_recv))) [
                | inl over ↦ rw over (Returns-pure o)
                | inr live ↦ elim (Bool-cases (len == 0)) [
                  | inl e ↦ rw (live, e) (Returns-pure o)
                  | inr ne ↦ elim (Bool-cases (st.send_window == 0)) [
                    | inl e ↦ rw (live, ne, e) (Returns-pure o)
                    | inr ne' ↦
                        rw (live, ne, ne')
                          (elim (Bool-cases (ltb st.send_window len)) [
                            | inl less ↦ rw less (
                                write_loop-InOrder (suc st.send_window) buf st.send_window 0 o at
                                  (omega arith) (omega arith) (ground arith) (ground arith))
                            | inr all ↦ rw all (
                                write_loop-InOrder (suc len) buf len 0 o at (omega arith)
                                  (omega arith) inb small)
                          ])
                  ]
                ]
              ])

  pub stream_update_window-InOrder :
      (increment : ℕ) → Returns (stream_update_window p increment w) InOrderAfter
  unfolding stream_update_window
  stream_update_window-InOrder increment =
      let sound = o.sound p st at in
      rw (not_null at, ◌>>=◌, load-At w at)
        (Returns-bind
          (store-Returns o (record st { send_window = add_u32 st.send_window increment }) at refl
            refl
            (record {
              buffer = sound.buffer;
              send_fits = omega arith;
              recv_fits = sound.recv_fits;
            }))
          λ _ w₁ (o₁, _). Returns-pure o₁)
