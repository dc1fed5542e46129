-- ===== src/Streams/Write.antt =====
-- What `yamux_stream_write` sends (src/yamux_stream.c).
use tiny_yamux.Base.{
  ℕ, zero, suc, ◌+◌, ◌-◌, ◌^◌, ◌≤◌, ◌<◌, ◌≡◌, ◌≢◌, inl, inr, refl, sym, ◌∙◌, arith, Bool, some,
  List, take, drop, length, ltb, ◌==◌, ==-false, ltb-true, ltb-false, Bool-cases, ==_iff, ltb→lt,
}
use mathlib.Core.Bool.{false≢true}
use tiny_yamux.Protocol.{Result, ok, err_io}
use tiny_yamux.World.{Ptr, Stream, World, ◌>>=◌}
use tiny_yamux.World.Laws.{At, load-At, At-update}
use tiny_yamux.Streams.Transfer.{chunk_size, send_chunk, write_loop}
use tiny_yamux.Streams.Frames.{
  ChunkSent, Wrote, Wrote-stop, chunk_size_bounds, send_chunk-ChunkSent,
}
use tiny_yamux.Streams.Rounds.{Wrote-failed, Wrote-next, after_chunk, write_loop-round}

module _ {C : Type 0} (p : Ptr) (buf : List ℕ) (len : ℕ) where
  -- A run of the loop ends, and so.
  abbrev pub Ends : ℕ → World C → Stream → ℕ → Type 0
  Ends k w st total =
      (r : Result) × (n : ℕ) × (w' : World C) × (write_loop k p buf len total w ≡ some ((r, n), w'))
      × Wrote w p st buf len total r n w'

  -- A round that sends a chunk of `c` bytes, whether its frame is taken or not.
  round-Ends :
      (k : ℕ) (w w' : World C) {st : Stream} (total : ℕ) (sent : Bool)
      → At w.heap p st
      → total < len
      → len ≤ length buf
      → len < 2 ^ 64
      → len ≤ total + st.send_window
      → st.send_window < 2 ^ 32
      → let c = chunk_size total len st.send_window in
        c ≢ 0
        → (send_chunk st.id (take c (drop total buf)) w ≡ some (sent, w'))
        → ChunkSent w st.id (take c (drop total buf)) sent w'
        → ((w₂ : World C)
            → At w₂.heap p (record st { send_window = st.send_window - c })
            → Ends k w₂ (record st { send_window = st.send_window - c }) (total + c))
        → Ends (suc k) w st total
  unfolding write_loop
  round-Ends k w w' {st} total sent at more inb fits room small ne e s ih =
      let c : ℕ = chunk_size total len st.send_window in
      let bounds = chunk_size_bounds total len st.send_window more fits in
      let at' : At w'.heap p st = rw s.same_heap at in
      elim (Bool-cases sent) [
        | inr lost ↦ (
          err_io,
          total,
          w',
          simp
              (
                write_loop,
                ltb-true total len more,
                ◌>>=◌,
                load-At w at,
                ==-false c 0 ne,
                ltb-false (length buf) (total + c) (omega arith),
                e,
                lost,
              )
              refl,
          Wrote-failed p buf len w w' total c at (omega arith) (omega arith) (omega arith) bounds.1
              (rw lost at s),
        )
        | inl taken ↦
            let (r, n, w'', e', done) =
              ih (after_chunk p buf len w' st c) (At-update w'.heap p _ at.ne_null) in
            (
              r,
              n,
              w'',
              write_loop-round p buf len k w w' total at more inb fits room small ne (rw taken at e)
                    at'
                  ∙ e',
              Wrote-next p buf len w w' w'' total c (omega arith) (omega arith) bounds.1
                  (omega arith) at.ne_null (rw taken at s) done,
            )
      ]

  -- With enough fuel the loop ends.
  pub write_loop-Ends :
      (k : ℕ) (w : World C) {st : Stream} (total : ℕ)
      → len - total < k
      → At w.heap p st
      → total ≤ len
      → len ≤ length buf
      → len < 2 ^ 64
      → len ≤ total + st.send_window
      → st.send_window < 2 ^ 32
      → Ends k w st total
  unfolding write_loop
  write_loop-Ends zero w total fuel at h inb fits room small = absurd (omega arith)
  write_loop-Ends (suc k) w {st} total fuel at h inb fits room small =
      elim (Bool-cases (ltb total len)) [
        | inr done ↦ (ok, total, w, simp (write_loop, done) refl, Wrote-stop w buf len total at h)
        | inl more ↦
            let c : ℕ = chunk_size total len st.send_window in
            let bounds = chunk_size_bounds total len st.send_window (ltb→lt _ _ more) fits in
            elim (Bool-cases (c == 0)) [
              | inl empty ↦ (
                ok,
                total,
                w,
                simp (write_loop, more, ◌>>=◌, load-At w at, empty) refl,
                Wrote-stop w buf len total at h,
              )
              | inr some_bytes ↦
                  let (sent, w', e, s) = send_chunk-ChunkSent w st.id (take c (drop total buf)) in
                  let ne : c ≢ 0 = λ z. false≢true (sym some_bytes ∙ (==_iff _ _).1 z) in
                  round-Ends k w w' total sent at (ltb→lt _ _ more) inb fits room small ne e s
                    λ w₂ at₂.
                      write_loop-Ends k w₂ (total + c) (omega arith) at₂ (omega arith) inb fits
                        (omega arith) (omega arith)
            ]
      ]

  -- The loop stops where the window left is what was sent, though bytes are left.
  pub write_loop-halfway :
      (k : ℕ) (w : World C) {st : Stream}
      → At w.heap p st
      → st.send_window < len
      → st.send_window < 2 ^ 32
      → write_loop (suc k) p buf len st.send_window w ≡ some ((ok, st.send_window), w)
  unfolding write_loop chunk_size
  write_loop-halfway k w {st} at left small =
      simp
        (write_loop, ltb-true st.send_window len left, ◌>>=◌, load-At w at, (==_iff _ _).1 nothing)
        refl
    where
      nothing : chunk_size st.send_window len st.send_window ≡ 0
      nothing = ground arith
