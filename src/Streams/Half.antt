-- ===== src/Streams/Half.antt =====
-- How far a write gets through a window (src/yamux_stream.c).
use tiny_yamux.World.Calls.{AcceptsAll}
use tiny_yamux.Base.{
  ℕ, suc, ◌+◌, ◌-◌, ◌≤◌, ◌≡◌, refl, ap, ◌∙◌, arith, true, false, some, List, [], ◌∷◌, ◌++◌, take,
  drop, length, ltb, if◌then◌else◌, ==-false, ==-self, append_assoc,
}
use tiny_yamux.Protocol.{type_data, ok}
use mathlib.Core.Path.{subst}
use tiny_yamux.Frame.{header_bytes}
use tiny_yamux.Streams.{header}
use tiny_yamux.World.{Ptr, Stream, World, ◌>>=◌, update, io_write}
use tiny_yamux.World.Laws.{At, not_null, load-At, At-update, encode_local_header}
use tiny_yamux.Streams.Transfer.{chunk_size, send_chunk, write_loop, write_checked, stream_write}
use tiny_yamux.Streams.Rounds.{write_loop-round, after_chunk}
use tiny_yamux.Streams.Write.{write_loop-halfway}
use tiny_yamux.Streams.WriteCall.{finished}

pub send_chunk-accepts :
    {C : Type 0} (w : World C) (id : ℕ) (chunk : List ℕ)
    → AcceptsAll w.session.io
    → (w' : World C) × (send_chunk id chunk w ≡ some (true, w'))
      × (w'.heap ≡ w.heap)
      × (w'.sent ≡ w.sent ++ (header_bytes (header type_data 0 id (length chunk)) ∷ chunk ∷ []))
unfolding send_chunk io_write header_bytes
send_chunk-accepts w id chunk all =
    let head = header_bytes (header type_data 0 id (length chunk)) in
    let first = w.session.io.write w.ctx head in
    (
      record w {
        ctx = (w.session.io.write first.1 chunk).1;
        sent = (w.sent ++ (head ∷ [])) ++ (chunk ∷ []);
      },
      simp
          (
            send_chunk,
            ◌>>=◌,
            encode_local_header,
            all w.ctx head,
            all first.1 chunk,
            ==-self (length chunk),
          )
          refl,
      refl,
      append_assoc w.sent (head ∷ []) (chunk ∷ []),
    )

first_chunk : (v : ℕ) → v ≡ 32768 → chunk_size 0 32768 v ≡ 16384
unfolding chunk_size
first_chunk v e = rw e refl

-- The two rounds of a loop over a window of 32768 bytes.
half_rounds :
    {C : Type 0} (k : ℕ) (w : World C) {p : Ptr} {st : Stream} (buf : List ℕ)
    → AcceptsAll w.session.io
    → At w.heap p st
    → 32768 ≤ length buf
    → st.send_window ≡ 32768
    → (w' : World C) × (write_loop (suc (suc k)) p buf 32768 0 w ≡ some ((ok, 16384), w'))
      × At w'.heap p (record st { send_window = 16384 })
half_rounds k w {p} {st} buf all at inb window =
    let c : ℕ = chunk_size 0 32768 st.send_window in
    let first : c ≡ 16384 = first_chunk st.send_window window in
    let (w', e, same, _) = send_chunk-accepts w st.id (take c (drop 0 buf)) all in
    let at' : At w'.heap p st = rw same at in
    let left : st.send_window - c ≡ 16384 = omega arith in
    let st₂ : Stream = record st { send_window = st.send_window - c } in
    let at₂ : At (update w'.heap p (some st₂)) p st₂ = At-update w'.heap p st₂ at.ne_null in
    let stops =
      write_loop-halfway p buf 32768 k (after_chunk p buf 32768 w' st c) at₂ (omega arith)
        (omega arith) in
    let round =
      write_loop-round p buf 32768 (suc k) w w' 0 at (omega arith) inb (omega arith) (omega arith)
        (omega arith) (omega arith) e at' in
    (
      after_chunk p buf 32768 w' st c,
      round
          ∙ ap (λ t. write_loop (suc k) p buf 32768 t (after_chunk p buf 32768 w' st c)) {x = 0 + c}
              {y = st₂.send_window} (omega arith)
          ∙ stops
          ∙ ap (λ n. some ((ok, n), after_chunk p buf 32768 w' st c)) left,
      subst (λ n. At (update w'.heap p (some st₂)) p (record st { send_window = n })) left at₂,
    )

-- The room that the loop computes counts the bytes already sent twice: with a window of 32768 a call
-- for 32768 bytes or more stops after 16384 of them and returns YAMUX_OK, though the callback takes
-- every write and half of the window is left.
pub stream_write_half :
    {C : Type 0} (w : World C) {p : Ptr} {st : Stream} (buf : List ℕ) (len : ℕ)
    → AcceptsAll w.session.io
    → At w.heap p st
    → finished st.state ≡ false
    → 32768 ≤ len
    → len ≤ length buf
    → st.send_window ≡ 32768
    → (w' : World C) × (stream_write p (some buf) len w ≡ some ((ok, 16384), w'))
      × At w'.heap p (record st { send_window = 16384 })
unfolding stream_write write_checked
stream_write_half w {p} {st} buf len all at live big inb window =
    let (w', e, at') = half_rounds 32767 w buf all at (omega arith) window in
    (
      w',
      simp
          (
            stream_write,
            write_checked,
            not_null at,
            ◌>>=◌,
            load-At w at,
            live,
            ==-false len 0 (omega arith),
            ==-false st.send_window 0 (omega arith),
            capped,
          )
          e,
      at',
    )
  where
    capped : (if ltb st.send_window len then st.send_window else len) ≡ 32768
    capped = ground arith
