-- ===== src/Streams/Read.antt =====
-- The calls of `yamux_stream_read` (src/yamux_stream.c).
use tiny_yamux.Base.{
  ℕ, ◌≡◌, ◌≢◌, inl, inr, refl, sym, ap, ◌∙◌, false, ◌&&◌, some, List, [], ◌∷◌, ◌++◌, length, take,
  drop, ltb, ◌==◌, if◌then◌else◌, Bool-cases, ==-false, append-nil,
}
use tiny_yamux.Protocol.{ok, closed, state_code, type_window_update, be32}
use tiny_yamux.Frame.{header_bytes}
use tiny_yamux.Buffer.{Buffer}
use tiny_yamux.Buffer.Queue.{Represents}
use tiny_yamux.Buffer.Takes.{read_takes, compact_keeps}
use tiny_yamux.World.{Ptr, Stream, World, pure, ◌>>=◌, ◌>>◌, update}
use tiny_yamux.World.Laws.{
  At, update-update, not_null, load-At, encode_local_frame, put_u32_payload,
}
use tiny_yamux.World.Calls.{
  replaced, store-replaced, replaced-At, sent_world, io_write-sent, sent-sent_world,
  heap-sent_world, heap-replaced, sent-replaced,
}
use tiny_yamux.Streams.{header}
use tiny_yamux.Streams.Transfer.{window_increment, announce, compact_read, read_buffer, stream_read}

-- A WINDOW_UPDATE frame of the increment `v`, header and payload.
abbrev pub increment_frame : (id v : ℕ) → List ℕ
increment_frame id v = header_bytes (header type_window_update 0 id 4) ++ be32 v

pub announce-sent :
    {C : Type 0} (w : World C) (st : Stream) (n : ℕ)
    → announce st n w
      ≡ some (tt, sent_world w (increment_frame st.id (window_increment st.recv_window n)))
unfolding announce
announce-sent w st n =
    simp
      (
        announce,
        ◌>>=◌,
        encode_local_frame (header type_window_update 0 st.id 4) w,
        put_u32_payload (header type_window_update 0 st.id 4) (window_increment st.recv_window n),
        io_write-sent w (increment_frame st.id (window_increment st.recv_window n)),
      )
      refl

compact_read-keeps :
    {C : Type 0} (w : World C) {b : Buffer} {q : List ℕ}
    → Represents b q
    → (b' : Buffer) × (compact_read b w ≡ some (b', w)) × Represents b' q
unfolding compact_read
compact_read-keeps w {b} rep = elim (Bool-cases (ltb 0 b.pos && b.pos == b.used)) [
  | inr e ↦ (b, simp (compact_read, e) refl, rep)
  | inl e ↦
      let (b', run, rep', _, _) = compact_keeps rep in
      (b', simp (compact_read, e) (rw (run) refl), rep')
]

-- What a read of `bytes` announces: nothing if there are none.
abbrev pub announced : Stream → List ℕ → List (List ℕ)
announced st bytes =
    if ltb 0 (length bytes)
    then (increment_frame st.id (window_increment st.recv_window (length bytes)) ∷ [])
    else []

-- The announcement, if any, leaves the streams.
announce-announced :
    {C : Type 0} (w : World C) (st : Stream) (bytes : List ℕ)
    → (w' : World C) × ((if ltb 0 (length bytes) then announce st (length bytes) else pure tt) w
        ≡ some (tt, w'))
      × (w'.heap ≡ w.heap)
      × (w'.sent ≡ w.sent ++ announced st bytes)
announce-announced w st bytes = elim (Bool-cases (ltb 0 (length bytes))) [
  | inl e ↦
      let frame = increment_frame st.id (window_increment st.recv_window (length bytes)) in
      (
        sent_world w frame,
        rw e (announce-sent w st (length bytes)),
        heap-sent_world w frame,
        rw e (sent-sent_world w frame),
      )
  | inr e ↦ (w, rw e refl, refl, rw e (sym (append-nil w.sent)))
]

-- `yamux_stream_read` for `len` bytes, 0 < `len`, on a stream that is not closed succeeds: it takes the
-- first `len` unread bytes, or all if there are fewer, and the stream keeps the others. If it took
-- any, it sends one WINDOW_UPDATE. The stream's receive window stays as it was, like all else.
pub stream_read_takes :
    {C : Type 0} (w : World C) {p : Ptr} {st : Stream} {q : List ℕ} (len : ℕ)
    → At w.heap p st
    → (state_code st.state == state_code closed) ≡ false
    → Represents st.recvbuf q
    → len ≢ 0
    → (w' : World C) × (b' : Buffer) × (stream_read p len w ≡ some ((ok, take len q), w'))
      × Represents b' (drop len q)
      × (w'.heap ≡ update w.heap p (some (record st { recvbuf = b' })))
      × (w'.sent ≡ w.sent ++ announced st (take len q))
unfolding stream_read read_buffer
stream_read_takes {C} w {p} {st} {q} len at alive rep ne =
    let (b₁, taken, rep₁) = read_takes len rep ne in
    let w₁ = replaced w p (record st { recvbuf = b₁ }) in
    let (w₂, told, same_heap, sent) = announce-announced w₁ st (take len q) in
    let (b₂, compacted, rep₂) = compact_read-keeps w₂ rep₁ in
    let at₂ : At w₂.heap p (record st { recvbuf = b₁ }) =
      rw same_heap (replaced-At w (record st { recvbuf = b₁ }) at) in
    (
      replaced w₂ p (record st { recvbuf = b₂ }),
      b₂,
      simp
          (
            stream_read,
            read_buffer,
            ◌>>=◌,
            ◌>>◌,
            not_null at,
            ==-false len 0 ne,
            load-At w at,
            alive,
            taken,
            store-replaced w (record st { recvbuf = b₁ }) at,
          )
          (rw (◌>>◌, ◌>>=◌, told, compacted, store-replaced w₂ (record st { recvbuf = b₂ }) at₂)
            refl),
      rep₂,
      heap-replaced w₂ p (record st { recvbuf = b₂ })
          ∙ ap (λ h. update h p (some (record st { recvbuf = b₂ })))
              (same_heap ∙ heap-replaced w p (record st { recvbuf = b₁ }))
          ∙ update-update w.heap p (some (record st { recvbuf = b₁ }))
              (some (record st { recvbuf = b₂ })),
      sent-replaced w₂ p (record st { recvbuf = b₂ })
          ∙ sent
          ∙ ap (λ s. s ++ announced st (take len q))
              (sent-replaced w p (record st { recvbuf = b₁ })),
    )
