-- ===== src/Safety/Transfers.antt =====
-- Reading, writing, closing and widening a stream keep a session in order (src/yamux_stream.c,
-- src/yamux_stream_ext.c).
use tiny_yamux.Base.{
  ℕ, ◌≡◌, ◌≢◌, inl, inr, refl, arith, false, List, length, ltb, ◌==◌, ◌&&◌, if◌then◌else◌,
  Bool-cases,
}
use tiny_yamux.Protocol.{closed, state_code}
use tiny_yamux.Buffer.{Buffer}
use tiny_yamux.World.{Ptr, Stream, World, ◌>>=◌, pure}
use tiny_yamux.World.Laws.{At, not_null, load-At}
use tiny_yamux.World.Calls.{sent_world}
use tiny_yamux.Streams.Transfer.{announce, compact_read, read_buffer, stream_read}
use tiny_yamux.Streams.Read.{announce-sent}
use tiny_yamux.Safety.{IsBuffer, InOrder}
use tiny_yamux.Safety.Total.{Returns, returns, Returns-pure, Returns-bind}
use tiny_yamux.Safety.Buffers.{read-IsBuffer, compact-IsBuffer}
use tiny_yamux.Safety.Keeps.{sent_world-InOrder}
use tiny_yamux.Safety.Commands.{InOrderAfter, IsSteady, IsSteady-At, store-Returns}

module _ {C : Type 0} {w : World C} (o : InOrder w) where
  announce-Returns : (old : Stream) (n : ℕ) → Returns (announce old n w) (λ _ w'. IsSteady w w')
  unfolding sent_world
  announce-Returns old n =
      returns tt _ (announce-sent w old n)
        (record { same_heap = refl; same_session = refl; in_order = sent_world-InOrder _ o })

  compact_read-Returns :
      {b : Buffer} → IsBuffer b → Returns (compact_read b w) (λ b' w'. IsBuffer b' × (w' ≡ w))
  unfolding compact_read
  compact_read-Returns {b} buf = elim (Bool-cases (ltb 0 b.pos && b.pos == b.used)) [
    | inr some_left ↦ rw some_left (Returns-pure (buf, refl))
    | inl all_read ↦
        let (b', e, buf') = compact-IsBuffer buf in rw (all_read, e) (Returns-pure (buf', refl))
  ]

  -- Nothing is announced for a read of nothing.
  announced-Returns :
      (old : Stream) (bytes : List ℕ)
      → Returns
          ((if ltb 0 (length bytes) then announce old (length bytes) else pure tt) w)
          (λ _ w'. IsSteady w w')
  announced-Returns old bytes = elim (Bool-cases (ltb 0 (length bytes))) [
    | inl some_there ↦ rw some_there (announce-Returns old (length bytes))
    | inr none_there ↦
        rw none_there
          (Returns-pure (record { same_heap = refl; same_session = refl; in_order = o }))
  ]

module _ {C : Type 0} {w : World C} (o : InOrder w) {p : Ptr} {st : Stream}
    (at : At w.heap p st) where
  -- `yamux_stream_read` into an array of at least `len` bytes.
  pub stream_read-InOrder : (len : ℕ) → Returns (stream_read p len w) InOrderAfter
  unfolding stream_read read_buffer
  stream_read-InOrder len = elim (Bool-cases (len == 0)) [
    | inl none_asked ↦ rw (not_null at, none_asked) (Returns-pure o)
    | inr asked ↦ elim (Bool-cases (state_code st.state == state_code closed)) [
      | inl over ↦ rw (not_null at, asked, ◌>>=◌, load-At w at, over) (Returns-pure o)
      | inr live ↦
          let sound = o.sound p st at in
          let (bytes, b, e, buf) = read-IsBuffer len sound.buffer (λ z. ne_zero asked z) in
          rw (not_null at, asked, ◌>>=◌, load-At w at, live, e)
            (Returns-bind
              (store-Returns o (record st { recvbuf = b }) at refl refl
                (record { buffer = buf; send_fits = sound.send_fits; recv_fits = sound.recv_fits }))
              λ _ w₁ (o₁, at₁). Returns-bind (announced-Returns o₁ st bytes) λ _ w₂ steady.
                Returns-bind (compact_read-Returns steady.in_order buf) λ b' w₃ (buf', e'). rw e' (
                  Returns-bind
                    (store-Returns steady.in_order (record st { recvbuf = b' })
                      (IsSteady-At steady at₁) refl refl
                      (record {
                        buffer = buf';
                        send_fits = sound.send_fits;
                        recv_fits = sound.recv_fits;
                      }))
                    λ _ w₄ (o₄, _). Returns-pure o₄))
    ]
  ]
    where
      ne_zero : (len == 0) ≡ false → len ≢ 0
      ne_zero ne z = ground arith
