-- ===== src/Handlers/Filling.antt =====
-- The bytes of a payload go to the stream's buffer (src/yamux_handlers.c).
use tiny_yamux.Base.{
  false, ℕ, ◌+◌, ◌-◌, ◌^◌, ◌<◌, ◌≤◌, ◌≡◌, ◌≢◌, ◌⊎◌, inl, inr, refl, arith, Option, some, List, ◌++◌,
  length, take, ltb-false,
}
use tiny_yamux.Protocol.{Result, ok, err_nomem, sub_u32, window_update_threshold}
use tiny_yamux.Buffer
use tiny_yamux.Buffer.{new_size, Buffer}
use tiny_yamux.Buffer.Queue.{Represents}
use tiny_yamux.Buffer.Appends.{write_appends}
use tiny_yamux.World.{for_buffer, Ptr, Stream, World, ◌>>=◌, ◌>>◌, store}
use tiny_yamux.World.Laws.{At, load-At}
use tiny_yamux.World.Calls.{replaced, store-replaced, replaced-At, replaced-same, replaced-replaced}
use tiny_yamux.Handlers.{write_buffer, refill_window, deliver}

-- A window that is large enough is left alone.
refill_window-high :
    {C : Type 0} (w : World C) {p : Ptr} {st : Stream}
    → At w.heap p st
    → window_update_threshold ≤ st.recv_window
    → refill_window p w ≡ some (ok, w)
unfolding refill_window
refill_window-high w at high = simp (refill_window, ◌>>=◌, load-At w at, ltb-false _ _ high) refl

write_buffer_lem :
    {C : Type 0} (w : World C) (b : Buffer) (source : Option (List ℕ)) (len : ℕ)
    {r : Result × Buffer}
    → Buffer.write (w.grants for_buffer) b source len ≡ some r
    → write_buffer b source len w ≡ some (r, w)
unfolding write_buffer
write_buffer_lem w b source len e = rw (write_buffer, ◌>>=◌, e) refl

-- The stream once the bytes are in its buffer.
abbrev pub filled : Stream → Buffer → ℕ → Stream
filled st b len = record st { recvbuf = b; recv_window = st.recv_window - len }

module _ {C : Type 0} (w : World C) {p : Ptr} {st : Stream} {q source : List ℕ} (len : ℕ)
    (at : At w.heap p st) (stored : w.session.recv_buf ≡ some source)
    (b : Represents st.recvbuf q) where
  pub deliver-appends :
      len ≢ 0
      → len ≤ length source
      → st.recvbuf.used + len < 2 ^ 64
      → window_update_threshold + len ≤ st.recv_window
      → st.recv_window < 2 ^ 32
      → ((b' : Buffer) × Represents b' (q ++ take len source)
          × (b'.used ≡ st.recvbuf.used + len)
          × (deliver p len w ≡ some (ok, replaced w p (filled st b' len))))
        ⊎ ((deliver p len w ≡ some (err_nomem, w))
            × (st.recvbuf.size < st.recvbuf.used + len)
            × (w.grants for_buffer (new_size st.recvbuf len) ≡ false))
  unfolding deliver
  deliver-appends ne inb fits room small =
      elim (write_appends (w.grants for_buffer) source len b ne inb fits) [
        | inl (b', e, rep, more) ↦ inl (
          b',
          rep,
          more,
          simp
              (
                deliver,
                ◌>>=◌,
                ◌>>◌,
                load-At w at,
                stored,
                write_buffer_lem w st.recvbuf (some source) len e,
                store-replaced w (record st { recvbuf = b' }) at,
              )
              (delivered b'),
        )
        | inr (e, small', refused) ↦ inr (
          simp
              (
                deliver,
                ◌>>=◌,
                ◌>>◌,
                load-At w at,
                stored,
                write_buffer_lem w st.recvbuf (some source) len e,
              )
              (rw (store-replaced w st at, ◌>>=◌, replaced-same w at) refl),
          small',
          refused,
        )
      ]
    where
      delivered :
          (b' : Buffer)
          → ((store p (record st { recvbuf = b'; recv_window = sub_u32 st.recv_window len })
                >> refill_window p)
              (replaced w p (record st { recvbuf = b' })))
            ≡ some (ok, replaced w p (filled st b' len))
      delivered b' =
          let w₁ = replaced w p (record st { recvbuf = b' }) in
          let at₁ = replaced-At w (record st { recvbuf = b' }) at in
          let less : sub_u32 st.recv_window len ≡ st.recv_window - len = omega arith in
          rw
            (
              less,
              ◌>>◌,
              ◌>>=◌,
              store-replaced w₁ (filled st b' len) at₁,
              replaced-replaced w p (record st { recvbuf = b' }) (filled st b' len),
            )
            (refill_window-high (replaced w p (filled st b' len))
              (replaced-At w (filled st b' len) at) (omega arith))
