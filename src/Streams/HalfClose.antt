-- ===== src/Streams/HalfClose.antt =====
-- Closing a stream without a reset, while the peer may still send (src/yamux_stream.c).
use tiny_yamux.Base.{arith, ℕ, ◌≡◌, refl, false, some, List, ◌||◌, ◌==◌}
use mathlib.Core.Bool.{Bool}
use tiny_yamux.Protocol.{ok, closed, fin_recv, fin_sent, state_code, type_data, flag_fin}
use tiny_yamux.Frame.{header_bytes}
use tiny_yamux.World.{Ptr, Stream, World, ◌>>=◌, ◌>>◌}
use tiny_yamux.World.Laws.{At, not_null, load-At, encode_local_header}
use tiny_yamux.World.Calls.{sent_world, io_write-sent, sent_world-At, replaced, store-replaced}
use tiny_yamux.Streams.{header, close_normal, stream_close}

-- The frame that ends one direction of a stream.
abbrev pub fin_frame : ℕ → List ℕ
fin_frame id = header_bytes (header type_data flag_fin id 0)

pub or_false_left : (a b : Bool) → (a || b) ≡ false → a ≡ false
or_false_left a b h = ground arith

or_false_right : (a b : Bool) → (a || b) ≡ false → b ≡ false
or_false_right a b h = ground arith

-- `yamux_stream_close` without a reset, for a stream that is there and neither closed nor in FIN_RECV,
-- sends one FIN frame, whatever the callback says, and moves the stream to FIN_SENT; it succeeds and
-- changes nothing else.
pub stream_close_half :
    {C : Type 0} (w : World C) {p : Ptr} {st : Stream}
    → At w.heap p st
    → (state_code st.state == state_code closed || state_code st.state == state_code fin_recv)
      ≡ false
    → stream_close p false w
      ≡ some (ok, replaced (sent_world w (fin_frame st.id)) p (record st { state = fin_sent }))
unfolding stream_close close_normal
stream_close_half w {p} {st} at alive =
    simp
      (
        stream_close,
        close_normal,
        ◌>>=◌,
        ◌>>◌,
        not_null at,
        load-At w at,
        or_false_left (state_code st.state == state_code closed)
            (state_code st.state == state_code fin_recv) alive,
        or_false_right (state_code st.state == state_code closed)
            (state_code st.state == state_code fin_recv) alive,
        encode_local_header (header type_data flag_fin st.id 0) w,
        io_write-sent w (fin_frame st.id),
        store-replaced (sent_world w (fin_frame st.id)) (record st { state = fin_sent })
            (sent_world-At w (fin_frame st.id) at),
      )
      refl
