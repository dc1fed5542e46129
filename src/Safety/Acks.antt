-- ===== src/Safety/Acks.antt =====
-- What an ACK changes of a stream (src/yamux_handlers.c).
use tiny_yamux.Base.{ℕ, ◌≡◌, ◌⊎◌, inl, inr, refl, Bool, true, false, not, ◌==◌, ◌&&◌, if◌then◌else◌}
use tiny_yamux.Protocol.{
  StreamState, state_code, syn_sent, syn_recv, established, fin_sent, closed, has, flag_syn,
  flag_fin,
}
use tiny_yamux.World.{Stream}
use tiny_yamux.Handlers.WindowUpdate.{acked}

-- `st'` is `st` but for its state, and its send window may be `window`.
pub record Acks (st : Stream) (window : ℕ) (st' : Stream) : Type 0 where
  pub same_id : st'.id ≡ st.id
  pub same_next : st'.next ≡ st.next
  pub same_buffer : st'.recvbuf ≡ st.recvbuf
  pub same_recv : st'.recv_window ≡ st.recv_window
  pub send : (st'.send_window ≡ st.send_window) ⊎ (st'.send_window ≡ window)

Acks-if :
    {st : Stream} {window : ℕ} (b : Bool) {x y : Stream}
    → Acks st window x
    → Acks st window y
    → Acks st window (if b then x else y)
Acks-if true a a' = a
Acks-if false a a' = a'

pub acked-Acks :
    (client : Bool) (flags window : ℕ) (st : Stream) → Acks st window (acked client flags window st)
unfolding acked
acked-Acks client flags window st =
    Acks-if (client && (state_code st.state == state_code syn_sent && has flags flag_syn))
      (record {
        same_id = refl;
        same_next = refl;
        same_buffer = refl;
        same_recv = refl;
        send = inr refl;
      })
      (Acks-if
        (not client && (state_code st.state == state_code syn_recv && not (has flags flag_syn)))
        (same established)
        (Acks-if (state_code st.state == state_code fin_sent && has flags flag_fin) (same closed)
          (same st.state)))
  where
    same : (s : StreamState) → Acks st window (record st { state = s })
    same s = record {
      same_id = refl;
      same_next = refl;
      same_buffer = refl;
      same_recv = refl;
      send = inl refl;
    }
