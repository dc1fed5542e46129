-- ===== src/Handlers/WindowUpdate/Syn.antt =====
-- A SYN at a server makes a new stream (src/yamux_handlers.c).
use tiny_yamux.World.Calls.{AcceptsAll}
use tiny_yamux.Base.{
  ℕ, suc, ◌+◌, ◌<◌, ◌≡◌, refl, ap, ◌∙◌, arith, false, none, some, List, [], ◌∷◌, ◌++◌,
}
use tiny_yamux.Protocol.{ok, flag_syn, flag_ack, be32}
use tiny_yamux.Frame.{header_bytes}
use tiny_yamux.World.{Ptr, Stream, Session, World, the_session, ◌>>=◌, ◌>>◌}
use tiny_yamux.World.Laws.{At, encode_local_frame, put_u32_payload}
use tiny_yamux.World.Calls.{sent_world, io_write-sent}
use tiny_yamux.Table.{add_stream}
use tiny_yamux.Table.Lookup.{IsTable}
use tiny_yamux.Table.Born.{born, new_stream-born, born-At}
use tiny_yamux.Table.Insert.{Inserted}
use tiny_yamux.AcceptQueue.Chain.{NotIn, Below, Chain-update}
use tiny_yamux.AcceptQueue.Fifo.{IsQueue, Enqueued, enqueue_appends}
use tiny_yamux.Handlers.WindowUpdate.{continue, send_syn_ack, admit}
use tiny_yamux.Handlers.WindowUpdate.Effects.{update_frame}

-- An open session in order: its table, its queue `q`, and an address to give that holds nothing.
pub record IsReady {C : Type 0} (w : World C) (q : List Ptr) : Type 0 where
  pub table : IsTable w.heap w.session
  pub queue : IsQueue w q
  pub vacant : w.heap w.fresh ≡ none
  pub is_open : w.session.go_away_received ≡ false

-- The SYN-ACK for a stream, with its window.
abbrev pub syn_ack_frame : (id window : ℕ) → List ℕ
syn_ack_frame id window = header_bytes (update_frame (flag_syn + flag_ack) id 4) ++ be32 window

send_syn_ack-sent :
    {C : Type 0} (w : World C) (id window : ℕ)
    → send_syn_ack id window w
      ≡ some (
        (w.session.io.write w.ctx (syn_ack_frame id window)).0,
        sent_world w (syn_ack_frame id window),
      )
unfolding send_syn_ack
send_syn_ack-sent w id window =
    simp
      (
        send_syn_ack,
        ◌>>=◌,
        encode_local_frame (update_frame (flag_syn + flag_ack) id 4) w,
        put_u32_payload (update_frame (flag_syn + flag_ack) id 4) window,
      )
      (io_write-sent w (syn_ack_frame id window))

pub NotIn-Below : (n : ℕ) (q : List ℕ) → Below n q → NotIn n q
NotIn-Below n [] b = tt
NotIn-Below n (x ∷ q) (lt, b) = (λ e. absurd (omega arith), NotIn-Below n q b)

pub Below-suc : (n : ℕ) (q : List ℕ) → Below n q → Below (suc n) q
Below-suc n [] b = tt
Below-suc n (x ∷ q) (lt, b) = (omega arith, Below-suc n q b)

module _ {C : Type 0} (w : World C) {q : List Ptr} (ready : IsReady w q) (st : Stream)
    (s' : Session C) (ins : Inserted (born w st).heap w.fresh st (born w st).session s') where
  -- The stream is in the table, and the SYN-ACK out.
  abbrev listed : World C
  listed = record (born w st) { session = s' }

  abbrev pub answered : World C
  answered = sent_world listed (syn_ack_frame st.id st.recv_window)

  same_queue : s'.accept_queue ≡ w.session.accept_queue
  unfolding born
  same_queue = ap {A = Session C} (λ s. s.accept_queue) ins.rest_same

  answered-IsQueue : IsQueue answered q
  unfolding born sent_world
  answered-IsQueue = record {
    chain = rw same_queue (
        Chain-update w.heap w.fresh (some st) w.session.accept_queue q ready.queue.chain
          (NotIn-Below w.fresh q ready.queue.below));
    apart = ready.queue.apart;
    below = Below-suc w.fresh q ready.queue.below;
    started = omega arith;
  }

  pub answered-At : At answered.heap w.fresh st
  unfolding born sent_world
  answered-At = born-At w ready.table ready.vacant ready.queue.started st

  answered-fresh : w.fresh < answered.fresh
  unfolding born sent_world
  answered-fresh = omega arith

  written_whole :
      AcceptsAll w.session.io
      → (listed.session.io.write listed.ctx (syn_ack_frame st.id st.recv_window)).0 ≡ some 16
  unfolding born header_bytes be32
  written_whole all =
      ap {A = Session C} (λ s. (s.io.write w.ctx (syn_ack_frame st.id st.recv_window)).0)
        ins.rest_same
      ∙ all w.ctx (syn_ack_frame st.id st.recv_window)

  -- What admitting the stream leaves.
  pub admit-listed :
      AcceptsAll w.session.io
      → add_stream the_session w.fresh (born w st) ≡ some (ok, listed)
      → (w' : World C) × (admit st w ≡ some (continue w.fresh, w'))
        × Enqueued answered (q ++ (w.fresh ∷ [])) w'
  unfolding admit
  admit-listed all added =
      let (w', run, enq) =
        enqueue_appends answered q answered-IsQueue answered-At answered-fresh
          (NotIn-Below w.fresh q ready.queue.below) in
      (
        w',
        simp
            (
              admit,
              ◌>>=◌,
              ◌>>◌,
              new_stream-born w st,
              added,
              send_syn_ack-sent listed st.id st.recv_window,
              written_whole all,
            )
            (rw (◌>>=◌, run) refl),
        enq,
      )
