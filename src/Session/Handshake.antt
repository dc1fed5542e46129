-- ===== src/Session/Handshake.antt =====
-- A client and a server that run the same code open a stream between them (src/yamux_session.c,
-- src/yamux_stream.c, src/yamux_handlers.c).
use tiny_yamux.Base.{
  ℕ, ◌+◌, ◌^◌, ◌<◌, ◌≡◌, refl, sym, ap, ◌∙◌, arith, true, false, some, List, [], ◌∷◌, ◌++◌, take,
  drop, ==-self,
}
use tiny_yamux.Protocol.{ok, established, syn_sent, be32, default_window_size, flag_syn, flag_ack}
use tiny_yamux.Frame.{header_bytes}
use tiny_yamux.Frame.RoundTrip.{IsHeader}
use tiny_yamux.Buffer.{Buffer}
use tiny_yamux.World.{Purpose, null, Session, World, the_session}
use tiny_yamux.World.Laws.{At}
use tiny_yamux.World.Calls.{AcceptsAll, after_read, replaced, replaced-At}
use tiny_yamux.Table.Lookup.{IsTable, stream_of}
use tiny_yamux.Streams.{opened, stream_open_detailed}
use tiny_yamux.Streams.Open.{stream_open-Opened}
use tiny_yamux.Streams.Opening.{syn_frame}
use tiny_yamux.Handlers.WindowUpdate.Effects.{update_frame, syn_ack_establishes}
use tiny_yamux.Handlers.WindowUpdate.Syn.{IsReady, syn_ack_frame}
use tiny_yamux.Handlers.WindowUpdate.Admits.{Admitted}
use tiny_yamux.Session.{dispatch, session_process}
use tiny_yamux.Session.Frames.{process_dispatches}
use tiny_yamux.Session.Served.{syn_served}

-- The callback delivers the sixteen bytes of `frame` in a read of twelve and a read of four.
pub record Delivers {C : Type 0} (w : World C) (frame : List ℕ) : Type 0 where
  pub head : (w.session.io.read w.ctx 12).0 ≡ some (take 12 frame)
  pub rest : (w.session.io.read (w.session.io.read w.ctx 12).1 4).0 ≡ some (drop 12 frame)

update_frame-IsHeader :
    (flags id : ℕ) → flags < 2 ^ 16 → id < 2 ^ 32 → IsHeader (update_frame flags id 4)
update_frame-IsHeader flags id h h' = record {
  version_zero = refl;
  known_type = omega arith;
  flags_u16 = h;
  stream_id_u32 = h';
  length_u32 = omega arith;
}

frame_head :
    (flags id v : ℕ)
    → take 12 (header_bytes (update_frame flags id 4) ++ be32 v)
      ≡ header_bytes (update_frame flags id 4)
unfolding header_bytes be32
frame_head flags id v = refl

frame_rest : (flags id v : ℕ) → drop 12 (header_bytes (update_frame flags id 4) ++ be32 v) ≡ be32 v
unfolding header_bytes be32
frame_rest flags id v = refl

module _ {C : Type 0} (w : World C) (id window : ℕ) {buffer : Buffer} {p : ℕ} where
  -- The client's stream after the answer.
  answered_client :
      IsTable w.heap w.session
      → stream_of w id ≡ p
      → At w.heap p (record (opened id buffer) { state = syn_sent })
      → w.session.client ≡ true
      → w.session.go_away_received ≡ false
      → id < 2 ^ 32
      → window < 2 ^ 32
      → Delivers w (syn_ack_frame id window)
      → (w' : World C) × (session_process the_session w ≡ some (ok, w'))
        × At w'.heap p (record (opened id buffer) { state = established; send_window = window })
  unfolding dispatch after_read
  answered_client t found at client is_open id_fits fits d =
      let st = record (opened id buffer) { state = syn_sent } in
      let at₀ : At w.heap (stream_of w id) st = rw found at in
      (
        replaced (after_read (after_read w 12) 4) (stream_of w id)
            (record st { send_window = window; state = established }),
        process_dispatches w (update_frame (flag_syn + flag_ack) id 4)
              (update_frame-IsHeader (flag_syn + flag_ack) id (omega arith) id_fits) is_open
              (d.head ∙ ap some (frame_head (flag_syn + flag_ack) id window))
            ∙ syn_ack_establishes (after_read w 12) id window t at₀ client refl fits
                (d.rest ∙ ap some (frame_rest (flag_syn + flag_ack) id window)),
        rw (sym found) (
            replaced-At (after_read (after_read w 12) 4)
              (record st { send_window = window; state = established }) at₀),
      )

-- What the two sides are after the handshake.
pub record Shaken {C D : Type 0} (w : World C) (v : World D) (q : List ℕ) (c : C) (id window : ℕ)
    : Type 0 where
  pub asked : World C
  pub opens : stream_open_detailed the_session 0 w ≡ some ((ok, w.fresh), asked)
  pub request : asked.sent ≡ w.sent ++ (syn_frame id ∷ [])
  pub admitting : World D
  pub serves : session_process the_session v ≡ some (ok, admitting)
  pub admitted : Admitted v q id default_window_size admitting
  pub done : World C
  pub buffer : Buffer
  pub answered : session_process the_session (record asked { ctx = c }) ≡ some (ok, done)
  pub stream :
      At done.heap w.fresh (record (opened id buffer) { state = established; send_window = window })

-- What a side needs: memory, and a callback that takes every write whole.
pub record IsAble {C : Type 0} (w : World C) : Type 0 where
  pub writes : AcceptsAll w.session.io
  pub grants : (purpose : Purpose) (n : ℕ) → w.grants purpose n ≡ true

-- A client in order opens a stream with its next id, below 2^32, that neither side has; a server in
-- order processes the frame that the client has sent; the client processes the frame that the server
-- has answered, when its callbacks' context is `c`. Where both sides have memory and callbacks that
-- take every write whole, each call succeeds: exactly the frame that the server reads is what the client sends, the
-- server has a stream in SYN_RECV at the end of its accept queue, and the client's stream is
-- established, with the server's window, below 2^32, to send into.
pub handshake :
    {C D : Type 0} (w : World C) (v : World D) {p q : List ℕ} (c : C)
    → IsReady w p
    → w.session.client ≡ true
    → stream_of w w.session.next_stream_id ≡ null
    → IsAble w
    → w.session.next_stream_id < 2 ^ 32
    → IsReady v q
    → v.session.client ≡ false
    → stream_of v w.session.next_stream_id ≡ null
    → IsAble v
    → v.session.config.max_stream_window_size < 2 ^ 32
    → Delivers v (syn_frame w.session.next_stream_id)
    → Delivers
        (record w { ctx = c })
        (syn_ack_frame w.session.next_stream_id v.session.config.max_stream_window_size)
    → Shaken w v q c w.session.next_stream_id v.session.config.max_stream_window_size
unfolding after_read
handshake w v c client_ready client absent able id_fits ready server free able' fits request
      answer =
    let id : ℕ = w.session.next_stream_id in
    let window : ℕ = v.session.config.max_stream_window_size in
    let (w₁, buffer, run, o, _) =
      stream_open-Opened w client_ready.table client_ready.vacant client_ready.queue.started
        client_ready.is_open able.writes able.grants absent in
    let (v₁, run', adm) =
      syn_served v id ready server free able'.writes able'.grants id_fits
        (record {
          is_open = ready.is_open;
          reads = request.head ∙ ap some (frame_head flag_syn id default_window_size);
        })
        (request.rest ∙ ap some (frame_rest flag_syn id default_window_size)) in
    let (w₂, run'', at) =
      answered_client (record w₁ { ctx = c }) id window o.table (o.found id ∙ rw (==-self id) refl)
        o.stream (ap {A = Session _} (λ s. s.client) o.same_rest ∙ client)
        (ap {A = Session _} (λ s. s.go_away_received) o.same_rest ∙ client_ready.is_open) id_fits
        fits
        (record {
          head = ap {A = Session _} (λ s. (s.io.read c 12).0) o.same_rest ∙ answer.head;
          rest =
              ap {A = Session _} (λ s. (s.io.read (s.io.read c 12).1 4).0) o.same_rest
              ∙ answer.rest;
        }) in
    record {
      asked = w₁;
      opens = run;
      request = o.sent;
      admitting = v₁;
      serves = run';
      admitted = adm;
      done = w₂;
      buffer = buffer;
      answered = run'';
      stream = at;
    }
