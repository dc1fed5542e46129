-- ===== src/Session/Served.antt =====
-- Frames that another session sent, as `yamux_session_process` handles them (src/yamux_session.c).
use tiny_yamux.AcceptQueue.Fifo.{IsQueue-same}
use tiny_yamux.World.Calls.{AcceptsAll}
use tiny_yamux.Base.{
  ℕ, ◌+◌, ◌^◌, ◌<◌, ◌≤◌, ◌≡◌, ◌≢◌, refl, sym, ◌∙◌, arith, true, false, ◌||◌, some, List, length,
  ◌==◌,
}
use mathlib.Core.Path.{subst}
use tiny_yamux.Protocol.{
  StreamState, idle, syn_sent, syn_recv, established, fin_sent, flag_fin, has, ok, closed, fin_recv,
  state_code, type_data, type_window_update, flag_syn, default_window_size, window_update_threshold,
  be32,
}
use tiny_yamux.Frame.RoundTrip.{IsHeader}
use tiny_yamux.Buffer.Queue.{Represents}
use tiny_yamux.World.{Purpose, Ptr, null, Stream, World, the_session, ◌>>=◌, ◌>>◌}
use tiny_yamux.World.Laws.{At, not_null, load-At}
use tiny_yamux.World.Calls.{replaced, store-replaced, after_read}
use tiny_yamux.Table.Lookup.{get_stream-stream_of, IsTable, stream_of}
use tiny_yamux.Streams.{header}
use tiny_yamux.Handlers.{fin_received, handle_data}
use tiny_yamux.Handlers.RecvBuf.{HasRecvBuf}
use tiny_yamux.Handlers.Delivery.{DataOutcome, data_delivered}
use tiny_yamux.Handlers.WindowUpdate.Syn.{IsReady}
use tiny_yamux.Handlers.WindowUpdate.Admits.{Admitted, syn-Admitted}
use tiny_yamux.Session.{dispatch, session_process}
use tiny_yamux.Session.Frames.{Receives, process_dispatches}

-- The frame that `yamux_stream_open_detailed` sends, read by an open server in order, whose allocator
-- has memory and whose callback takes every write whole, is served by `yamux_session_process`: the
-- stream is admitted with the default window, as on a SYN.
pub syn_served :
    {C : Type 0} (w : World C) {q : List Ptr} (id : ℕ)
    → IsReady w q
    → w.session.client ≡ false
    → stream_of w id ≡ null
    → AcceptsAll w.session.io
    → ((purpose : Purpose) (n : ℕ) → w.grants purpose n ≡ true)
    → id < 2 ^ 32
    → Receives w (header type_window_update flag_syn id 4)
    → (w.session.io.read (after_read w 12).ctx 4).0 ≡ some (be32 default_window_size)
    → (w' : World C) × (session_process the_session w ≡ some (ok, w'))
      × Admitted w q id default_window_size w'
unfolding dispatch after_read
syn_served {C} w {q} id ready server absent all grants small r got =
    let w₀ = after_read w 12 in
    let ready₀ : IsReady w₀ q = record {
      table = ready.table;
      queue = IsQueue-same refl refl refl ready.queue;
      vacant = ready.vacant;
      is_open = ready.is_open;
    } in
    let (w', run, adm) =
      syn-Admitted w₀ id default_window_size ready₀ server absent all grants (omega arith) got in
    (
      w',
      process_dispatches w (header type_window_update flag_syn id 4) valid r.is_open r.reads ∙ run,
      record {
        buffer = adm.buffer;
        next = adm.next;
        stream = adm.stream;
        unread_none = adm.unread_none;
        queue = adm.queue;
        found = adm.found;
        answer = adm.answer;
      },
    )
  where
    valid : IsHeader (header type_window_update flag_syn id 4)
    valid = record {
      version_zero = refl;
      known_type = omega arith;
      flags_u16 = omega arith;
      stream_id_u32 = small;
      length_u32 = omega arith;
    }

-- A DATA frame as `yamux_stream_write` sends it, header and chunk, read by a session that has the
-- stream, is handled by `yamux_session_process`: the chunk is appended to the stream's unread bytes, or
-- memory is reported to be short. (Under the conditions on stream and buffers that the handler has.)
pub chunk_served :
    {C : Type 0} (w : World C) {st : Stream} {q : List ℕ} (id : ℕ) (chunk : List ℕ)
    → IsTable w.heap w.session
    → At w.heap (stream_of w id) st
    → (state_code st.state == state_code closed || state_code st.state == state_code fin_recv)
      ≡ false
    → Represents st.recvbuf q
    → HasRecvBuf w.session
    → id < 2 ^ 32
    → Receives w (header type_data 0 id (length chunk))
    → (w.session.io.read (after_read w 12).ctx (length chunk)).0 ≡ some chunk
    → 0 < length chunk
    → st.recvbuf.used + length chunk < 2 ^ 64
    → window_update_threshold + length chunk ≤ st.recv_window
    → st.recv_window < 2 ^ 32
    → DataOutcome (after_read w 12) (stream_of w id) st q chunk (session_process the_session w)
unfolding dispatch after_read
chunk_served w {st} {q} id chunk t at alive b has_buf small r got some_bytes fits room window =
    subst (λ o. DataOutcome (after_read w 12) (stream_of w id) st q chunk o)
      (sym (process_dispatches w (header type_data 0 id (length chunk)) valid r.is_open r.reads))
      (data_delivered (after_read w 12) id chunk t at alive b
        (record { is_sized = has_buf.is_sized }) got some_bytes fits room window)
  where
    valid : IsHeader (header type_data 0 id (length chunk))
    valid = record {
      version_zero = refl;
      known_type = omega arith;
      flags_u16 = omega arith;
      stream_id_u32 = small;
      length_u32 = omega arith;
    }

handle_data-fin :
    {C : Type 0} (w : World C) {st : Stream} (id : ℕ)
    → IsTable w.heap w.session
    → At w.heap (stream_of w id) st
    → (state_code st.state == state_code closed || state_code st.state == state_code fin_recv)
      ≡ false
    → handle_data the_session (header type_data flag_fin id 0) w
      ≡ some (ok, replaced w (stream_of w id) (record st { state = fin_received st.state }))
unfolding handle_data has
handle_data-fin w {st} id t at alive =
    simp
      (
        handle_data,
        has,
        ◌>>=◌,
        ◌>>◌,
        get_stream-stream_of w id t,
        not_null at,
        load-At w at,
        alive,
        store-replaced w (record st { state = fin_received st.state }) at,
      )
      refl

-- What a FIN makes of a stream's state.
abbrev pub FinMoves : (before after : StreamState) → Type 0
FinMoves before after =
    (before ≡ established → after ≡ fin_recv)
    × (before ≡ fin_sent → after ≡ closed)
    × (before ≢ established → before ≢ fin_sent → after ≡ before)

fin_received-FinMoves : (s : StreamState) → FinMoves s (fin_received s)
unfolding fin_received
fin_received-FinMoves established = (λ _. refl, λ e. cc, λ ne. absurd (ne refl))
fin_received-FinMoves fin_sent = (λ e. cc, λ _. refl, λ _ ne. absurd (ne refl))
fin_received-FinMoves idle = (λ e. cc, λ e. cc, λ _ _. refl)
fin_received-FinMoves syn_sent = (λ e. cc, λ e. cc, λ _ _. refl)
fin_received-FinMoves syn_recv = (λ e. cc, λ e. cc, λ _ _. refl)
fin_received-FinMoves fin_recv = (λ _. refl, λ e. cc, λ _ _. refl)
fin_received-FinMoves closed = (λ e. cc, λ _. refl, λ _ _. refl)

-- The FIN frame that closing a stream without a reset sends, read by a session that has the stream,
-- neither closed nor in FIN_RECV: `yamux_session_process` succeeds, moves the stream from ESTABLISHED to
-- FIN_RECV or from FIN_SENT to CLOSED, leaves any other state, SYN_RECV too, and changes nothing else.
pub fin_served :
    {C : Type 0} (w : World C) {st : Stream} (id : ℕ)
    → IsTable w.heap w.session
    → At w.heap (stream_of w id) st
    → (state_code st.state == state_code closed || state_code st.state == state_code fin_recv)
      ≡ false
    → id < 2 ^ 32
    → Receives w (header type_data flag_fin id 0)
    → (after : StreamState) × (session_process the_session w
        ≡ some (ok, replaced (after_read w 12) (stream_of w id) (record st { state = after })))
      × FinMoves st.state after
unfolding dispatch after_read
fin_served w {st} id t at alive small r = (
  fin_received st.state,
  process_dispatches w (header type_data flag_fin id 0) valid r.is_open r.reads
      ∙ handle_data-fin (after_read w 12) id t at alive,
  fin_received-FinMoves st.state,
)
  where
    valid : IsHeader (header type_data flag_fin id 0)
    valid = record {
      version_zero = refl;
      known_type = omega arith;
      flags_u16 = omega arith;
      stream_id_u32 = small;
      length_u32 = omega arith;
    }
