-- ===== src/Handlers/WindowUpdate/Admits.antt =====
-- What a SYN at a server leaves (src/yamux_handlers.c).
use tiny_yamux.World.Calls.{AcceptsAll}
use tiny_yamux.Base.{
  ℕ, ◌^◌, ◌<◌, ◌≡◌, inl, inr, refl, sym, ap, ◌∙◌, arith, true, false, some, List, [], ◌∷◌, ◌++◌,
  ◌==◌, if◌then◌else◌,
}
use tiny_yamux.Protocol.{ok, flag_syn, has, be32, initial_buffer_size}
use tiny_yamux.Buffer.{Buffer}
use tiny_yamux.Buffer.Queue.{Represents}
use mathlib.Core.Bool.{false≢true}
use tiny_yamux.World.{
  for_buffer, for_stream, Purpose, Ptr, null, Stream, Session, World, ◌>>=◌, zero_buffer,
  sizeof_stream,
}
use tiny_yamux.World.Laws.{At}
use tiny_yamux.World.Calls.{after_read, sent_world}
use tiny_yamux.Table.Lookup.{stream_of, lookup, slots_of}
use tiny_yamux.Table.SameIds.{lookup-SameIds}
use tiny_yamux.Buffer.Starts.{init-Represents}
use tiny_yamux.Table.Born.{born, born-At, born-IsTable, born-stream_of}
use tiny_yamux.Table.Add.{add_stream_lem}
use tiny_yamux.AcceptQueue.Fifo.{IsQueue-same, IsQueue}
use tiny_yamux.Handlers.WindowUpdate.{
  continue, accepted, admit, syn_new, on_syn, on_ack, on_window, on_fin, on_rst, rest_of_update,
  handle_window_update,
}
use tiny_yamux.Handlers.WindowUpdate.Effects.{update_frame, payload-syn, get_stream-after_read}
use tiny_yamux.Handlers.WindowUpdate.Syn.{
  IsReady, admit-listed, answered, answered-At, syn_ack_frame,
}

-- The new stream of a SYN, waiting in the queue before `next`.
abbrev pub newcomer : (id send_window recv_window : ℕ) → Buffer → Ptr → Stream
newcomer id send_window recv_window buffer next =
    record (accepted id send_window recv_window buffer) { next = next }

-- What a SYN for `id` with the window `v` leaves.
pub record Admitted {C : Type 0} (w : World C) (q : List Ptr) (id v : ℕ) (w' : World C)
    : Type 0 where
  pub buffer : Buffer
  pub next : Ptr
  pub stream :
      At w'.heap w.fresh (newcomer id v w.session.config.max_stream_window_size buffer next)
  pub unread_none : Represents buffer []
  pub queue : IsQueue w' (q ++ (w.fresh ∷ []))
  pub found : (id' : ℕ) → stream_of w' id' ≡ (if id == id' then w.fresh else stream_of w id')
  pub answer : w'.sent ≡ w.sent ++ (syn_ack_frame id w.session.config.max_stream_window_size ∷ [])

module _ {C : Type 0} (w : World C) {q : List Ptr} (ready : IsReady w q) (id v : ℕ)
    (buffer : Buffer) (rep : Represents buffer []) where
  abbrev new : Stream
  new = accepted id v w.session.config.max_stream_window_size buffer

  admit-Admitted :
      stream_of w id ≡ null
      → AcceptsAll w.session.io
      → ((purpose : Purpose) (n : ℕ) → w.grants purpose n ≡ true)
      → (w' : World C) × (admit new w ≡ some (continue w.fresh, w')) × Admitted w q id v w'
  unfolding born sent_world
  admit-Admitted absent all grants =
      elim (add_stream_lem (born w new) (born-At w ready.table ready.vacant ready.queue.started new)
        (born-IsTable w ready.table ready.vacant ready.queue.started new) ready.is_open) [
          | inr (taken, _) ↦ absurd (
              taken (born-stream_of w ready.table ready.vacant ready.queue.started new id ∙ absent))
          | inl (_, inr (_, _, _, refused)) ↦ absurd (false≢true (sym refused ∙ grants _ _))
          | inl (_, inl (s', e, ins)) ↦
              let (w', run, enq) = admit-listed w ready new s' ins all e in
              (
                w',
                run,
                record {
                  buffer = buffer;
                  next = (enq.kept w.fresh new (answered-At w ready new s' ins)).0;
                  stream = (enq.kept w.fresh new (answered-At w ready new s' ins)).1;
                  unread_none = rep;
                  queue = enq.queue;
                  found = λ id'.
                      ap (λ slots. lookup w'.heap slots id')
                        (ap {A = Session C} slots_of enq.same_session)
                      ∙ lookup-SameIds (answered w ready new s' ins).heap w'.heap
                          (λ a st at. (_, (enq.kept a st at).1, refl)) (slots_of s') id'
                          ins.table.live
                      ∙ ins.found id'
                      ∙ ap (λ p. if id == id' then w.fresh else p)
                          (born-stream_of w ready.table ready.vacant ready.queue.started new id');
                  answer = enq.same_sent;
                },
              )
        ]

-- The rest of the handler does nothing for a SYN without other flags.
rest-syn :
    {C : Type 0} (w : World C) (id v : ℕ) (p : Ptr)
    → rest_of_update (update_frame flag_syn id 4) v p w ≡ some (ok, w)
unfolding rest_of_update on_ack on_window on_fin on_rst has
rest-syn w id v p = refl

syn_new-Admitted :
    {C : Type 0} (w : World C) {q : List Ptr} (id v : ℕ)
    → IsReady w q
    → stream_of w id ≡ null
    → AcceptsAll w.session.io
    → ((purpose : Purpose) (n : ℕ) → w.grants purpose n ≡ true)
    → (w' : World C) × (syn_new (update_frame flag_syn id 4) v w ≡ some (continue w.fresh, w'))
      × Admitted w q id v w'
unfolding syn_new
syn_new-Admitted w id v ready absent all grants =
    let (buffer, made, rep) =
      init-Represents (w.grants for_buffer) zero_buffer initial_buffer_size
        (grants for_buffer initial_buffer_size) (omega arith) (omega arith) in
    let (w', run, adm) = admit-Admitted w ready id v buffer rep absent all grants in
    (w', simp (syn_new, ◌>>=◌, grants for_stream sizeof_stream, made) run, adm)

-- A SYN with the window `v` for a new id, at a server that is open and in order, whose allocator has
-- memory and whose callback takes every write whole, succeeds: a new stream in state SYN_RECV with the
-- send window `v` and nothing to read is in the table under its id, where all else stays, and at the
-- end of the accept queue, and exactly one SYN-ACK with the configured window is sent.
pub syn-Admitted :
    {C : Type 0} (w : World C) {q : List Ptr} (id v : ℕ)
    → IsReady w q
    → w.session.client ≡ false
    → stream_of w id ≡ null
    → AcceptsAll w.session.io
    → ((purpose : Purpose) (n : ℕ) → w.grants purpose n ≡ true)
    → v < 2 ^ 32
    → (w.session.io.read w.ctx 4).0 ≡ some (be32 v)
    → (w' : World C) × (handle_window_update (update_frame flag_syn id 4) w ≡ some (ok, w'))
      × Admitted w q id v w'
unfolding handle_window_update on_syn has after_read
syn-Admitted {C} w {q} id v ready server absent all grants small got =
    let w₀ = after_read w 4 in
    let ready₀ : IsReady w₀ q = record {
      table = ready.table;
      queue = IsQueue-same refl refl refl ready.queue;
      vacant = ready.vacant;
      is_open = ready.is_open;
    } in
    let (w', run, adm) = syn_new-Admitted w₀ id v ready₀ absent all grants in
    (
      w',
      simp
          (
            handle_window_update,
            on_syn,
            has,
            ◌>>=◌,
            payload-syn w v small got id,
            get_stream-after_read w 4 id ready.table,
            server,
            absent,
          )
          (rw (◌>>=◌, run) (rest-syn w' id v w.fresh)),
      record {
        buffer = adm.buffer;
        next = adm.next;
        stream = adm.stream;
        unread_none = adm.unread_none;
        queue = adm.queue;
        found = adm.found;
        answer = adm.answer;
      },
    )
