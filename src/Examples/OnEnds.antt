-- ===== src/Examples/OnEnds.antt =====
-- The theorems on two sessions, on opening and closing, and on the queue as a whole.
use tiny_yamux.Base.{
  ℕ, ◌≡◌, ◌≢◌, ◌⊎◌, inl, refl, arith, true, false, none, some, List, [], ◌∷◌, replicate, eq_of_some,
}
use tiny_yamux.Protocol.{Result, ok, closed, fin_recv, fin_sent, type_data, type_go_away, be32}
use tiny_yamux.Frame.{IsBytes, header_bytes}
use tiny_yamux.Frame.RoundTrip.{IsHeader}
use tiny_yamux.Frame.Fields.{decode_header-IsHeader}
use tiny_yamux.World.{Ptr, null, World, the_session}
use tiny_yamux.World.Calls.{replaced, sent_world, after_read}
use tiny_yamux.Table.Lookup.{IsTable-same, IsTable, lookup}
use tiny_yamux.AcceptQueue.{enqueue_stream, stream_accept}
use tiny_yamux.AcceptQueue.Fifo.{Enqueued}
use tiny_yamux.AcceptQueue.Orders.{accept_all, accept_all-queue, enqueue_pushes}
use tiny_yamux.Streams.{header, stream_open_detailed, stream_close}
use tiny_yamux.Streams.Transfer.{stream_write}
use tiny_yamux.Streams.Asking.{OpenOutcome}
use tiny_yamux.Streams.Atomic.{stream_open_atomic}
use tiny_yamux.Streams.Dangling.{reset_dangles}
use tiny_yamux.Streams.FullClose.{Ended, stream_close_lem}
use tiny_yamux.Streams.HalfClose.{fin_frame}
use tiny_yamux.Handlers.Twins.{SameGoAway, handle_go_away_same}
use tiny_yamux.Handlers.WindowUpdate.Syn.{IsReady}
use tiny_yamux.Session.{fresh_session}
use tiny_yamux.Session.Handshake.{Shaken, handshake}
use tiny_yamux.Session.EndToEnd.{Arrives, stream_write-Arrives}
use tiny_yamux.Session.Message.{Received, message_passes}
use tiny_yamux.Examples.{new_world, running}
use tiny_yamux.Examples.OnStreams.{
  some_buffer-Represents, some_stream, with_stream, with_stream-At, with_stream-IsTable,
}
use tiny_yamux.Examples.OnSessions.{
  data_header, wire, wire-decoded, other_stream, queued, queued-IsQueue, two_streams-IsTable,
}
use tiny_yamux.Examples.OnServers.{new_world-IsTable, new_world-IsReady, syn_bytes, chunk_bytes}

new_client-IsReady : IsReady (new_world true []) []
unfolding fresh_session
new_client-IsReady = record {
  table = new_world-IsTable true [];
  queue = record { chain = refl; apart = tt; below = tt; started = omega arith };
  vacant = refl;
  is_open = refl;
}

-- The answer of a server to the client's SYN.
abbrev answer_bytes : List ℕ
answer_bytes = 0 ∷ 1 ∷ 0 ∷ 3 ∷ 0 ∷ 0 ∷ 0 ∷ 1 ∷ 0 ∷ 0 ∷ 0 ∷ 4 ∷ 0 ∷ 4 ∷ 0 ∷ 0 ∷ []

handshake_example : Shaken (new_world true []) (new_world false syn_bytes) [] answer_bytes 1 262144
unfolding fresh_session lookup header_bytes be32
handshake_example =
    handshake (new_world true []) (new_world false syn_bytes) answer_bytes new_client-IsReady refl
      refl (record { writes = λ c bytes. refl; grants = λ purpose n. refl }) (omega arith)
      (new_world-IsReady syn_bytes) refl refl
      (record { writes = λ c bytes. refl; grants = λ purpose n. refl }) (omega arith)
      (record { head = refl; rest = refl }) (record { head = refl; rest = refl })

message_passes_example :
    (w' : World (List ℕ)) × (stream_write 1 (some (1 ∷ 2 ∷ [])) 2 (with_stream some_stream [])
      ≡ some ((ok, 2), w'))
    × (w'.sent ≡ header_bytes (header type_data 0 5 2) ∷ (1 ∷ 2 ∷ []) ∷ [])
    × Received (with_stream some_stream chunk_bytes) 1 some_stream (8 ∷ 9 ∷ []) (1 ∷ 2 ∷ [])
unfolding fresh_session replicate lookup header_bytes be32 after_read
message_passes_example =
    message_passes (with_stream some_stream []) (with_stream some_stream chunk_bytes) (1 ∷ 2 ∷ []) 2
      (λ c bytes. refl) (with_stream-At some_stream []) refl (omega arith) (omega arith)
      (omega arith) (omega arith) (omega arith) (omega arith)
      (with_stream-IsTable some_stream chunk_bytes) (with_stream-At some_stream chunk_bytes) refl
      some_buffer-Represents (record { is_sized = inl (refl, refl) }) (omega arith) (omega arith)
      (omega arith) (record { is_open = refl; reads = refl }) refl

-- The message of two bytes once more, and a read of the first three.
stream_write-Arrives_example :
    (k : ℕ) × Arrives
      (λ i purpose n. true)
      k
      (with_stream some_stream chunk_bytes)
      1
      (8 ∷ 9 ∷ [])
      (1 ∷ 2 ∷ [])
      3
unfolding fresh_session replicate lookup header_bytes be32 running
stream_write-Arrives_example =
    stream_write-Arrives (with_stream some_stream []) (1 ∷ 2 ∷ []) 2 2 3
      (header_bytes (header type_data 0 5 2) ∷ (1 ∷ 2 ∷ []) ∷ []) (λ i purpose n. true)
      (with_stream-At some_stream []) refl (omega arith) (omega arith) (omega arith) (omega arith)
      (omega arith) (omega arith) refl refl
      (record {
        table = with_stream-IsTable some_stream chunk_bytes;
        found = refl;
        at = with_stream-At some_stream chunk_bytes;
        alive = refl;
        unread = some_buffer-Represents;
        has_buf = record { is_sized = inl (refl, refl) };
        is_open = refl;
      })
      (omega arith) (omega arith) (omega arith) (refl, (refl, tt)) (λ e. absurd (omega arith))

stream_open_atomic_example :
    (r : Result) × (p : Ptr) × (w' : World (List ℕ)) × (stream_open_detailed the_session 0
        (new_world true [])
      ≡ some ((r, p), w'))
    × OpenOutcome (new_world true []) 1 r p w'
unfolding fresh_session
stream_open_atomic_example =
    stream_open_atomic (new_world true []) 0 (new_world-IsTable true []) refl (omega arith) refl

accept_all-queue_example :
    (w' : World (List ℕ)) × (accept_all 2 queued ≡ some (1 ∷ [], w'))
    × (w'.session.accept_queue ≡ null)
unfolding fresh_session
accept_all-queue_example = accept_all-queue queued (1 ∷ []) queued-IsQueue refl

enqueue_pushes_example :
    (w' : World (List ℕ)) × (enqueue_stream the_session 2 queued ≡ some (ok, w'))
    × Enqueued queued (2 ∷ 1 ∷ []) w'
unfolding fresh_session
enqueue_pushes_example =
    enqueue_pushes queued (1 ∷ []) {st = other_stream} queued-IsQueue
      (record { ne_null = λ e. absurd (omega arith); holds = refl }) (omega arith)
      (λ e. absurd (omega arith), tt) refl (λ e. absurd (omega arith))

stream_close_lem_example :
    (w' : World (List ℕ)) × (stream_close 1 false (with_stream some_stream []) ≡ some (ok, w'))
    × (((some_stream.state ≡ closed) × (w' ≡ with_stream some_stream []))
        ⊎ ((some_stream.state ≡ fin_recv) × Ended (with_stream some_stream []) 1 some_stream w')
        ⊎ ((some_stream.state ≢ closed)
            × (some_stream.state ≢ fin_recv)
            × (w'
                ≡ replaced
                    (sent_world (with_stream some_stream []) (fin_frame 5))
                    1
                    (record some_stream { state = fin_sent }))))
stream_close_lem_example =
    stream_close_lem (with_stream some_stream []) (with_stream-At some_stream [])
      (with_stream-IsTable some_stream [])

queued-IsTable : IsTable queued.heap queued.session
queued-IsTable = IsTable-same refl refl refl two_streams-IsTable

reset_dangles_example :
    (w' : World (List ℕ)) × (stream_close 1 true queued ≡ some (ok, w'))
    × (stream_accept the_session w' ≡ none)
unfolding fresh_session
reset_dangles_example =
    reset_dangles queued {st = some_stream} [] queued-IsQueue queued-IsTable
      (record { ne_null = λ e. absurd (omega arith); holds = refl }) refl refl

-- A server that has a receive buffer and is told to go away.
abbrev told : World (List ℕ)
told = record (new_world false (0 ∷ 0 ∷ 0 ∷ 1 ∷ [])) {
  session = record (new_world false []).session {
    recv_buf = some (replicate 4 0);
    recv_buf_size = 4;
  };
}

handle_go_away_same_example : SameGoAway told (header type_go_away 0 0 4)
unfolding fresh_session replicate
handle_go_away_same_example =
    handle_go_away_same told (header type_go_away 0 0 4) (replicate 4 0) refl (omega arith)
      (λ bytes e. rw (← eq_of_some e) (omega arith))

wire-IsBytes : IsBytes wire
wire-IsBytes = (
  omega arith,
  (
    omega arith,
    (
      omega arith,
      (
        omega arith,
        (
          omega arith,
          (
            omega arith,
            (
              omega arith,
              (omega arith, (omega arith, (omega arith, (omega arith, (omega arith, tt))))),
            ),
          ),
        ),
      ),
    ),
  ),
)

decode_header-IsHeader_example : IsHeader data_header
decode_header-IsHeader_example =
    decode_header-IsHeader wire 12 data_header wire-IsBytes wire-decoded
