-- ===== src/Examples/OnServers.antt =====
-- The theorems on opening, serving and pinging, at a new client and a new server.

use tiny_yamux.Base.{
  ◌⊎◌, ℕ, ◌≡◌, refl, arith, Bool, true, false, some, List, [], ◌∷◌, replicate, if◌then◌else◌,
}
use tiny_yamux.Protocol.{
  err_io, StreamState, fin_sent, has, Result, ok, is_ok, flag_syn, be32, type_ping,
}
use tiny_yamux.Frame.{header_bytes}
use tiny_yamux.Buffer.{Buffer}
use tiny_yamux.Buffer.Queue.{Represents}
use tiny_yamux.World.{Stream, World, the_session}
use tiny_yamux.World.Calls.{after_read, replaced}
use tiny_yamux.Table.Lookup.{IsTable, lookup}
use tiny_yamux.Streams.{header, stream_open_detailed}
use tiny_yamux.Streams.Open.{id_taken, stream_open-Opened}
use tiny_yamux.Streams.Opening.{Opened}
use tiny_yamux.Streams.WriteCall.{Sends}
use tiny_yamux.Handlers.{handle_ping}
use tiny_yamux.Handlers.Pings.{handle_ping_lem}
use tiny_yamux.Handlers.WindowUpdate.{handle_window_update}
use tiny_yamux.Handlers.WindowUpdate.Effects.{update_frame}
use tiny_yamux.Handlers.WindowUpdate.Syn.{IsReady}
use tiny_yamux.Handlers.WindowUpdate.Admits.{Admitted, syn-Admitted}
use tiny_yamux.Session.{fresh_session, session_process}
use tiny_yamux.Session.{session_close}
use tiny_yamux.Session.Closes.{session_close_lem}
use tiny_yamux.Session.Served.{fin_served, FinMoves}
use tiny_yamux.Port.{int_of, negsuc, yamux_write}
use tiny_yamux.Port.Calls.{yamux_write-Sends}
use tiny_yamux.Examples.{new_world}
use tiny_yamux.Examples.OnStreams.{some_stream, with_stream, with_stream-At, with_stream-IsTable}

pub new_world-IsTable :
    (client : Bool) (bytes : List ℕ)
    → IsTable (new_world client bytes).heap (new_world client bytes).session
unfolding fresh_session replicate
new_world-IsTable client bytes = record {
  live = tt;
  distinct = tt;
  room = omega arith;
  sized = refl;
  some_room = omega arith;
}

pub new_world-IsReady : (bytes : List ℕ) → IsReady (new_world false bytes) []
unfolding fresh_session
new_world-IsReady bytes = record {
  table = new_world-IsTable false bytes;
  queue = record { chain = refl; apart = tt; below = tt; started = omega arith };
  vacant = refl;
  is_open = refl;
}

stream_open-Opened_example :
    (w' : World (List ℕ)) × (buffer : Buffer) × (stream_open_detailed the_session 0
        (new_world true [])
      ≡ some ((ok, 1), w'))
    × Opened (new_world true []) (id_taken (new_world true [])).session 1 buffer w'
    × Represents buffer []
unfolding fresh_session lookup
stream_open-Opened_example =
    stream_open-Opened (new_world true []) (new_world-IsTable true []) refl (omega arith) refl
      (λ c bytes. refl) (λ purpose n. refl) refl

-- The payload of a SYN with the window 65536.
abbrev window_bytes : List ℕ
window_bytes = 0 ∷ 1 ∷ 0 ∷ 0 ∷ []

syn-Admitted_example :
    (w' : World (List ℕ)) × (handle_window_update
        (update_frame flag_syn 1 4)
        (new_world false window_bytes)
      ≡ some (ok, w'))
    × Admitted (new_world false window_bytes) [] 1 65536 w'
unfolding fresh_session lookup be32
syn-Admitted_example =
    syn-Admitted (new_world false window_bytes) 1 65536 (new_world-IsReady window_bytes) refl refl
      (λ c bytes. refl) (λ purpose n. refl) (omega arith) refl

-- What a client sends to open stream 1.
abbrev pub syn_bytes : List ℕ
syn_bytes = 0 ∷ 1 ∷ 0 ∷ 1 ∷ 0 ∷ 0 ∷ 0 ∷ 1 ∷ 0 ∷ 0 ∷ 0 ∷ 4 ∷ 0 ∷ 4 ∷ 0 ∷ 0 ∷ []

-- A frame of two bytes for stream 5.
abbrev pub chunk_bytes : List ℕ
chunk_bytes = 0 ∷ 0 ∷ 0 ∷ 0 ∷ 0 ∷ 0 ∷ 0 ∷ 5 ∷ 0 ∷ 0 ∷ 0 ∷ 2 ∷ 1 ∷ 2 ∷ []

yamux_write-Sends_example :
    (r : Result) × (n : ℕ) × (w' : World (List ℕ)) × (yamux_write 1
        (some (1 ∷ 2 ∷ 3 ∷ []))
        3
        (with_stream some_stream [])
      ≡ some (if is_ok r then int_of n else negsuc 2, w'))
    × Sends (with_stream some_stream []) 1 some_stream (1 ∷ 2 ∷ 3 ∷ []) 3 r n w'
yamux_write-Sends_example =
    yamux_write-Sends (with_stream some_stream []) (1 ∷ 2 ∷ 3 ∷ []) 3
      (with_stream-At some_stream []) refl (omega arith) (omega arith) (omega arith) (omega arith)
      (omega arith)

handle_ping_lem_example :
    handle_ping the_session (header type_ping flag_syn 0 0) (new_world false [])
    ≡ some (err_io, new_world false [])
unfolding fresh_session has
handle_ping_lem_example = handle_ping_lem (new_world false []) flag_syn 0 refl

session_close_lem_example :
    (((with_stream some_stream []).session.go_away_received ≡ true)
      × (session_close the_session 0 (with_stream some_stream [])
          ≡ some (ok, with_stream some_stream [])))
    ⊎ (((with_stream some_stream []).session.go_away_received ≡ false)
        × ((w' : World (List ℕ)) × (session_close the_session 0 (with_stream some_stream [])
              ≡ some (ok, w'))
            × (w'.session ≡ record (with_stream some_stream []).session {
              go_away_received = true;
              streams = [];
              stream_count = 0;
              stream_capacity = 0;
            })))
session_close_lem_example =
    session_close_lem (with_stream some_stream []) 0 (with_stream-IsTable some_stream [])

-- A FIN frame for stream 5.
abbrev fin_bytes : List ℕ
fin_bytes = 0 ∷ 0 ∷ 0 ∷ 4 ∷ 0 ∷ 0 ∷ 0 ∷ 5 ∷ 0 ∷ 0 ∷ 0 ∷ 0 ∷ []

abbrev half_closed : Stream
half_closed = record some_stream { state = fin_sent }

fin_served_example :
    (after : StreamState) × (session_process the_session (with_stream half_closed fin_bytes)
      ≡ some (
        ok,
        replaced
            (after_read (with_stream half_closed fin_bytes) 12)
            1
            (record half_closed { state = after }),
      ))
    × FinMoves fin_sent after
unfolding fresh_session replicate lookup be32 header_bytes
fin_served_example =
    fin_served (with_stream half_closed fin_bytes) 5 (with_stream-IsTable half_closed fin_bytes)
      (with_stream-At half_closed fin_bytes) refl (omega arith)
      (record { is_open = refl; reads = refl })
