-- ===== src/Examples/OnPeers.antt =====
-- The theorems on received frames and on the frames of a session, at small sessions.
use tiny_yamux.Base.{
  ℕ, ◌≡◌, inl, refl, arith, true, false, none, some, List, [], ◌∷◌, ◌++◌, replicate, ◌==◌,
  if◌then◌else◌,
}
use tiny_yamux.Protocol.{
  Result, ok, err_protocol, err_invalid_stream, syn_sent, fin_recv, closed, type_go_away,
  type_window_update, default_window_size, flag_fin, flag_rst, be32,
}
use tiny_yamux.Frame.{header_bytes}
use tiny_yamux.World.{null, Stream, Session, World, the_session}
use tiny_yamux.World.Calls.{after_read, replaced, sent_world}
use tiny_yamux.Table.Lookup.{IsTable, stream_of, lookup, slots_of}
use tiny_yamux.Streams.{header}
use tiny_yamux.Handlers.{refill_window}
use tiny_yamux.Handlers.WindowUpdate.{handle_window_update}
use tiny_yamux.Handlers.WindowUpdate.Effects.{update_frame, window_added, syn_ack_establishes}
use tiny_yamux.Handlers.WindowUpdate.Ends.{fin_ack, fin_acknowledged}
use tiny_yamux.Handlers.WindowUpdate.Reset.{reset_removes}
use tiny_yamux.Session.{fresh_session, session_process, session_ping, send_go_away}
use tiny_yamux.Session.Refusals.{unwanted_refused, reset_ignored}
use tiny_yamux.Examples.OnServers.{new_world-IsTable}
use tiny_yamux.Session.Peers.{go_away_refused, refill_refused, session_ping_lem}
use tiny_yamux.Examples.{new_world}
use tiny_yamux.Examples.OnStreams.{some_stream, with_stream, with_stream-At, with_stream-IsTable}
use tiny_yamux.Examples.OnSessions.{data_header, data_header-IsHeader, wire}

-- A peer that is about to read the bytes.
abbrev reading : List ℕ → World (List ℕ)
reading bytes = new_world false bytes

unwanted_refused_example :
    session_process the_session (reading wire)
    ≡ some (err_invalid_stream, after_read (reading wire) 12)
unfolding fresh_session header_bytes be32 lookup
unwanted_refused_example =
    unwanted_refused (reading wire) data_header data_header-IsHeader refl
      (new_world-IsTable false wire) (inl refl) (record { is_open = refl; reads = refl })

-- The reset of stream 5.
abbrev rst_bytes : List ℕ
rst_bytes = 0 ∷ 0 ∷ 0 ∷ 8 ∷ 0 ∷ 0 ∷ 0 ∷ 5 ∷ 0 ∷ 0 ∷ 0 ∷ 0 ∷ []

reset_ignored_example :
    session_process the_session (with_stream some_stream rst_bytes)
    ≡ some (ok, after_read (with_stream some_stream rst_bytes) 12)
unfolding fresh_session replicate lookup header_bytes be32
reset_ignored_example =
    reset_ignored (with_stream some_stream rst_bytes) 5 (with_stream-IsTable some_stream rst_bytes)
      (with_stream-At some_stream rst_bytes) refl (omega arith)
      (record { is_open = refl; reads = refl })

-- Four bytes of payload, 256.
abbrev payload_256 : List ℕ
payload_256 = 0 ∷ 0 ∷ 1 ∷ 0 ∷ []

window_added_example :
    handle_window_update (update_frame 0 5 4) (with_stream some_stream payload_256)
    ≡ some (
      ok,
      replaced
          (after_read (with_stream some_stream payload_256) 4)
          1
          (record some_stream { send_window = 258 }),
    )
unfolding fresh_session replicate lookup be32
window_added_example =
    window_added (with_stream some_stream payload_256) 5 256
      (with_stream-IsTable some_stream payload_256) (with_stream-At some_stream payload_256)
      (omega arith) refl

abbrev waiting : Stream
waiting = record some_stream { state = syn_sent }

syn_ack_establishes_example :
    handle_window_update (update_frame 3 5 4) (with_stream waiting payload_256)
    ≡ some (
      ok,
      replaced
          (after_read (with_stream waiting payload_256) 4)
          1
          (record some_stream { send_window = 256 }),
    )
unfolding fresh_session replicate lookup be32
syn_ack_establishes_example =
    syn_ack_establishes (with_stream waiting payload_256) 5 256
      (with_stream-IsTable waiting payload_256) (with_stream-At waiting payload_256) refl refl
      (omega arith) refl

fin_acknowledged_example :
    handle_window_update (update_frame flag_fin 5 0) (with_stream some_stream [])
    ≡ some (
      ok,
      sent_world
          (replaced (with_stream some_stream []) 1 (record some_stream { state = fin_recv }))
          (fin_ack 5),
    )
unfolding fresh_session replicate lookup header_bytes be32
fin_acknowledged_example =
    fin_acknowledged (with_stream some_stream []) 5 (with_stream-IsTable some_stream [])
      (with_stream-At some_stream []) (omega arith)

reset_removes_example :
    (s' : Session (List ℕ)) × (handle_window_update
        (update_frame flag_rst 5 0)
        (with_stream some_stream [])
      ≡ some (
        ok,
        record (replaced (with_stream some_stream []) 1 (record some_stream { state = closed })) {
          session = s';
        },
      ))
    × IsTable
        (replaced (with_stream some_stream []) 1 (record some_stream { state = closed })).heap
        s'
    × ((id' : ℕ)
        → lookup
            (replaced (with_stream some_stream []) 1 (record some_stream { state = closed })).heap
            (slots_of s')
            id'
          ≡ (if 5 == id' then null else stream_of (with_stream some_stream []) id'))
unfolding fresh_session replicate lookup
reset_removes_example =
    reset_removes (with_stream some_stream []) 5 (with_stream-IsTable some_stream [])
      (with_stream-At some_stream []) (omega arith)

go_away_refused_example :
    (w' : World (List ℕ)) × (send_go_away 0 (new_world true []) ≡ some (tt, w'))
    × (w'.sent ≡ [] ++ (header_bytes (header type_go_away 0 0 0) ∷ []))
    × (session_process the_session (reading (header_bytes (header type_go_away 0 0 0)))
        ≡ some (err_protocol, after_read (reading (header_bytes (header type_go_away 0 0 0))) 12))
unfolding fresh_session header_bytes be32
go_away_refused_example =
    go_away_refused (new_world true []) (reading (header_bytes (header type_go_away 0 0 0))) 0
      (omega arith) (λ e. absurd (omega arith)) (record { is_open = refl; reads = refl })

abbrev thirsty : Stream
thirsty = record some_stream { recv_window = 131071 }

refill_refused_example :
    (r : Result) × (w' : World (List ℕ)) × (refill_window 1 (with_stream thirsty []) ≡ some (r, w'))
    × (w'.sent ≡ [] ++ (header_bytes (header type_window_update 0 5 default_window_size) ∷ []))
    × (session_process the_session
          (reading (header_bytes (header type_window_update 0 5 default_window_size)))
        ≡ some (
          err_protocol,
          after_read
              (reading (header_bytes (header type_window_update 0 5 default_window_size)))
              12,
        ))
unfolding fresh_session header_bytes be32
refill_refused_example =
    refill_refused (with_stream thirsty [])
      (reading (header_bytes (header type_window_update 0 5 default_window_size)))
      (with_stream-At thirsty []) (omega arith) (omega arith)
      (record { is_open = refl; reads = refl })

session_ping_lem_example : session_ping the_session (new_world true []) ≡ none
unfolding fresh_session
session_ping_lem_example = session_ping_lem (new_world true [])
