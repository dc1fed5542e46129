-- ===== src/Examples/OnSessions.antt =====
-- The theorems on frames, the table, the accept queue and received frames, at small sessions.
use tiny_yamux.Base.{
  ℕ, ◌<◌, ◌≤◌, ◌≡◌, ◌≢◌, ◌⊎◌, inr, refl, arith, some, List, [], ◌∷◌, length, replicate,
}
use tiny_yamux.Protocol.{proto_version, ok, err_invalid, err_protocol, Header}
use tiny_yamux.Frame.{Decoded, decoded, refused, encoded, encode_header, decode_header}
use tiny_yamux.Frame.RoundTrip.{IsHeader, decode-encode, encode-decode}
use tiny_yamux.Frame.Accepts.{decode_header_total, decode_header_short}
use tiny_yamux.World.{null, Stream, Session, World, the_session, update}
use tiny_yamux.Table.{add_stream, remove_stream}
use tiny_yamux.Table.Lookup.{IsTable, stream_of, lookup}
use tiny_yamux.Table.Add.{AddOutcome, add_stream_lem}
use tiny_yamux.Table.Remove.{Unlisted, remove_stream_lem}
use tiny_yamux.AcceptQueue.{enqueue_stream_for_accept}
use tiny_yamux.AcceptQueue.Fifo.{IsQueue, Enqueued, enqueue_appends}
use tiny_yamux.Streams.{header}
use tiny_yamux.Session.{fresh_session}
use tiny_yamux.Examples.OnStreams.{some_stream, with_stream}

abbrev pub data_header : Header
data_header = header 0 0 5 300

pub data_header-IsHeader : IsHeader data_header
data_header-IsHeader = record {
  version_zero = refl;
  known_type = omega arith;
  flags_u16 = omega arith;
  stream_id_u32 = omega arith;
  length_u32 = omega arith;
}

decode-encode_example :
    (bytes : List ℕ) × (encode_header data_header (some (replicate 16 9)) ≡ encoded ok (some bytes))
    × (length bytes ≡ 16)
    × (decode_header (some bytes) 12 ≡ decoded data_header)
unfolding replicate
decode-encode_example =
    decode-encode data_header (replicate 16 9) 12 data_header-IsHeader (omega arith) (omega arith)

-- A frame for stream 5 whose payload has 300 bytes.
abbrev pub wire : List ℕ
wire = 0 ∷ 0 ∷ 0 ∷ 0 ∷ 0 ∷ 0 ∷ 0 ∷ 5 ∷ 0 ∷ 0 ∷ 1 ∷ 44 ∷ []

pub wire-decoded : decode_header (some wire) 12 ≡ decoded data_header
unfolding decode_header
wire-decoded = refl

encode-decode_example : encode_header data_header (some wire) ≡ encoded ok (some wire)
encode-decode_example = encode-decode wire 12 data_header (omega arith) refl wire-decoded

decode_header_total_example :
    ((proto_version ≡ 0)
      × (4 ≤ 3)
      × ((h : Header) × (decode_header (some (0 ∷ 4 ∷ replicate 10 0)) 12 ≡ decoded h)
          × (h.type ≡ 4)))
    ⊎ (((proto_version ≢ 0) ⊎ (3 < 4))
        × (decode_header (some (0 ∷ 4 ∷ replicate 10 0)) 12 ≡ refused err_protocol))
unfolding replicate
decode_header_total_example =
    decode_header_total proto_version 4 (replicate 10 0) 12 (omega arith) (omega arith)

decode_header_short_example :
    decode_header (some (0 ∷ 2 ∷ 0 ∷ 0 ∷ 0 ∷ 0 ∷ 0 ∷ 0 ∷ [])) 8 ≡ Decoded.undefined
decode_header_short_example =
    decode_header_short 2 (0 ∷ 0 ∷ 0 ∷ 0 ∷ 0 ∷ 0 ∷ []) (omega arith) (omega arith) (omega arith)

-- A second stream beside the one in the table.
abbrev pub other_stream : Stream
other_stream = record some_stream { id = 7 }

abbrev two_streams : World (List ℕ)
two_streams = record (with_stream some_stream []) {
  heap = update (with_stream some_stream []).heap 2 (some other_stream);
  fresh = 3;
}

pub two_streams-IsTable : IsTable two_streams.heap two_streams.session
unfolding fresh_session replicate lookup
two_streams-IsTable = record {
  live = (inr (some_stream, record { ne_null = λ e. absurd (omega arith); holds = refl }), tt);
  distinct = (λ id e. refl, tt);
  room = omega arith;
  sized = refl;
  some_room = omega arith;
}

add_stream_lem_example :
    ((stream_of two_streams 7 ≡ null)
      × AddOutcome two_streams 2 other_stream (add_stream the_session 2 two_streams))
    ⊎ ((stream_of two_streams 7 ≢ null)
        × (add_stream the_session 2 two_streams ≡ some (err_invalid, two_streams)))
unfolding fresh_session
add_stream_lem_example =
    add_stream_lem two_streams (record { ne_null = λ e. absurd (omega arith); holds = refl })
      two_streams-IsTable refl

remove_stream_lem_example :
    ((stream_of two_streams 5 ≢ null)
      × ((s' : Session (List ℕ)) × (remove_stream the_session 5 two_streams
            ≡ some (ok, record two_streams { session = s' }))
          × Unlisted two_streams 5 s'))
    ⊎ ((stream_of two_streams 5 ≡ null)
        × (remove_stream the_session 5 two_streams ≡ some (err_invalid, two_streams)))
remove_stream_lem_example = remove_stream_lem two_streams 5 two_streams-IsTable

-- The first stream waits to be accepted.
abbrev pub queued : World (List ℕ)
queued = record two_streams { session = record two_streams.session { accept_queue = 1 } }

pub queued-IsQueue : IsQueue queued (1 ∷ [])
unfolding fresh_session
queued-IsQueue = record {
  chain = (refl, (some_stream, record { ne_null = λ e. absurd (omega arith); holds = refl }, refl));
  apart = (tt, tt);
  below = (omega arith, tt);
  started = omega arith;
}

enqueue_appends_example :
    (w' : World (List ℕ)) × (enqueue_stream_for_accept the_session 2 queued ≡ some (ok, w'))
    × Enqueued queued (1 ∷ 2 ∷ []) w'
enqueue_appends_example =
    enqueue_appends queued (1 ∷ []) {st = other_stream} queued-IsQueue
      (record { ne_null = λ e. absurd (omega arith); holds = refl }) (omega arith)
      (λ e. absurd (omega arith), tt)
