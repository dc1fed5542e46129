-- ===== src/Examples/OnStreams.antt =====
-- A session with one stream, and the theorems on streams and buffers at it.
use tiny_yamux.World.Calls.{AcceptsAll}
use tiny_yamux.Base.{
  ℕ, ◌+◌, ◌<◌, ◌≡◌, ◌⊎◌, inl, inr, refl, arith, true, false, none, some, List, [], ◌∷◌, ◌++◌,
  replicate, length-replicate,
}
use tiny_yamux.Protocol.{Result, ok, err_nomem, established, type_data}
use tiny_yamux.Buffer
use tiny_yamux.Buffer.{Buffer, new_size}
use tiny_yamux.Buffer.Queue.{Represents}
use tiny_yamux.Buffer.Appends.{write_appends}
use tiny_yamux.World.{Stream, World, the_session, update, zero_stream}
use tiny_yamux.World.Laws.{At}
use tiny_yamux.Table.Lookup.{IsTable, lookup}
use tiny_yamux.Streams.{header}
use tiny_yamux.Streams.Transfer.{stream_write, stream_read}
use tiny_yamux.Streams.Read.{stream_read_takes, announced}
use tiny_yamux.Streams.Half.{stream_write_half}
use tiny_yamux.Streams.WriteCall.{Sends, stream_write-Sends}
use tiny_yamux.Session.{default_config, fresh_session}
use tiny_yamux.Handlers.{handle_data}
use tiny_yamux.Handlers.Delivery.{DataOutcome, data_delivered}
use tiny_yamux.Examples.{pipe, new_world}

-- Two bytes to read, and room for one more.
abbrev pub some_buffer : Buffer
some_buffer = record { block = some (7 ∷ 8 ∷ 9 ∷ 0 ∷ []); size = 4; used = 3; pos = 1 }

pub some_buffer-Represents : Represents some_buffer (8 ∷ 9 ∷ [])
some_buffer-Represents = (
  7 ∷ 8 ∷ 9 ∷ 0 ∷ [],
  record {
    points = refl;
    sized = refl;
    size_fits = omega arith;
    used_in = omega arith;
    pos_in = omega arith;
  },
  refl,
)

write_appends_example :
    ((b' : Buffer) × (Buffer.write (λ _. true) some_buffer (some (1 ∷ 2 ∷ 3 ∷ [])) 2
        ≡ some (ok, b'))
      × Represents b' (8 ∷ 9 ∷ 1 ∷ 2 ∷ [])
      × (b'.used ≡ 3 + 2))
    ⊎ ((Buffer.write (λ _. true) some_buffer (some (1 ∷ 2 ∷ 3 ∷ [])) 2
          ≡ some (err_nomem, some_buffer))
        × (4 < 3 + 2)
        × (true ≡ false))
write_appends_example =
    write_appends (λ _. true) (1 ∷ 2 ∷ 3 ∷ []) 2 some_buffer-Represents (λ e. absurd (omega arith))
      (omega arith) (omega arith)

abbrev pub some_stream : Stream
some_stream = record zero_stream {
  id = 5;
  state = established;
  recvbuf = some_buffer;
  send_window = 2;
  recv_window = 262144;
}

-- A client with `st` at address 1, in the table.
abbrev pub with_stream : Stream → List ℕ → World (List ℕ)
with_stream st bytes = record (new_world true bytes) {
  session = record (fresh_session pipe true default_config) {
    streams = 1 ∷ replicate 15 0;
    stream_count = 1;
  };
  heap = update (λ _. none) 1 (some st);
  fresh = 2;
}

pub with_stream-At : (st : Stream) (bytes : List ℕ) → At (with_stream st bytes).heap 1 st
with_stream-At st bytes = record { ne_null = λ e. absurd (omega arith); holds = refl }

pub with_stream-IsTable :
    (st : Stream) (bytes : List ℕ)
    → IsTable (with_stream st bytes).heap (with_stream st bytes).session
unfolding fresh_session replicate lookup
with_stream-IsTable st bytes = record {
  live = (inr (st, with_stream-At st bytes), tt);
  distinct = (λ id e. refl, tt);
  room = omega arith;
  sized = refl;
  some_room = omega arith;
}

stream_write-Sends_example :
    (r : Result) × (n : ℕ) × (w' : World (List ℕ)) × (stream_write 1
        (some (1 ∷ 2 ∷ 3 ∷ []))
        3
        (with_stream some_stream [])
      ≡ some ((r, n), w'))
    × Sends (with_stream some_stream []) 1 some_stream (1 ∷ 2 ∷ 3 ∷ []) 3 r n w'
stream_write-Sends_example =
    stream_write-Sends (with_stream some_stream []) (1 ∷ 2 ∷ 3 ∷ []) 3
      (with_stream-At some_stream []) refl (omega arith) (omega arith) (omega arith) (omega arith)
      (omega arith)

stream_read_takes_example :
    (w' : World (List ℕ)) × (b' : Buffer) × (stream_read 1 1 (with_stream some_stream [])
      ≡ some ((ok, 8 ∷ []), w'))
    × Represents b' (9 ∷ [])
    × (w'.heap
        ≡ update (with_stream some_stream []).heap 1 (some (record some_stream { recvbuf = b' })))
    × (w'.sent ≡ [] ++ announced some_stream (8 ∷ []))
stream_read_takes_example =
    stream_read_takes (with_stream some_stream []) 1 (with_stream-At some_stream []) refl
      some_buffer-Represents (λ e. absurd (omega arith))

-- 32768 bytes, not spelt out.
abbrev many_bytes : List ℕ
many_bytes = replicate 32768 1

abbrev wide_stream : Stream
wide_stream = record some_stream { send_window = 32768 }

stream_write_half_example :
    (w' : World (List ℕ)) × (stream_write 1 (some many_bytes) 32768 (with_stream wide_stream [])
      ≡ some ((ok, 16384), w'))
    × At w'.heap 1 (record wide_stream { send_window = 16384 })
unfolding fresh_session
stream_write_half_example =
    stream_write_half (with_stream wide_stream []) many_bytes 32768 accepts
      (with_stream-At wide_stream []) refl (omega arith)
      (omega (arith, length-replicate {A = ℕ} 32768 1)) refl
  where
    accepts : AcceptsAll pipe
    accepts c bytes = refl

data_delivered_example :
    DataOutcome
      (with_stream some_stream (1 ∷ 2 ∷ []))
      1
      some_stream
      (8 ∷ 9 ∷ [])
      (1 ∷ 2 ∷ [])
      (handle_data the_session (header type_data 0 5 2) (with_stream some_stream (1 ∷ 2 ∷ [])))
unfolding fresh_session replicate lookup
data_delivered_example =
    data_delivered (with_stream some_stream (1 ∷ 2 ∷ [])) 5 (1 ∷ 2 ∷ [])
      (with_stream-IsTable some_stream (1 ∷ 2 ∷ [])) (with_stream-At some_stream (1 ∷ 2 ∷ [])) refl
      some_buffer-Represents (record { is_sized = inl (refl, refl) }) refl (omega arith)
      (omega arith) (omega arith) (omega arith)
