-- ===== src/Streams/Open.antt =====
-- Opening a stream (src/yamux_stream.c).
use tiny_yamux.World.Calls.{AcceptsAll}
use tiny_yamux.Base.{ℕ, ◌<◌, ◌≡◌, refl, sym, ap, ◌∙◌, arith, true, false, none, some, []}
use tiny_yamux.Protocol.{ok, initial_buffer_size, add_u32}
use tiny_yamux.Buffer.{Buffer}
use tiny_yamux.Buffer.Queue.{Represents}
use tiny_yamux.Buffer.Starts.{init-Represents}
use tiny_yamux.World.{
  for_buffer, for_stream, Purpose, null, World, the_session, ◌>>=◌, ◌>>◌, zero_buffer,
  sizeof_stream,
}
use tiny_yamux.Table.Lookup.{IsTable-same, IsTable, stream_of}
use tiny_yamux.Streams.{take_id, open_sent, open_allocated, stream_open_detailed}
use tiny_yamux.Streams.Opening.{Opened, open_sent-Opened}

-- The session that has given out its next id.
abbrev pub id_taken : {C : Type 0} → World C → World C
id_taken w = record w {
  session = record w.session { next_stream_id = add_u32 w.session.next_stream_id 2 };
}

-- `yamux_stream_open_detailed` for id 0, on an open session whose table is well formed and does not
-- have the next id, with an allocator that has memory and a callback that takes every write whole,
-- succeeds: the new stream has the next id, is in state SYN_SENT with the default send window and
-- nothing to read, and is found in the table, where all else stays; the next id grows by 2 modulo
-- 2^32, and exactly one SYN frame is sent.
pub stream_open-Opened :
    {C : Type 0} (w : World C)
    → IsTable w.heap w.session
    → w.heap w.fresh ≡ none
    → 0 < w.fresh
    → w.session.go_away_received ≡ false
    → AcceptsAll w.session.io
    → ((purpose : Purpose) (n : ℕ) → w.grants purpose n ≡ true)
    → stream_of w w.session.next_stream_id ≡ null
    → (w' : World C) × (buffer : Buffer) × (stream_open_detailed the_session 0 w
        ≡ some ((ok, w.fresh), w'))
      × Opened w (id_taken w).session w.session.next_stream_id buffer w'
      × Represents buffer []
unfolding stream_open_detailed open_allocated take_id
stream_open-Opened w t vacant started is_open all grants absent =
    let (buffer, made, rep) =
      init-Represents (w.grants for_buffer) zero_buffer initial_buffer_size
        (grants for_buffer initial_buffer_size) (omega arith) (omega arith) in
    let t₁ : IsTable w.heap (id_taken w).session = IsTable-same refl refl refl t in
    let (w', run, o) =
      open_sent-Opened (id_taken w) t₁ vacant started is_open all grants w.session.next_stream_id
        absent buffer in
    (
      w',
      buffer,
      simp
          (
            stream_open_detailed,
            open_allocated,
            take_id,
            ◌>>=◌,
            ◌>>◌,
            is_open,
            grants for_stream sizeof_stream,
            made,
          )
          (ap
              (λ b.
                open_sent w.session.next_stream_id buffer
                  (record w { session = record (id_taken w).session { go_away_received = b } }))
              (sym is_open)
            ∙ run),
      record {
        stream = o.stream;
        table = o.table;
        found = o.found;
        same_rest = o.same_rest;
        sent = o.sent;
      },
      rep,
    )
