-- ===== src/Streams/Opening.antt =====
-- What opening a stream does, step by step (src/yamux_stream.c).
use tiny_yamux.World.Calls.{AcceptsAll}
use tiny_yamux.Base.{
  ℕ, ◌<◌, ◌≡◌, inl, inr, refl, sym, ap, ◌∙◌, true, false, none, some, List, [], ◌∷◌, ◌++◌, ◌==◌,
  if◌then◌else◌,
}
use mathlib.Core.Bool.{false≢true}
use tiny_yamux.Protocol.{ok, syn_sent, type_window_update, flag_syn, default_window_size, be32}
use tiny_yamux.Frame.{header_bytes}
use tiny_yamux.Buffer.{Buffer}
use tiny_yamux.World.{Purpose, null, Session, World, the_session, ◌>>=◌, ◌>>◌}
use tiny_yamux.World.Laws.{At, load-At, encode_local_frame, put_u32_payload}
use tiny_yamux.World.Calls.{sent_world, io_write-sent, replaced, store-replaced, replaced-At}
use tiny_yamux.Table.{add_stream}
use tiny_yamux.Table.Lookup.{IsTable, stream_of, slots_of}
use tiny_yamux.Table.SameIds.{replace-SameIds, lookup-SameIds, IsTable-SameIds}
use tiny_yamux.Table.Born.{born, new_stream-born, born-At, born-IsTable, born-stream_of}
use tiny_yamux.Table.Insert.{Inserted}
use tiny_yamux.Table.Add.{add_stream_lem}
use tiny_yamux.Streams.{header, opened, send_syn, open_added, open_sent}

-- The frame that opens a stream: the header and the default window.
abbrev pub syn_frame : ℕ → List ℕ
syn_frame id = header_bytes (header type_window_update flag_syn id 4) ++ be32 default_window_size

pub send_syn-sent :
    {C : Type 0} (w : World C) (id : ℕ)
    → send_syn id w
      ≡ some ((w.session.io.write w.ctx (syn_frame id)).0, sent_world w (syn_frame id))
unfolding send_syn
send_syn-sent w id =
    simp
      (
        send_syn,
        ◌>>=◌,
        encode_local_frame (header type_window_update flag_syn id 4) w,
        put_u32_payload (header type_window_update flag_syn id 4) default_window_size,
      )
      (io_write-sent w (syn_frame id))

-- What opening a stream leaves; `s` is the session that the new stream came to.
pub record Opened {C : Type 0} (w : World C) (s : Session C) (id : ℕ) (buffer : Buffer)
    (w' : World C) : Type 0 where
  pub stream : At w'.heap w.fresh (record (opened id buffer) { state = syn_sent })
  pub table : IsTable w'.heap w'.session
  pub found : (id' : ℕ) → stream_of w' id' ≡ (if id == id' then w.fresh else stream_of w id')
  pub same_rest : w'.session ≡ record s {
    streams = w'.session.streams;
    stream_count = w'.session.stream_count;
    stream_capacity = w'.session.stream_capacity;
  }
  pub sent : w'.sent ≡ w.sent ++ (syn_frame id ∷ [])

module _ {C : Type 0} (w : World C) (t : IsTable w.heap w.session) (vacant : w.heap w.fresh ≡ none)
    (started : 0 < w.fresh) (is_open : w.session.go_away_received ≡ false)
    (all : AcceptsAll w.session.io)
    (grants : (purpose : Purpose) (n : ℕ) → w.grants purpose n ≡ true) (id : ℕ)
    (absent : stream_of w id ≡ null) (buffer : Buffer) where
  -- The stream is on the heap, and its SYN is sent.
  abbrev asked : World C
  asked = sent_world (born w (opened id buffer)) (syn_frame id)

  asked-At : At asked.heap w.fresh (opened id buffer)
  unfolding sent_world
  asked-At = born-At w t vacant started (opened id buffer)

  asked-IsTable : IsTable asked.heap asked.session
  unfolding sent_world
  asked-IsTable = born-IsTable w t vacant started (opened id buffer)

  asked-stream_of : (id' : ℕ) → stream_of asked id' ≡ stream_of w id'
  unfolding sent_world
  asked-stream_of id' = born-stream_of w t vacant started (opened id buffer) id'

  asked-open : asked.session.go_away_received ≡ false
  unfolding sent_world born
  asked-open = is_open

  asked-grants : (purpose : Purpose) (n : ℕ) → asked.grants purpose n ≡ true
  unfolding sent_world born
  asked-grants = grants

  asked-rest :
      (s' : Session C)
      → s' ≡ record asked.session {
        streams = s'.streams;
        stream_count = s'.stream_count;
        stream_capacity = s'.stream_capacity;
      }
      → s' ≡ record w.session {
        streams = s'.streams;
        stream_count = s'.stream_count;
        stream_capacity = s'.stream_capacity;
      }
  unfolding sent_world born
  asked-rest s' e = e

  asked-sent : asked.sent ≡ w.sent ++ (syn_frame id ∷ [])
  unfolding sent_world born
  asked-sent = refl

  written_whole :
      ((born w (opened id buffer)).session.io.write
        (born w (opened id buffer)).ctx
        (syn_frame id)).0
      ≡ some 16
  unfolding born header_bytes be32
  written_whole = all w.ctx (syn_frame id)

  open_added-Opened :
      (s' : Session C)
      → add_stream the_session w.fresh asked ≡ some (ok, record asked { session = s' })
      → Inserted asked.heap w.fresh (opened id buffer) asked.session s'
      → (w' : World C) × (open_added w.fresh asked ≡ some ((ok, w.fresh), w'))
        × Opened w w.session id buffer w'
  unfolding open_added replaced
  open_added-Opened s' added ins =
      let st = record (opened id buffer) { state = syn_sent } in
      let w₃ = record asked { session = s' } in
      let same = replace-SameIds asked.heap st asked-At refl in
      (
        replaced w₃ w.fresh st,
        simp (open_added, ◌>>=◌, ◌>>◌, added, load-At w₃ asked-At, store-replaced w₃ st asked-At)
            refl,
        record {
          stream = replaced-At w₃ st asked-At;
          table = IsTable-SameIds asked.heap (replaced w₃ w.fresh st).heap same s' ins.table;
          found = λ id'.
              lookup-SameIds asked.heap (replaced w₃ w.fresh st).heap same (slots_of s') id'
                ins.table.live
              ∙ ins.found id'
              ∙ ap (λ p. if id == id' then w.fresh else p) (asked-stream_of id');
          same_rest = asked-rest s' ins.rest_same;
          sent = asked-sent;
        },
      )

  pub open_sent-Opened :
      (w' : World C) × (open_sent id buffer w ≡ some ((ok, w.fresh), w'))
      × Opened w w.session id buffer w'
  unfolding open_sent
  open_sent-Opened = elim (add_stream_lem asked asked-At asked-IsTable asked-open) [
    | inr (taken, _) ↦ absurd (taken (asked-stream_of id ∙ absent))
    | inl (_, inr (_, _, _, refused)) ↦ absurd (false≢true (sym refused ∙ asked-grants _ _))
    | inl (_, inl (s', e, ins)) ↦
        let (w', run, o) = open_added-Opened s' e ins in
        (
          w',
          simp
              (
                open_sent,
                ◌>>=◌,
                new_stream-born w (opened id buffer),
                send_syn-sent (born w (opened id buffer)) id,
                written_whole,
              )
              run,
          o,
        )
  ]
