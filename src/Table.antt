-- ===== src/Table.antt =====
-- The session's table of streams (src/yamux_stream_utils.c): lookup, insertion and removal by id.
-- Slots are used up to `stream_count`, and may be NULL.
pub mod Without
pub mod Add
pub mod Insert
pub mod Lookup
pub mod SameIds
pub mod Born
pub mod Freed
pub mod Remove
use tiny_yamux.Base.{
  ℕ, suc, ◌+◌, ◌-◌, ◌*◌, Option, none, some, List, [], ◌∷◌, ◌++◌, take, set, replicate, leb, ◌==◌,
  if◌then◌else◌,
}
use tiny_yamux.Protocol.{Result, ok, err_invalid, err_nomem, err_closed}
use tiny_yamux.World.{
  for_table, Ptr, null, Session, SessionPtr, M, pure, ◌>>=◌, ◌>>◌, with_session, get_session,
  set_session, granted, load, sizeof_pointer,
}

-- The first NULL slot below `stream_count`, if there is one.
unfoldable pub empty_slot : List Ptr → Option ℕ
empty_slot [] = none
empty_slot (p ∷ slots) =
    let rest = empty_slot slots in
    if p == null then some 0 else elim rest [ none ↦ none | some i ↦ some (suc i) ]

module _ {C : Type 0} where
  -- The search loop over the slots in use.
  unfoldable pub find : List Ptr → ℕ → M C Ptr
  find [] stream_id = pure null
  find (p ∷ slots) stream_id =
      let rest = find slots stream_id in
      if p == null then rest else do st ← load p; if st.id == stream_id then pure p else rest

  unfoldable pub get_stream : SessionPtr → ℕ → M C Ptr
  get_stream session stream_id =
      with_session session null do s ← get_session; find (take s.stream_count s.streams) stream_id

  -- The array with its capacity doubled, the new slots NULL.
  unfoldable pub grow : Session C → Session C
  grow s = record s {
    streams = s.streams ++ replicate s.stream_capacity null;
    stream_capacity = s.stream_capacity * 2;
  }

  -- `streams[stream_count] = stream; stream_count++`, in an array that has room.
  unfoldable pub append : Session C → Ptr → Session C
  append s stream = record s {
    streams = set s.streams s.stream_count stream;
    stream_count = s.stream_count + 1;
  }

  unfoldable pub insert : Session C → Ptr → M C Result
  insert s stream = elim (empty_slot (take s.stream_count s.streams)) [
    | some i ↦ set_session (record s { streams = set s.streams i stream }) >> pure ok
    | none ↦
        if leb s.stream_capacity s.stream_count
        then (do
          fits ← granted for_table (s.stream_capacity * 2 * sizeof_pointer)
          if fits then (set_session (append (grow s) stream) >> pure ok) else pure err_nomem)
        else (set_session (append s stream) >> pure ok)
  ]

  unfoldable pub add_stream : SessionPtr → Ptr → M C Result
  add_stream session stream = with_session session err_invalid (
      if stream == null then pure err_invalid else do
        s ← get_session
        if s.go_away_received then pure err_closed else do
          st ← load stream
          found ← get_stream session st.id
          if found == null then insert s stream else pure err_invalid)

  -- The removal loop; the slot's index, and NULL in it.
  unfoldable pub remove_slot : List Ptr → ℕ → M C (Option ℕ)
  remove_slot [] stream_id = pure none
  remove_slot (p ∷ slots) stream_id =
      let rest = remove_slot slots stream_id in
      let later = rest >>= λ found. pure (elim found [ none ↦ none | some i ↦ some (suc i) ]) in
      if p == null
      then later
      else do st ← load p; if st.id == stream_id then pure (some 0) else later

  -- The slot is cleared, and `stream_count` drops if it was the last one.
  unfoldable pub clear_slot : Session C → ℕ → Session C
  clear_slot s i = record s {
    streams = set s.streams i null;
    stream_count = if i == s.stream_count - 1 then s.stream_count - 1 else s.stream_count;
  }

  unfoldable pub remove_stream : SessionPtr → ℕ → M C Result
  remove_stream session stream_id = with_session session err_invalid do
    s ← get_session
    found ← remove_slot (take s.stream_count s.streams) stream_id
    elim found [ none ↦ pure err_invalid | some i ↦ set_session (clear_slot s i) >> pure ok ]
