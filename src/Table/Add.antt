-- ===== src/Table/Add.antt =====
-- The outcomes of `yamux_add_stream` (src/yamux_stream_utils.c).
use tiny_yamux.Base.{
  ◌*◌, ◌≡◌, ◌≢◌, ◌⊎◌, inl, inr, refl, sym, ap, ◌∙◌, arith, false, Option, none, some, replicate,
  length-append, length-replicate, take-append, leb, ◌==◌, if◌then◌else◌, Bool-cases, Option-cases,
  ==_iff,
}
use mathlib.Core.Bool.{false≢true}
use tiny_yamux.Protocol.{Result, ok, err_invalid, err_nomem}
use tiny_yamux.World.{
  for_table, Ptr, null, Stream, Session, World, the_session, ◌>>=◌, sizeof_pointer,
}
use tiny_yamux.World.Laws.{At, not_null, load-At}
use tiny_yamux.Table.{get_stream, empty_slot, append, grow, insert, add_stream}
use tiny_yamux.Table.Lookup.{Heap, IsTable, lookup, slots_of, stream_of, find-lookup}
use tiny_yamux.Table.Insert.{Inserted, set-Inserted, append-Inserted}

slots_of-grow :
    {C : Type 0} {heap : Heap} (s : Session C) → IsTable heap s → slots_of (grow s) ≡ slots_of s
unfolding grow
slots_of-grow s t =
    take-append s.stream_count s.streams (replicate s.stream_capacity null)
      (omega (arith, t.sized, t.room))

grow-IsTable : {C : Type 0} {heap : Heap} (s : Session C) → IsTable heap s → IsTable heap (grow s)
unfolding grow
grow-IsTable s t = record {
  live = rw (slots_of-grow s t) t.live;
  distinct = rw (slots_of-grow s t) t.distinct;
  room = omega (arith, t.room);
  sized = omega (
    arith,
    length-append s.streams (replicate s.stream_capacity null),
    length-replicate {A = Ptr} s.stream_capacity null,
    t.sized,
  );
  some_room = omega (arith, t.some_room);
}

-- What a call leaves when it adds the stream, and when it cannot get memory.
abbrev pub AddOutcome : {C : Type 0} → World C → Ptr → Stream → Option (Result × World C) → Type 0
AddOutcome {C} w p st o =
    ((s' : Session C) × (o ≡ some (ok, record w { session = s' }))
      × Inserted w.heap p st w.session s')
    ⊎ ((o ≡ some (err_nomem, w))
        × (empty_slot (slots_of w.session) ≡ none)
        × (w.session.stream_count ≡ w.session.stream_capacity)
        × (w.grants for_table (w.session.stream_capacity * 2 * sizeof_pointer) ≡ false))

module _ {C : Type 0} (w : World C) {p : Ptr} {st : Stream} (at : At w.heap p st)
    (t : IsTable w.heap w.session) (absent : stream_of w st.id ≡ null) where
  grown-Inserted :
      w.session.stream_count ≡ w.session.stream_capacity
      → Inserted w.heap p st w.session (append (grow w.session) p)
  unfolding grow
  grown-Inserted full =
      let i =
        append-Inserted at (grow w.session) (grow-IsTable w.session t)
          (rw (slots_of-grow w.session t) absent) (omega (arith, t.some_room)) in
      record {
        table = i.table;
        found = λ id.
            i.found id
            ∙ ap (λ slots. if st.id == id then p else lookup w.heap slots id)
                (slots_of-grow w.session t);
        rest_same = i.rest_same;
      }

  insert-AddOutcome : AddOutcome w p st (insert w.session p w)
  unfolding insert
  insert-AddOutcome = elim (Option-cases (empty_slot (slots_of w.session))) [
    | inr (i, e) ↦ inl (_, rw (insert, e) refl, set-Inserted at w.session t absent i e)
    | inl none_free ↦ elim (Bool-cases (leb w.session.stream_capacity w.session.stream_count)) [
      | inr below ↦ inl (
        _,
        rw (insert, none_free, below) refl,
        append-Inserted at w.session t absent (ground arith),
      )
      | inl full ↦
          elim (Bool-cases (w.grants for_table (w.session.stream_capacity * 2 * sizeof_pointer))) [
            | inl fits ↦ inl (
              _,
              rw (insert, none_free, full, ◌>>=◌, fits) refl,
              grown-Inserted (ground (arith, t.room)),
            )
            | inr refused ↦ inr (
              rw (insert, none_free, full, ◌>>=◌, refused) refl,
              none_free,
              ground (arith, t.room),
              refused,
            )
          ]
    ]
  ]

-- The call behind its guards.
add_stream-insert :
    {C : Type 0} (w : World C) {p : Ptr} {st : Stream}
    → At w.heap p st
    → IsTable w.heap w.session
    → w.session.go_away_received ≡ false
    → add_stream the_session p w
      ≡ (if stream_of w st.id == null then insert w.session p w else some (err_invalid, w))
unfolding add_stream get_stream
add_stream-insert w {p} {st} at t opened =
    simp
      (
        add_stream,
        ◌>>=◌,
        not_null at,
        opened,
        load-At w at,
        find-lookup w (slots_of w.session) st.id t.live,
      )
      (ground arith)

-- `yamux_add_stream` for a stream that is there, on an open session: if the table has no stream with
-- its id, the call either succeeds, and then every lookup finds the new stream under its id and what
-- it found before under any other, or it fails for lack of memory and changes nothing, where the
-- array is full and cannot grow; if the table has one, the call is refused and changes nothing.
pub add_stream_lem :
    {C : Type 0} (w : World C) {p : Ptr} {st : Stream}
    → At w.heap p st
    → IsTable w.heap w.session
    → w.session.go_away_received ≡ false
    → ((stream_of w st.id ≡ null) × AddOutcome w p st (add_stream the_session p w))
      ⊎ ((stream_of w st.id ≢ null) × (add_stream the_session p w ≡ some (err_invalid, w)))
add_stream_lem w {p} {st} at t opened = elim (Bool-cases (stream_of w st.id == null)) [
  | inl free ↦ inl (
    (==_iff _ _).0 free,
    rw (add_stream-insert w at t opened, free) (insert-AddOutcome w at t ((==_iff _ _).0 free)),
  )
  | inr taken ↦ inr (
    λ e. false≢true (sym taken ∙ (==_iff _ _).1 e),
    rw (add_stream-insert w at t opened, taken) refl,
  )
]
