-- ===== src/Session/Refusals.antt =====
-- DATA frames that the session refuses or ignores (src/yamux_session.c, src/yamux_handlers.c).
use tiny_yamux.Base.{
  ℕ, ◌^◌, ◌<◌, arith, false, ◌≡◌, ◌⊎◌, inl, inr, refl, ◌∙◌, true, some, ◌||◌, ◌==◌, ==_iff,
  if◌then◌else◌,
}
use tiny_yamux.Protocol.{
  Header, ok, has, flag_rst, err_invalid_stream, err_closed, closed, fin_recv, state_code,
  type_data,
}
use tiny_yamux.Frame.RoundTrip.{IsHeader}
use tiny_yamux.World.{null, Stream, World, the_session, ◌>>=◌, ◌>>◌}
use tiny_yamux.World.Laws.{At, not_null, load-At}
use tiny_yamux.World.Calls.{after_read}
use tiny_yamux.Table.Lookup.{IsTable, stream_of, get_stream-stream_of}
use tiny_yamux.Streams.{header}
use tiny_yamux.Handlers.{handle_data}
use tiny_yamux.Session.{dispatch, session_process}
use tiny_yamux.Session.Frames.{Receives, process_dispatches}

-- No stream has the id, or the one that has it takes no more data.
abbrev pub IsUnwanted : {C : Type 0} → World C → Header → Type 0
IsUnwanted w h =
    (stream_of w h.stream_id ≡ null)
    ⊎ ((st : Stream) × At w.heap (stream_of w h.stream_id) st
        × ((state_code st.state == state_code closed || state_code st.state == state_code fin_recv)
            ≡ true))

handle_data-unwanted :
    {C : Type 0} (w : World C) (h : Header)
    → IsTable w.heap w.session
    → IsUnwanted w h
    → handle_data the_session h w
      ≡ some (if stream_of w h.stream_id == null then err_invalid_stream else err_closed, w)
unfolding handle_data
handle_data-unwanted w h t (inl absent) =
    simp (handle_data, ◌>>=◌, get_stream-stream_of w h.stream_id t, absent) refl
handle_data-unwanted w h t (inr (st, at, over)) =
    simp (handle_data, ◌>>=◌, get_stream-stream_of w h.stream_id t, not_null at, load-At w at, over)
      refl

-- A DATA frame, whatever its flags and length, for a stream that the table does not have, or that is
-- closed or in FIN_RECV: `yamux_session_process` reads the twelve bytes of its header, reports an
-- invalid stream or a closed one, and changes nothing. Its payload is not read, and so is what the next
-- call reads as a header.
pub unwanted_refused :
    {C : Type 0} (w : World C) (h : Header)
    → IsHeader h
    → h.type ≡ type_data
    → IsTable w.heap w.session
    → IsUnwanted w h
    → Receives w h
    → session_process the_session w
      ≡ some (
        if stream_of w h.stream_id == null then err_invalid_stream else err_closed,
        after_read w 12,
      )
unfolding dispatch after_read
unwanted_refused w h valid payload t unwanted r =
    process_dispatches w h valid r.is_open r.reads
    ∙ rw ((==_iff h.type type_data).1 payload) (handle_data-unwanted (after_read w 12) h t unwanted)

handle_data-rst :
    {C : Type 0} (w : World C) {st : Stream} (id : ℕ)
    → IsTable w.heap w.session
    → At w.heap (stream_of w id) st
    → (state_code st.state == state_code closed || state_code st.state == state_code fin_recv)
      ≡ false
    → handle_data the_session (header type_data flag_rst id 0) w ≡ some (ok, w)
unfolding handle_data has
handle_data-rst w {st} id t at alive =
    simp
      (handle_data, has, ◌>>=◌, ◌>>◌, get_stream-stream_of w id t, not_null at, load-At w at, alive)
      refl

-- The frame that `yamux_stream_close` with a reset sends, read by a session that has the stream, neither
-- closed nor in FIN_RECV: `yamux_session_process` succeeds and changes nothing, so the stream stays open
-- and in the table.
pub reset_ignored :
    {C : Type 0} (w : World C) {st : Stream} (id : ℕ)
    → IsTable w.heap w.session
    → At w.heap (stream_of w id) st
    → (state_code st.state == state_code closed || state_code st.state == state_code fin_recv)
      ≡ false
    → id < 2 ^ 32
    → Receives w (header type_data flag_rst id 0)
    → session_process the_session w ≡ some (ok, after_read w 12)
unfolding dispatch after_read
reset_ignored w id t at alive small r =
    process_dispatches w (header type_data flag_rst id 0) valid r.is_open r.reads
    ∙ handle_data-rst (after_read w 12) id t at alive
  where
    valid : IsHeader (header type_data flag_rst id 0)
    valid = record {
      version_zero = refl;
      known_type = omega arith;
      flags_u16 = omega arith;
      stream_id_u32 = small;
      length_u32 = omega arith;
    }
