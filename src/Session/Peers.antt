-- ===== src/Session/Peers.antt =====
-- The frames that the session sends by itself, as a peer that runs the same code receives them
-- (src/yamux_session.c, src/yamux_handlers.c).
use tiny_yamux.Base.{
  ℕ, ◌^◌, ◌<◌, ◌≡◌, ◌≢◌, refl, ◌∙◌, arith, none, some, List, [], ◌∷◌, ◌++◌, if◌then◌else◌, ==-false,
  ltb-true, Bool-cases, inl, inr,
}
use tiny_yamux.Protocol.{
  Result, ok, err_io, err_closed, err_protocol, Header, type_go_away, type_window_update, type_ping,
  default_window_size, window_update_threshold, has,
}
use tiny_yamux.Frame.{header_bytes}
use tiny_yamux.Frame.RoundTrip.{IsHeader}
use tiny_yamux.World.{Ptr, World, Stream, the_session, ◌>>=◌, ◌>>◌, returned, update}
use tiny_yamux.World.Laws.{
  At, load-At, store-At, encode_local_header, encode_local_short, put_u32_length,
}
use tiny_yamux.Streams.{header}
use tiny_yamux.Handlers.{handle_go_away, refill_window}
use tiny_yamux.Handlers.WindowUpdate.{payload, payload_plan, handle_window_update}
use tiny_yamux.Session.{dispatch, session_process, session_ping, send_go_away}
use tiny_yamux.Session.Frames.{Receives, process_dispatches, send_go_away-sent}
use tiny_yamux.World.Calls.{after_read, sent_world, io_write-sent, sent_world-At, sent-sent_world}

-- The go-away frame that `yamux_session_close` sends for the error code `err`, below 2^32 and not 4,
-- is twelve bytes whose length field holds the error code; `yamux_session_process` of a peer that
-- receives them reports a protocol error and does not note the go-away.
pub go_away_refused :
    {C D : Type 0} (w : World C) (v : World D) (err : ℕ)
    → err < 2 ^ 32
    → err ≢ 4
    → Receives v (header type_go_away 0 0 err)
    → (w' : World C) × (send_go_away err w ≡ some (tt, w'))
      × (w'.sent ≡ w.sent ++ (header_bytes (header type_go_away 0 0 err) ∷ []))
      × (session_process the_session v ≡ some (err_protocol, after_read v 12))
unfolding sent_world dispatch handle_go_away
go_away_refused w v err small ne r = (
  sent_world w (header_bytes (header type_go_away 0 0 err)),
  send_go_away-sent w err,
  refl,
  process_dispatches v (header type_go_away 0 0 err) valid r.is_open r.reads
      ∙ rw (==-false err 4 ne) refl,
)
  where
    valid : IsHeader (header type_go_away 0 0 err)
    valid = record {
      version_zero = refl;
      known_type = omega arith;
      flags_u16 = omega arith;
      stream_id_u32 = omega arith;
      length_u32 = small;
    }

update_header : ℕ → Header
update_header id = header type_window_update 0 id default_window_size

-- Where the receive window of a stream is below half of the default window, the window update that
-- `yamux_handle_data` sends is twelve bytes whose length field holds the window;
-- `yamux_session_process` of a peer that receives them reports a protocol error.
pub refill_refused :
    {C D : Type 0} (w : World C) (v : World D) {p : Ptr} {st : Stream}
    → At w.heap p st
    → st.recv_window < window_update_threshold
    → st.id < 2 ^ 32
    → Receives v (header type_window_update 0 st.id default_window_size)
    → (r : Result) × (w' : World C) × (refill_window p w ≡ some (r, w'))
      × (w'.sent
          ≡ w.sent ++ (header_bytes (header type_window_update 0 st.id default_window_size) ∷ []))
      × (session_process the_session v ≡ some (err_protocol, after_read v 12))
unfolding refill_window dispatch handle_window_update payload payload_plan has
refill_refused w v {p} {st} at low small r =
    elim (Bool-cases (returned (w.session.io.write w.ctx frame).0 12)) [
      | inl whole ↦ (
        ok,
        record (sent_world w frame) {
          heap =
              update (sent_world w frame).heap p
                (some (record st { recv_window = default_window_size }));
        },
        simp
            (
              refill_window,
              ◌>>=◌,
              ◌>>◌,
              load-At w at,
              ltb-true _ _ low,
              encode_local_header (header type_window_update 0 st.id 4) w,
              put_u32_length (header type_window_update 0 st.id 4) default_window_size,
              io_write-sent w frame,
              whole,
              store-At (sent_world w frame) (sent_world-At w frame at)
                  (record st { recv_window = default_window_size }),
            )
            refl,
        sent-sent_world w frame,
        peer,
      )
      | inr part ↦ (
        err_io,
        sent_world w frame,
        simp
            (
              refill_window,
              ◌>>=◌,
              ◌>>◌,
              load-At w at,
              ltb-true _ _ low,
              encode_local_header (header type_window_update 0 st.id 4) w,
              put_u32_length (header type_window_update 0 st.id 4) default_window_size,
              io_write-sent w frame,
              part,
            )
            refl,
        sent-sent_world w frame,
        peer,
      )
    ]
  where
    frame : List ℕ
    frame = header_bytes (header type_window_update 0 st.id default_window_size)

    valid : IsHeader (header type_window_update 0 st.id default_window_size)
    valid = record {
      version_zero = refl;
      known_type = omega arith;
      flags_u16 = omega arith;
      stream_id_u32 = small;
      length_u32 = omega arith;
    }

    peer : session_process the_session v ≡ some (err_protocol, after_read v 12)
    peer =
        process_dispatches v (header type_window_update 0 st.id default_window_size) valid r.is_open
          r.reads
        ∙ refl

-- `yamux_session_ping` reports that the session is shut down, and changes nothing, where it is; on any
-- other session it writes a twelve-byte header into an array of eight, which is undefined.
pub session_ping_lem :
    {C : Type 0} (w : World C)
    → session_ping the_session w
      ≡ (if w.session.go_away_received then some (err_closed, w) else none)
unfolding session_ping
session_ping_lem w = elim (Bool-cases w.session.go_away_received) [
  | inl shut ↦ simp (session_ping, ◌>>=◌, shut) refl
  | inr opened ↦
      simp (session_ping, ◌>>=◌, opened, encode_local_short (header type_ping 1 0 0) w) refl
]
