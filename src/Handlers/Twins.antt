-- ===== src/Handlers/Twins.antt =====
-- The two versions of the go-away handler (src/yamux_handlers.c, src/yamux_session_utils.c).
use tiny_yamux.Base.{
  ℕ, ◌<◌, ◌≤◌, ◌≡◌, inl, inr, refl, arith, true, none, some, List, [], ◌∷◌, ◌++◌, length, drop,
  ◌==◌, Bool-cases, Option-cases, ==_iff, ==-false, ltb-true, ltb-false,
}
use tiny_yamux.Protocol.{Result, err_io, err_protocol, ok, Header}
use tiny_yamux.World.{World, the_session, ◌>>=◌, ◌>>◌}
use tiny_yamux.World.Calls.{after_read, io_read-after}
use tiny_yamux.Handlers.{fill_recv_buf, set_go_away, handle_go_away, utils_handle_go_away}
use tiny_yamux.Handlers.RecvBuf.{rebuffered, fill_recv_buf-fits}

-- One result, and worlds that differ in the contents of the receive buffer only.
pub record SameGoAway {C : Type 0} (w : World C) (h : Header) : Type 0 where
  pub result : Result
  pub left : World C
  pub right : World C
  pub handled : handle_go_away the_session h w ≡ some (result, left)
  pub twin : utils_handle_go_away the_session h w ≡ some (result, right)
  pub alike :
      left ≡ record right { session = record right.session { recv_buf = left.session.recv_buf } }

module _ {C : Type 0} (w : World C) (h : Header) (good : (h.length == 4) ≡ true) where
  lost-SameGoAway : (w.session.io.read w.ctx 4).0 ≡ none → SameGoAway w h
  unfolding handle_go_away utils_handle_go_away
  lost-SameGoAway lost = record {
    result = err_io;
    left = after_read w 4;
    right = after_read w 4;
    handled = simp (handle_go_away, ◌>>=◌, good, io_read-after w 4, lost) refl;
    twin = simp (utils_handle_go_away, ◌>>=◌, good, io_read-after w 4, lost) refl;
    alike = refl;
  }

  none-SameGoAway : (w.session.io.read w.ctx 4).0 ≡ some [] → SameGoAway w h
  unfolding handle_go_away utils_handle_go_away fill_recv_buf
  none-SameGoAway got = record {
    result = err_io;
    left = after_read w 4;
    right = after_read w 4;
    handled = simp (handle_go_away, ◌>>=◌, good, io_read-after w 4, got) refl;
    twin = simp (utils_handle_go_away, ◌>>=◌, good, io_read-after w 4, got) refl;
    alike = refl;
  }

  -- The world of the first version once the bytes are in the receive buffer.
  abbrev filled : (bytes old : List ℕ) → World C
  filled bytes old =
      rebuffered (after_read w 4) (bytes ++ drop (length bytes) old) w.session.recv_buf_size

  filling :
      (bytes old : List ℕ)
      → w.session.recv_buf ≡ some old
      → length bytes ≤ length old
      → 0 < length bytes
      → fill_recv_buf bytes (after_read w 4) ≡ some (tt, filled bytes old)
  unfolding after_read
  filling bytes old held fits some_bytes =
      fill_recv_buf-fits (after_read w 4) bytes old held fits some_bytes

  module _ (bytes old : List ℕ) (got : (w.session.io.read w.ctx 4).0 ≡ some bytes)
      (within : length bytes ≤ 4) (held : w.session.recv_buf ≡ some old) (room : 4 ≤ length old)
      (some_bytes : 0 < length bytes) where
    short-SameGoAway : length bytes < 4 → SameGoAway w h
    unfolding handle_go_away utils_handle_go_away rebuffered after_read
    short-SameGoAway short = record {
      result = err_io;
      left = filled bytes old;
      right = after_read w 4;
      handled =
          simp
            (
              handle_go_away,
              ◌>>=◌,
              ◌>>◌,
              good,
              io_read-after w 4,
              got,
              filling bytes old held (omega arith) some_bytes,
              ltb-true (length bytes) 4 short,
            )
            refl;
      twin =
          simp
            (
              utils_handle_go_away,
              ◌>>=◌,
              good,
              io_read-after w 4,
              got,
              ltb-false 4 (length bytes) within,
              ==-false (length bytes) 4 (λ e. absurd (omega arith)),
            )
            refl;
      alike = refl;
    }

    whole-SameGoAway : length bytes ≡ 4 → SameGoAway w h
    unfolding handle_go_away utils_handle_go_away set_go_away rebuffered after_read
    whole-SameGoAway whole = record {
      result = ok;
      left = record (filled bytes old) {
        session = record (filled bytes old).session { go_away_received = true };
      };
      right = record (after_read w 4) { session = record w.session { go_away_received = true } };
      handled =
          simp
            (
              handle_go_away,
              set_go_away,
              ◌>>=◌,
              ◌>>◌,
              good,
              io_read-after w 4,
              got,
              filling bytes old held (omega arith) some_bytes,
              ltb-false (length bytes) 4 (omega arith),
            )
            refl;
      twin =
          simp
            (
              utils_handle_go_away,
              set_go_away,
              ◌>>=◌,
              ◌>>◌,
              good,
              io_read-after w 4,
              got,
              ltb-false 4 (length bytes) within,
              (==_iff (length bytes) 4).1 whole,
            )
            refl;
      alike = refl;
    }

-- The two definitions of `yamux_handle_go_away` agree on every frame, where the session's receive
-- buffer has room for the reason and the callback stores no more than it is asked for: one result,
-- and the same state but for the contents of that buffer. The session is noted as shut down by both or by neither.
pub handle_go_away_same :
    {C : Type 0} (w : World C) (h : Header) (old : List ℕ)
    → w.session.recv_buf ≡ some old
    → 4 ≤ length old
    → ((bytes : List ℕ) → (w.session.io.read w.ctx 4).0 ≡ some bytes → length bytes ≤ 4)
    → SameGoAway w h
unfolding handle_go_away utils_handle_go_away
handle_go_away_same w h old held room within = elim (Bool-cases (h.length == 4)) [
  | inr bad ↦ record {
    result = err_protocol;
    left = w;
    right = w;
    handled = rw (handle_go_away, bad) refl;
    twin = rw (utils_handle_go_away, bad) refl;
    alike = refl;
  }
  | inl good ↦ elim (Option-cases (w.session.io.read w.ctx 4).0) [
    | inl lost ↦ lost-SameGoAway w h good lost
    | inr (bytes, got) ↦ by_bytes good bytes got
  ]
]
  where
    by_bytes :
        (h.length == 4) ≡ true
        → (bytes : List ℕ) → (w.session.io.read w.ctx 4).0 ≡ some bytes
        → SameGoAway w h
    by_bytes good [] got = none-SameGoAway w h good got
    by_bytes good (b ∷ bytes) got = elim (Bool-cases (length (b ∷ bytes) == 4)) [
      | inl whole ↦
          whole-SameGoAway w h good (b ∷ bytes) old got (within (b ∷ bytes) got) held room
            (omega arith) ((==_iff _ _).0 whole)
      | inr short ↦
          let small = within (b ∷ bytes) got in
          short-SameGoAway w h good (b ∷ bytes) old got small held room (omega arith) (ground arith)
    ]
