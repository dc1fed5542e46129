-- ===== src/Examples/OnRuns.antt =====
-- The theorems on whole runs, at a new client and a new server.
use tiny_yamux.Base.{
  true, ℕ, ◌%◌, ◌^◌, ◌≡◌, inl, inr, refl, sym, ap, ◌∙◌, arith, Bool, false, none, some, List, [],
  ◌∷◌, map, take, drop, length, ltb, ltb→lt, eq_of_some, length-take,
}
use tiny_yamux.Protocol.{Header}
use tiny_yamux.Frame.{IsBytes, decoded, decode_header}
use tiny_yamux.Frame.Accepts.{decode_header_total}
use tiny_yamux.World.{with_allocator, Purpose, Io, World}
use tiny_yamux.Session.{fresh_session, session_create, default_config}
use tiny_yamux.Safety.{IsReader, IsAllocator, InOrder}
use tiny_yamux.Safety.Process.{NextServable}
use tiny_yamux.Safety.Runs.{
  Reach, opens, processes, perform, here, next, started, created-InOrder, perform-InOrder,
  Reach-InOrder, runs_return,
}

-- A connection that gives bytes, whatever it holds.
abbrev byte_pipe : Io (List ℕ)
byte_pipe = record {
  read = λ bytes n. (some (map (λ b. b % 256) (take n bytes)), drop n bytes);
  write = λ bytes sent. (some (length sent), bytes);
  write_null = λ bytes len. some (none, bytes);
}

map-IsBytes : (xs : List ℕ) → IsBytes (map (λ b. b % 256) xs)
map-IsBytes [] = tt
map-IsBytes (x ∷ xs) = (omega arith, map-IsBytes xs)

length-map : (xs : List ℕ) → length (map (λ b. b % 256) xs) ≡ length xs
length-map [] = refl
length-map (x ∷ xs) = omega (arith, length-map xs)

byte_pipe-IsReader : IsReader byte_pipe
byte_pipe-IsReader c n bytes e =
    rw (← eq_of_some e)
      (omega (arith, length-map (take n c), length-take n c), map-IsBytes (take n c))

-- An allocator with a gigabyte, and one that has only small blocks left.
abbrev gigabyte : Purpose → ℕ → Bool
gigabyte purpose n = ltb n (2 ^ 30)

abbrev exhausted : Purpose → ℕ → Bool
exhausted purpose n = ltb n 32

gigabyte-IsAllocator : IsAllocator gigabyte
gigabyte-IsAllocator purpose n given = omega (arith, ltb→lt n (2 ^ 30) given)

exhausted-IsAllocator : IsAllocator exhausted
exhausted-IsAllocator purpose n given = omega (arith, ltb→lt n 32 given)

-- A server to which a client has sent its SYN for stream 1.
abbrev server : World (List ℕ)
server =
    started gigabyte (fresh_session byte_pipe false default_config)
      (0 ∷ 1 ∷ 0 ∷ 1 ∷ 0 ∷ 0 ∷ 0 ∷ 1 ∷ 0 ∷ 0 ∷ 0 ∷ 4 ∷ 0 ∷ 4 ∷ 0 ∷ 0 ∷ [])

server-InOrder : InOrder server
unfolding session_create
server-InOrder =
    created-InOrder (λ n. true) gigabyte byte_pipe false none _ byte_pipe-IsReader
      gigabyte-IsAllocator tt refl

-- What the header's bytes after version and type are.
abbrev rest_of_header : List ℕ
rest_of_header = 0 ∷ 1 ∷ 0 ∷ 0 ∷ 0 ∷ 1 ∷ 0 ∷ 0 ∷ 0 ∷ 4 ∷ []

is_update : (h : Header) → decode_header (some (0 ∷ 1 ∷ rest_of_header)) 12 ≡ decoded h → h.type ≡ 1
is_update h e = elim (decode_header_total 0 1 rest_of_header 12 (omega arith) (omega arith)) [
  | inl (_, _, (h', e', kind)) ↦ let same : h' ≡ h = cc in ap (λ x. x.type) (sym same) ∙ kind
  | inr (inl ne, _) ↦ absurd (ne refl)
  | inr (inr lt, _) ↦ absurd (omega arith)
]

-- The frame is a WINDOW_UPDATE, which needs no receive buffer.
server-NextServable : NextServable server
unfolding session_create fresh_session
server-NextServable bytes h got e =
    let kind = is_update h (rw (← eq_of_some got) at e) in
    record { ping = λ p. absurd (omega arith); go_away = λ p. absurd (omega arith) }

-- The server, once it has processed the frame.
serving : (w : World (List ℕ)) × (perform processes server ≡ some (tt, w)) × InOrder w
serving = perform-InOrder processes server-InOrder server-NextServable

served : Reach server serving.0
served = next here gigabyte gigabyte-IsAllocator processes server-NextServable serving.1

Reach-InOrder_example : InOrder serving.0
Reach-InOrder_example = Reach-InOrder server-InOrder served

-- The stream for which there was memory is there; for another there is none.
runs_return_example :
    (v : World (List ℕ)) × (perform (opens 0) (with_allocator serving.0 exhausted) ≡ some (tt, v))
    × InOrder v
unfolding session_create
runs_return_example =
    runs_return (λ n. true) gigabyte byte_pipe false none server.ctx exhausted (opens 0)
      byte_pipe-IsReader gigabyte-IsAllocator tt refl served exhausted-IsAllocator tt
