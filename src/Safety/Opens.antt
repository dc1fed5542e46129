-- ===== src/Safety/Opens.antt =====
-- Opening and accepting a stream keep a session in order (src/yamux_stream.c).
use tiny_yamux.Base.{ℕ, ◌+◌, ◌≡◌, inl, inr, refl, arith, false, List, [], ◌∷◌, ◌==◌, Bool-cases}
use tiny_yamux.Protocol.{is_ok, flag_syn, type_window_update, header_size, syn_sent, add_u32}
use tiny_yamux.Buffer.{Buffer}
use tiny_yamux.World.{
  for_buffer, for_stream, Ptr, null, Stream, World, the_session, ◌>>=◌, returned, sizeof_stream,
}
use tiny_yamux.World.Laws.{At, load-At, encode_local_frame}
use tiny_yamux.Table.Lookup.{slots_of}
use tiny_yamux.Table.Born.{new_stream-born, born-At}
use tiny_yamux.AcceptQueue.{stream_accept}
use tiny_yamux.AcceptQueue.Chain.{NotIn}
use tiny_yamux.AcceptQueue.Accepting.{accept_takes_first, accept_refuses}
use tiny_yamux.Streams.{
  header, opened, take_id, send_syn, open_added, open_sent, open_allocated, stream_open_detailed,
}
use tiny_yamux.Safety.{IsBuffer, IsSound, InOrder}
use tiny_yamux.Safety.Total.{Returns, returns, Returns-pure, Returns-bind}
use tiny_yamux.Safety.Buffers.{init-IsBuffer}
use tiny_yamux.Safety.Lists.{born-InOrder, born-NotWaiting, vacant, renoted-InOrder}
use tiny_yamux.Safety.Waiting.{NotWaiting}
use tiny_yamux.Safety.Queueing.{enqueued-InOrder}
use tiny_yamux.Safety.Commands.{
  InOrderAfter, IsSteady, At-along, IsSteady-At, store-Returns, io_write-Returns,
}
use tiny_yamux.Safety.Tables.{add_stream-Returns, free_stream-Returns, born-NotIn}

send_syn-Returns :
    {C : Type 0} {w : World C}
    → InOrder w
    → (id : ℕ) → Returns (send_syn id w) (λ _ w'. IsSteady w w')
unfolding send_syn
send_syn-Returns {w} o id =
    rw (◌>>=◌, encode_local_frame (header type_window_update flag_syn id 4) w)
      (io_write-Returns o _)

pub IsSteady-NotWaiting :
    {C : Type 0} {w w' : World C} {p : Ptr} → IsSteady w w' → NotWaiting w p → NotWaiting w' p
IsSteady-NotWaiting steady apart q c = apart q (rw (steady.same_heap, steady.same_session) at c)

module _ {C : Type 0} {w : World C} (o : InOrder w) {p : Ptr} {st : Stream} (at : At w.heap p st)
    (gone : NotIn p (slots_of w.session)) (apart : NotWaiting w p) where
  open_added-Returns : Returns (open_added p w) InOrderAfter
  unfolding open_added
  open_added-Returns = Returns-bind (add_stream-Returns o at) λ r w₁ outcome. elim outcome [
    | inr (failed, e) ↦
        rw (failed, e)
          (Returns-bind (free_stream-Returns o at gone apart) λ _ w₂ o₂. Returns-pure o₂)
    | inl (added, same) ↦
        let at₁ : At w₁.heap p st = At-along same.same_heap at in
        let sound = o.sound p st at in
        rw (added, ◌>>=◌, load-At w₁ at₁)
          (Returns-bind
            (store-Returns same.in_order (record st { state = syn_sent }) at₁ refl refl
              (record {
                buffer = sound.buffer;
                send_fits = sound.send_fits;
                recv_fits = sound.recv_fits;
              }))
            λ _ w₂ (o₂, _). Returns-pure o₂)
  ]

module _ {C : Type 0} {w : World C} (o : InOrder w) where
  open_sent-Returns :
      (id : ℕ) (buffer : Buffer) → IsBuffer buffer → Returns (open_sent id buffer w) InOrderAfter
  unfolding open_sent
  open_sent-Returns id buffer buf =
      let sound : IsSound (opened id buffer) = record {
        buffer = buf;
        send_fits = omega arith;
        recv_fits = omega arith;
      } in
      let o₁ = born-InOrder o (opened id buffer) sound in
      let at₁ = born-At w o.table (vacant o) o.queue.started (opened id buffer) in
      let apart = born-NotWaiting o (opened id buffer) in
      let gone = born-NotIn o (opened id buffer) in
      rw (◌>>=◌, new_stream-born w (opened id buffer))
        (Returns-bind (send_syn-Returns o₁ id) λ n w₂ steady.
          let gone₂ : NotIn w.fresh (slots_of w₂.session) = rw steady.same_session gone in
          elim (Bool-cases (returned n (header_size + 4))) [
            | inl sent ↦ rw sent (
                open_added-Returns steady.in_order (IsSteady-At steady at₁) gone₂
                  (IsSteady-NotWaiting steady apart))
            | inr lost ↦ rw lost (
                Returns-bind
                  (free_stream-Returns steady.in_order (IsSteady-At steady at₁) gone₂
                    (IsSteady-NotWaiting steady apart))
                  λ _ w₃ o₃. Returns-pure o₃)
          ])

  take_id-Returns : (stream_id : ℕ) → Returns (take_id stream_id w) InOrderAfter
  unfolding take_id
  take_id-Returns stream_id = elim (Bool-cases (stream_id == 0)) [
    | inr given ↦ rw given (Returns-pure o)
    | inl next ↦ rw next (
        Returns-pure
          (renoted-InOrder o w.session.go_away_received (add_u32 w.session.next_stream_id 2)))
  ]

-- `yamux_stream_open_detailed` for any id, succeeding or not.
pub stream_open-InOrder :
    {C : Type 0} {w : World C}
    → InOrder w
    → (stream_id : ℕ) → Returns (stream_open_detailed the_session stream_id w) InOrderAfter
unfolding stream_open_detailed open_allocated
stream_open-InOrder {w} o stream_id = elim (Bool-cases w.session.go_away_received) [
  | inl shut ↦ simp (stream_open_detailed, ◌>>=◌, shut) (Returns-pure o)
  | inr is_open ↦ elim (Bool-cases (stream_id == 0xFFFFFFFF)) [
    | inl bad ↦ simp (stream_open_detailed, ◌>>=◌, is_open, bad) (Returns-pure o)
    | inr good ↦ elim (Bool-cases (w.grants for_stream sizeof_stream)) [
      | inr refused ↦ simp (stream_open_detailed, ◌>>=◌, is_open, good, refused) (Returns-pure o)
      | inl fits ↦
          simp (stream_open_detailed, ◌>>=◌, is_open, good, fits)
            (Returns-bind (take_id-Returns o stream_id) λ id w₁ o₁.
              let (r, b, e, buf) = init-IsBuffer (w₁.grants for_buffer) in
              rw (◌>>=◌, e)
                (elim (Bool-cases (is_ok r)) [
                  | inr failed ↦ rw failed (Returns-pure o₁)
                  | inl made ↦ rw made (open_sent-Returns o₁ id b buf)
                ]))
    ]
  ]
]

-- `yamux_stream_accept`, whether there is a stream or not.
pub stream_accept-InOrder :
    {C : Type 0} {w : World C} → InOrder w → Returns (stream_accept the_session w) InOrderAfter
stream_accept-InOrder {w} o = elim (Bool-cases w.session.go_away_received) [
  | inl shut ↦ returns _ w (accept_refuses w (rw shut refl)) o
  | inr is_open ↦ waiting_cases o.waiting refl is_open
]
  where
    waiting_cases :
        (q : List Ptr)
        → o.waiting ≡ q
        → w.session.go_away_received ≡ false
        → Returns (stream_accept the_session w) InOrderAfter
    waiting_cases [] e is_open =
        let empty : w.session.accept_queue ≡ null = rw e at o.queue.chain in
        returns _ w (accept_refuses w (rw (is_open, empty) refl)) o
    waiting_cases (p ∷ q) e is_open =
        let (w', run, enq) = accept_takes_first w p q (rw e at o.queue) is_open in
        returns _ w' run (enqueued-InOrder o enq)
