-- ===== src/Safety/Data.antt =====
-- DATA frames keep a session in order (src/yamux_handlers.c).
use tiny_yamux.Base.{
  ℕ, ◌^◌, ◌<◌, ◌≤◌, ◌≡◌, ◌≢◌, inl, inr, refl, arith, ◌||◌, some, List, length, ltb, ◌==◌,
  Bool-cases, Option-cases, if◌then◌else◌,
}
use tiny_yamux.Protocol.{
  err_io, is_ok, Header, default_window_size, header_size, window_update_threshold,
  type_window_update, sub_u32, has, flag_fin, state_code, closed, fin_recv,
}
use tiny_yamux.World.{
  for_buffer, Ptr, Stream, World, the_session, ◌>>=◌, ◌>>◌, returned, store, pure,
}
use tiny_yamux.World.Laws.{At, load-At, encode_local_header, not_null}
use tiny_yamux.Table.Lookup.{slots_of, lookup-At, get_stream-stream_of}
use tiny_yamux.Streams.{header}
use tiny_yamux.Handlers.{
  fin_received, fill_recv_buf, write_buffer, refill_window, deliver, read_payload, handle_data,
}
use tiny_yamux.Safety.{InOrder}
use tiny_yamux.Safety.Total.{Returns, Returns-weaken, Returns-pure, Returns-bind}
use tiny_yamux.Safety.Buffers.{write-IsBuffer}
use tiny_yamux.Safety.Commands.{
  InOrderAfter, At-along, IsSteady-At, store-Returns, io_write-Returns, io_read-Returns,
}
use tiny_yamux.Safety.RecvBufs.{fill_recv_buf-InOrder, reserve_recv_buf-Returns}

module _ {C : Type 0} {w : World C} (o : InOrder w) {p : Ptr} {st : Stream}
    (at : At w.heap p st) where
  refill_window-InOrder : Returns (refill_window p w) InOrderAfter
  unfolding refill_window
  refill_window-InOrder = elim (Bool-cases (ltb st.recv_window window_update_threshold)) [
    | inr high ↦ rw (◌>>=◌, load-At w at, high) (Returns-pure o)
    | inl low ↦
        rw (◌>>=◌, load-At w at, low, encode_local_header (header type_window_update 0 st.id 4))
          (Returns-bind (io_write-Returns o _) λ n w' steady.
            elim (Bool-cases (returned n header_size)) [
              | inr lost ↦ rw lost (Returns-pure steady.in_order)
              | inl took ↦ rw took (
                  Returns-bind
                    (store-Returns steady.in_order (record st { recv_window = default_window_size })
                      (IsSteady-At steady at) refl refl
                      (record {
                        buffer = (o.sound p st at).buffer;
                        send_fits = (o.sound p st at).send_fits;
                        recv_fits = omega arith;
                      }))
                    (λ _ w₂ (o₂, _). Returns-pure o₂))
            ])
  ]

module _ {C : Type 0} {w : World C} (o : InOrder w) {p : Ptr} {st : Stream}
    (at : At w.heap p st) where
  deliver-InOrder :
      (source : List ℕ) (len : ℕ)
      → w.session.recv_buf ≡ some source
      → len ≤ length source
      → len ≢ 0
      → len < 2 ^ 32
      → Returns (deliver p len w) InOrderAfter
  unfolding deliver write_buffer
  deliver-InOrder source len held fits ne small =
      let sound = o.sound p st at in
      let (r, b, e, buf) =
        write-IsBuffer (w.grants for_buffer) source len (o.allocator for_buffer) sound.buffer ne
          fits (omega arith) in
      let st₁ = record st { recvbuf = b } in
      rw (◌>>=◌, load-At w at, held, e)
        (Returns-bind
          (store-Returns o st₁ at refl refl
            (record { buffer = buf; send_fits = sound.send_fits; recv_fits = sound.recv_fits }))
          λ _ w₁ (o₁, at₁). elim (Bool-cases (is_ok r)) [
            | inr failed ↦ rw failed (Returns-pure o₁)
            | inl done ↦ rw done (
                Returns-bind
                  (store-Returns o₁
                    (record st { recvbuf = b; recv_window = sub_u32 st.recv_window len }) at₁ refl
                    refl
                    (record { buffer = buf; send_fits = sound.send_fits; recv_fits = omega arith }))
                  λ _ w₂ (o₂, at₂). refill_window-InOrder o₂ at₂)
          ])

module _ {C : Type 0} {w : World C} (o : InOrder w) {p : Ptr} {st : Stream}
    (at : At w.heap p st) where
  -- The callback's bytes, in a receive buffer that has room for the payload.
  stored-InOrder :
      (bytes block : List ℕ) (len : ℕ)
      → w.session.recv_buf ≡ some block
      → len ≤ length block
      → length bytes ≤ len
      → len ≢ 0
      → len < 2 ^ 32
      → Returns
          ((fill_recv_buf bytes
              >> (if ltb (length bytes) len then pure err_io else deliver p (length bytes)))
            w)
          InOrderAfter
  stored-InOrder bytes block len held fits short ne small =
      Returns-bind (fill_recv_buf-InOrder o bytes block held (omega arith))
        λ _ w₁ (o₁, same, source, held', sized). elim (Bool-cases (ltb (length bytes) len)) [
          | inl less ↦ rw less (Returns-pure o₁)
          | inr all ↦ rw all (
              deliver-InOrder o₁ (At-along same at) source (length bytes) held' (omega arith)
                (ground arith) (omega arith))
        ]

module _ {C : Type 0} {w : World C} (o : InOrder w) {p : Ptr} {st : Stream}
    (at : At w.heap p st) where
  read_payload-InOrder :
      (len : ℕ) → len ≢ 0 → len < 2 ^ 32 → Returns (read_payload p len w) InOrderAfter
  unfolding read_payload
  read_payload-InOrder len ne small =
      Returns-bind (reserve_recv_buf-Returns o len ne) λ fits w₁ (o₁, same, room).
        elim (Bool-cases fits) [
          | inr refused ↦ rw refused (Returns-pure o₁)
          | inl granted ↦
              let (block, held, inb) = room granted in
              rw granted (
                Returns-bind (io_read-Returns o₁ len) λ got w₂ (steady, promise).
                  elim (Option-cases got) [
                    | inl e ↦ rw e (Returns-pure steady.in_order)
                    | inr (bytes, e) ↦ rw e (
                        stored-InOrder steady.in_order (IsSteady-At steady (At-along same at)) bytes
                          block len (rw steady.same_session held) inb (promise bytes e).0 ne small)
                  ])
        ]

  -- The FIN, if there is one.
  fin-Returns :
      (h : Header)
      → Returns
          ((if has h.flags flag_fin
              then store p (record st { state = fin_received st.state })
              else pure tt)
            w)
          (λ _ w'. InOrder w' × (st' : Stream) × At w'.heap p st')
  fin-Returns h = elim (Bool-cases (has h.flags flag_fin)) [
    | inr plain ↦ rw plain (Returns-pure (o, st, at))
    | inl fin ↦
        let sound = o.sound p st at in
        rw fin (
          Returns-weaken
            (store-Returns o (record st { state = fin_received st.state }) at refl refl
              (record {
                buffer = sound.buffer;
                send_fits = sound.send_fits;
                recv_fits = sound.recv_fits;
              }))
            (λ _ w' (o', at'). (o', _, at')))
  ]

-- A DATA frame, whatever its flags and for whatever stream.
pub handle_data-InOrder :
    {C : Type 0} {w : World C}
    → InOrder w
    → (h : Header) → h.length < 2 ^ 32
    → Returns (handle_data the_session h w) InOrderAfter
unfolding handle_data
handle_data-InOrder {w} o h small =
    elim (lookup-At w.heap (slots_of w.session) h.stream_id o.table.live) [
      | inl absent ↦ rw (◌>>=◌, get_stream-stream_of w h.stream_id o.table, absent) (Returns-pure o)
      | inr (st, at, _) ↦
          rw (◌>>=◌, get_stream-stream_of w h.stream_id o.table, not_null at, load-At w at)
            (elim (Bool-cases (
              state_code st.state == state_code closed
              || state_code st.state == state_code fin_recv)) [
                | inl over ↦ rw over (Returns-pure o)
                | inr alive ↦ rw alive (
                    Returns-bind (fin-Returns o at h) λ _ w₁ (o₁, st₁, at₁).
                      elim (Bool-cases (h.length == 0)) [
                        | inl none_more ↦ rw none_more (Returns-pure o₁)
                        | inr more ↦
                            rw more (read_payload-InOrder o₁ at₁ h.length (ground arith) small)
                      ])
              ])
    ]
