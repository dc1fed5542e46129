-- ===== src/Examples.antt =====
-- Concrete sessions for the tests and the witnesses.
mod OnPeers
pub mod OnStreams
pub mod OnSessions
pub mod OnServers
mod Runs
mod OnRuns
mod OnEnds
use tiny_yamux.Base.{
  ℕ, Bool, true, false, Option, none, some, List, [], ◌∷◌, ◌++◌, take, drop, length, replicate, set,
}
use tiny_yamux.Protocol.{StreamState, established, has, be32}
use tiny_yamux.Frame
use tiny_yamux.Frame.{header_bytes}
use tiny_yamux.Buffer
use tiny_yamux.World.{
  Io, Stream, Session, World, load, store, free_stream, new_stream, io_read, io_write, encode_local,
  put_u32,
}
use tiny_yamux.Table
use tiny_yamux.AcceptQueue
use tiny_yamux.Streams
use tiny_yamux.Streams.Transfer
use tiny_yamux.Handlers
use tiny_yamux.Handlers.WindowUpdate
use tiny_yamux.Session
use tiny_yamux.Session.{default_config, fresh_session}

-- A connection on which the peer's bytes are all there, and every write is taken whole.
abbrev pub pipe : Io (List ℕ)
pipe = record {
  read = λ bytes n. (some (take n bytes), drop n bytes);
  write = λ bytes sent. (some (length sent), bytes);
  write_null = λ bytes len. some (none, bytes);
}

-- A new session with `bytes` to be read.
abbrev pub new_world : (client : Bool) → List ℕ → World (List ℕ)
new_world client bytes = record {
  session = fresh_session pipe client default_config;
  heap = λ _. none;
  fresh = 1;
  grants = λ _ _. true;
  ctx = bytes;
  sent = [];
}

-- All of the program, opened.
unfoldable pub running : Unit {0}
unfolding replicate has be32 header_bytes Frame.encode_header Frame.join_u32 Frame.join_u16
    Frame.decode_header Buffer.init Buffer.free Buffer.resize Buffer.new_size Buffer.reserve
    Buffer.store Buffer.write_bytes Buffer.write Buffer.read_bytes Buffer.read Buffer.shift_down
    Buffer.compact load store free_stream new_stream io_read io_write encode_local put_u32
    Table.find Table.get_stream Table.empty_slot Table.grow Table.append Table.insert
    Table.add_stream Table.remove_slot Table.clear_slot Table.remove_stream AcceptQueue.set_next
    AcceptQueue.enqueue_stream AcceptQueue.link_last AcceptQueue.enqueue_stream_for_accept
    AcceptQueue.take_first AcceptQueue.stream_accept Streams.take_id Streams.send_syn
    Streams.open_added Streams.open_sent Streams.open_allocated Streams.stream_open_detailed
    Streams.close_reset Streams.close_normal Streams.stream_close Streams.stream_get_id
    Streams.stream_get_send_window Streams.stream_get_state Streams.stream_update_window
    Transfer.window_increment Transfer.chunk_size Transfer.announce Transfer.compact_read
    Transfer.read_buffer Transfer.stream_read Transfer.send_chunk Transfer.write_loop
    Transfer.write_checked Transfer.stream_write Handlers.fin_received Handlers.fill_recv_buf
    Handlers.reserve_recv_buf Handlers.write_buffer Handlers.refill_window Handlers.deliver
    Handlers.read_payload Handlers.handle_data Handlers.send_pong Handlers.echo
    Handlers.read_ping_data Handlers.handle_ping Handlers.set_go_away Handlers.handle_go_away
    Handlers.utils_handle_ping Handlers.utils_handle_go_away WindowUpdate.payload_plan
    WindowUpdate.window_of WindowUpdate.read_window WindowUpdate.payload WindowUpdate.send_syn_ack
    WindowUpdate.admit WindowUpdate.syn_new WindowUpdate.on_syn WindowUpdate.acked
    WindowUpdate.on_ack WindowUpdate.on_window WindowUpdate.on_fin WindowUpdate.on_rst
    WindowUpdate.rest_of_update WindowUpdate.handle_window_update fresh_session
    Session.session_create Session.close_streams Session.drop_streams Session.send_go_away
    Session.session_close Session.dispatch Session.session_process Session.session_ping
running = tt
