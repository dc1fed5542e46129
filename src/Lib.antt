-- ===== src/Lib.antt =====
-- A model of the library in C, with its theorems. The library multiplexes streams over one connection
-- that the application supplies as two callbacks.
--
-- The parts, from the bottom up, and the files that model them:
--   Protocol: constants, result codes, states, headers (include/yamux.h, src/yamux_defs.h).
--   Frame: `yamux_encode_header` and `yamux_decode_header` (src/yamux_frame.c).
--   Buffer: a stream's receive buffer, `yamux_buffer_init`, `_free`, `_write`, `_read`, `_compact`
--     (src/yamux_buffer.c). Buffer/Queue relates it to the queue of its unread bytes.
--   World: the session, the streams and the connection as one state (src/yamux_internal.h); what the
--     callbacks and the heap do is in World/Laws and World/Calls.
--   Table: `yamux_get_stream`, `yamux_add_stream`, `yamux_remove_stream` (src/yamux_stream_utils.c), as
--     a map from ids to streams in Table/Lookup.
--   AcceptQueue: `yamux_enqueue_stream`, `yamux_enqueue_stream_for_accept` (src/yamux_stream_utils.c)
--     and `yamux_stream_accept` (src/yamux_stream.c), as a list in AcceptQueue/Chain.
--   Streams: open, close and the queries; Streams/Transfer: read and write (src/yamux_stream.c,
--     src/yamux_stream_ext.c).
--   Handlers: `yamux_handle_data`, `yamux_handle_ping`, `yamux_handle_go_away`, and
--     Handlers/WindowUpdate: `yamux_handle_window_update` (src/yamux_handlers.c,
--     src/yamux_session_utils.c).
--   Session: create, close, process, ping (src/yamux_session.c). `yamux_session_process` reads a header
--     and calls a handler, which finds the stream in the table and changes it. Session/Handshake,
--     Session/Message and Session/EndToEnd are about two sessions at the ends of one connection.
--   Safety: runs of calls on a session (Safety/Runs), and what each call needs and keeps. `InOrder` says
--     what a session is between calls: its table, its accept queue, its buffers. `Call` lists the calls,
--     `perform` makes one, `Allowed` is what a call asks of the application, and `Reach` relates the
--     states before and after a run. Safety/Total has the rules for commands that return.
--   Port: the public functions over handles (src/yamux_port.c).
--   Examples: sessions at which the theorems are applied, and runs.
-- A function keeps its name, less the prefix `yamux_`; the parts of a long function are definitions of
-- their own, composed as the function composes them.
--
-- The state. A function that works on the session is a command `M C A = World C → Option (A × World C)`.
-- `none` is behaviour that C leaves undefined: a NULL or dangling stream, an access outside an array.
-- A stream pointer is an address, 0 for NULL; addresses are not used twice. The session is one, so a
-- session pointer is NULL or that session. `grants use n` says whether the allocator gives n bytes for
-- one of the uses that a call has for memory, each at most once in a call, so that it may give or refuse
-- each request as it likes. `sent` lists the writes of bytes that the write callback was called for. The
-- callbacks are the parameter `Io C`: functions of a context of any type, that may fail or stop short; a
-- read callback that stores more bytes than its array holds has undefined behaviour, and `write_null` is
-- what the write callback does with NULL. Integers are natural numbers with their wrap-around written
-- out, as on a 64-bit target; the shifts of `yamux_decode_header` are taken without their sign, and a
-- `size_t` becomes an `int` by its low 32 bits.
--
-- Loops. The loop of `yamux_stream_write` runs on fuel, one more than the bytes to write, of which each
-- round takes at least one; the walk to the end of the accept queue on as much fuel as there are
-- addresses, for the queued streams have different ones; the loop of `yamux_session_close` on one more
-- than the number of slots. The others are recursions on lists. Running out of fuel is `none`.
--
-- Runs. In a run the callbacks may fail at any call, and each call of the library has an allocator of
-- its own, so that each request for memory may fail, also for a size that was given before; the frames of
-- Session/EndToEnd are processed in the same way. The read callback stores at most the bytes asked for,
-- and no allocator gives a block of 2^63 bytes or more. `NextServable` is about the frame that comes
-- next: a PING without ACK has at most 8 bytes and finds a receive buffer of at least 12, a GO_AWAY of 4
-- bytes finds one of at least 4. Otherwise what they do is undefined, or is up to a write callback that
-- is called with NULL. `yamux_session_close`, `yamux_session_ping` and the port are outside of the runs.
--
-- Not modelled: debug output, the declarations of src/yamux_wrapper.h, which nothing implements, and
-- include/yamux_config.h. A freed session and freed contexts are not tracked.
pub mod Base
pub mod Protocol
pub mod Frame
pub mod Buffer
pub mod World
pub mod Table
pub mod AcceptQueue
pub mod Streams
pub mod Handlers
pub mod Session
pub mod Safety
pub mod Port
pub mod Examples
