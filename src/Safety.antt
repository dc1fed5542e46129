-- ===== src/Safety.antt =====
-- What holds of a session between calls (src/yamux_internal.h): its table, its accept queue, its
-- buffers and its streams are in order, so that no call leaves the behaviour that C defines.
pub mod RecvBufs
pub mod Acks
pub mod Emptied
pub mod Writes
pub mod Closing
pub mod Replies
pub mod Total
pub mod Keeps
pub mod Runs
pub mod Transfers
pub mod Opens
pub mod Process
pub mod Updates
pub mod Syns
pub mod Tables
pub mod Commands
pub mod Data
pub mod Buffers
pub mod Lists
pub mod Waiting
pub mod Queueing
use tiny_yamux.Base.{ℕ, ◌^◌, ◌<◌, ◌≤◌, ◌≡◌, ◌⊎◌, Bool, true, Option, none, some, List, length}
use tiny_yamux.Frame.{IsBytes}
use tiny_yamux.Buffer.{Buffer}
use tiny_yamux.Buffer.Queue.{Represents}
use tiny_yamux.World.{Purpose, Io, Ptr, Stream, World, zero_buffer}
use tiny_yamux.World.Laws.{At}
use tiny_yamux.Table.Lookup.{IsTable}
use tiny_yamux.AcceptQueue.Fifo.{IsQueue}
use tiny_yamux.Handlers.RecvBuf.{HasRecvBuf}

-- What the callback `read` promises: it stores bytes, and no more than it was asked for.
abbrev pub IsReader : {C : Type 0} → Io C → Type 0
IsReader {C} io =
    (c : C) (n : ℕ) (bytes : List ℕ)
    → (io.read c n).0 ≡ some bytes
    → (length bytes ≤ n) × IsBytes bytes

-- What the allocator promises: no block is larger than half of the address space.
abbrev pub IsBounded : (ℕ → Bool) → Type 0
IsBounded grants = (n : ℕ) → grants n ≡ true → n < 2 ^ 63

abbrev pub IsAllocator : (Purpose → ℕ → Bool) → Type 0
IsAllocator grants = (purpose : Purpose) → IsBounded (grants purpose)

-- A buffer that is in use, or that `yamux_buffer_free` has left.
pub record IsBuffer (b : Buffer) : Type 0 where
  pub kept : ((q : List ℕ) × Represents b q) ⊎ (b ≡ zero_buffer)
  pub size_fits : b.size < 2 ^ 63

pub record IsSound (st : Stream) : Type 0 where
  pub buffer : IsBuffer st.recvbuf
  pub send_fits : st.send_window < 2 ^ 32
  pub recv_fits : st.recv_window < 2 ^ 32

-- The session in order. Addresses from `fresh` on hold no stream.
pub record InOrder {C : Type 0} (w : World C) : Type 0 where
  pub reader : IsReader w.session.io
  pub allocator : IsAllocator w.grants
  pub table : IsTable w.heap w.session
  pub waiting : List Ptr
  pub queue : IsQueue w waiting
  pub below : (p : Ptr) (st : Stream) → At w.heap p st → p < w.fresh
  pub sound : (p : Ptr) (st : Stream) → At w.heap p st → IsSound st
  pub recv_buf : HasRecvBuf w.session
  pub window_fits : w.session.config.max_stream_window_size < 2 ^ 32
