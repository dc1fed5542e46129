-- ===== src/Protocol.antt =====
-- The protocol's constants and shared types (include/yamux.h, src/yamux_defs.h).
use tiny_yamux.Base.{ℕ, ◌+◌, ◌-◌, ◌*◌, ◌/◌, ◌%◌, ◌^◌, Bool, not, List, [], ◌∷◌, ◌==◌, bit_and}

-- `yamux_result_t`.
pub data Result : Type 0 where
  ok err_invalid err_nomem err_io err_closed err_timeout err_protocol err_internal : Result
  err_invalid_stream err_would_block : Result

-- `YAMUX_OK` or not, as the callers test it.
abbrev pub is_ok : Result → Bool
is_ok ok = Bool.true
is_ok _ = Bool.false

-- `yamux_stream_state_t`.
pub data StreamState : Type 0 where
  idle syn_sent syn_recv established fin_sent fin_recv closed : StreamState

-- The enumeration's numbers.
abbrev pub state_code : StreamState → ℕ
state_code idle = 0
state_code syn_sent = 1
state_code syn_recv = 2
state_code established = 3
state_code fin_sent = 4
state_code fin_recv = 5
state_code closed = 6

-- `yamux_header_t`: 8, 8, 16, 32 and 32 bits.
pub record Header : Type 0 where
  pub version : ℕ
  pub type : ℕ
  pub flags : ℕ
  pub stream_id : ℕ
  pub length : ℕ

-- `yamux_config_t`.
pub record Config : Type 0 where
  pub accept_backlog : ℕ
  pub enable_keepalive : ℕ
  pub connection_write_timeout : ℕ
  pub keepalive_interval : ℕ
  pub max_stream_window_size : ℕ

abbrev pub proto_version : ℕ
proto_version = 0

abbrev pub type_data : ℕ
type_data = 0

abbrev pub type_window_update : ℕ
type_window_update = 1

abbrev pub type_ping : ℕ
type_ping = 2

abbrev pub type_go_away : ℕ
type_go_away = 3

abbrev pub flag_syn : ℕ
flag_syn = 1

abbrev pub flag_ack : ℕ
flag_ack = 2

abbrev pub flag_fin : ℕ
flag_fin = 4

abbrev pub flag_rst : ℕ
flag_rst = 8

abbrev pub header_size : ℕ
header_size = 12

abbrev pub default_window_size : ℕ
default_window_size = 256 * 1024

abbrev pub window_update_threshold : ℕ
window_update_threshold = default_window_size / 2

abbrev pub initial_buffer_size : ℕ
initial_buffer_size = 4096

abbrev pub max_data_frame_size : ℕ
max_data_frame_size = 16384

abbrev pub error_normal : ℕ
error_normal = 0

abbrev pub error_protocol : ℕ
error_protocol = 1

abbrev pub error_internal : ℕ
error_internal = 2

-- `header->flags & flag`, as a condition.
unfoldable pub has : ℕ → ℕ → Bool
has flags flag = not (bit_and flags flag == 0)

-- uint32_t and size_t arithmetic.
abbrev pub add_u32 : ℕ → ℕ → ℕ
add_u32 a b = (a + b) % 2 ^ 32

abbrev pub sub_u32 : ℕ → ℕ → ℕ
sub_u32 a b = (a + 2 ^ 32 - b) % 2 ^ 32

abbrev pub add_size : ℕ → ℕ → ℕ
add_size a b = (a + b) % 2 ^ 64

abbrev pub sub_size : ℕ → ℕ → ℕ
sub_size a b = (a + 2 ^ 64 - b) % 2 ^ 64

-- The four bytes of a 32-bit value, big-endian: by shifts and masks, or by `htonl` and `memcpy`.
unfoldable pub be32 : ℕ → List ℕ
be32 v = v / 2 ^ 24 % 256 ∷ v / 2 ^ 16 % 256 ∷ v / 2 ^ 8 % 256 ∷ v % 256 ∷ []
