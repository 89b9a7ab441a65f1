-- ===== src/Ts/Packet.antt =====
-- The constants and the state of src/ts.c, from src/ts.h.
use mu_mu_dvb.Prelude.{replicate, ℕ, Bool, true, false, List}

-- `TS_PACKET_SIZE` (src/mumudvb.h)
abbrev pub ts_packet_size : ℕ
ts_packet_size = 188

abbrev pub max_ts_size : ℕ
max_ts_size = 4096

abbrev pub max_full_packets : ℕ
max_full_packets = 15

abbrev pub full_buffer_size : ℕ
full_buffer_size = 8192

-- `packet_status_t`
pub data Status : Type 0 where
  empty partial_header started valid : Status

abbrev pub is_partial_header : Status → Bool
is_partial_header partial_header = true
is_partial_header _ = false

abbrev pub is_started : Status → Bool
is_started started = true
is_started _ = false

-- `mumudvb_ts_packet_t`. The arrays are lists of their fixed lengths; a cell is read as an
-- `unsigned char`, so modulo 256. The mutex is not part of the state.
pub record TsPacket : Type 0 where
  pub data_full : List ℕ
  pub len_full : ℕ
  pub full_number : ℕ
  pub full_lengths : List ℕ
  pub full_buffer_len : ℕ
  pub buffer_full : List ℕ
  pub data_partial : List ℕ
  pub len_partial : ℕ
  pub expected_len_partial : ℕ
  pub status_partial : Status
  pub pid : ℕ
  pub cc : ℕ

-- The three `start_flag` values.
pub data StartFlag : Type 0 where
  no_start start_ts start_section : StartFlag

abbrev pub is_start_section : StartFlag → Bool
is_start_section start_section = true
is_start_section _ = false

abbrev pub is_no_start : StartFlag → Bool
is_no_start no_start = true
is_no_start _ = false

-- The state as it is allocated, `memset (…, 0, sizeof( mumudvb_ts_packet_t))` (src/rewrite.c).
abbrev pub cleared_packet : TsPacket
cleared_packet = record {
  data_full = replicate max_ts_size 0;
  len_full = 0;
  full_number = 0;
  full_lengths = replicate max_full_packets 0;
  full_buffer_len = 0;
  buffer_full = replicate full_buffer_size 0;
  data_partial = replicate max_ts_size 0;
  len_partial = 0;
  expected_len_partial = 0;
  status_partial = empty;
  pid = 0;
  cc = 0;
}
