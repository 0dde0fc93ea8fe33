-- ===== src/IsoTp/State.antt =====
-- src/protocol/isotp_transport.h: `IsoTpConfig` and the fields of `IsoTpTransport`. The fields named
-- rx and tx are two records, since no operation mixes them; `can_` and `clock_` are parameters of the
-- operations.
use esp32_vag_data_server.Prelude.{
  ℕ, Bool, true, false, ◌&&◌, ◌||◌, Option, none, some, List, leb, ltb, if◌then◌else◌, replicate,
  length, length-replicate, ◌≡◌,
}
use esp32_vag_data_server.Can.{CanFrameFormat, CanFrame, zero_payload, is_valid}

-- `IsoTpConfig`.
pub record IsoTpConfig : Type 0 where
  pub tx_id : ℕ
  pub rx_id : ℕ
  pub frame_format : CanFrameFormat
  pub max_payload : ℕ
  pub flow_control_timeout_ms : ℕ
  pub consecutive_frame_timeout_ms : ℕ
  pub max_wait_frames : ℕ
  pub rx_block_size : ℕ
  pub rx_st_min : ℕ

-- `kMaxPayload`.
abbrev pub k_max_payload : ℕ
k_max_payload = 4095

pub data RxState : Type 0 where
  idle receiving : RxState

pub data TxState : Type 0 where
  idle wait_flow_control sending : TxState

pub record Rx : Type 0 where
  pub payload : List ℕ
  pub state : RxState
  pub expected_length : ℕ
  pub offset : ℕ
  pub message_length : ℕ
  pub expected_sequence : ℕ
  pub block_count : ℕ
  pub deadline_ms : ℕ
  pub message_ready : Bool

pub record Tx : Type 0 where
  pub payload : List ℕ
  pub state : TxState
  pub length : ℕ
  pub offset : ℕ
  pub sequence : ℕ
  pub block_size : ℕ
  pub block_remaining : ℕ
  pub wait_count : ℕ
  pub separation_ms : ℕ
  pub deadline_ms : ℕ
  pub next_send_ms : ℕ
  pub last_cf_ms : ℕ
  pub has_last_cf : Bool

pub record IsoTp : Type 0 where
  pub config : IsoTpConfig
  pub rx : Rx
  pub tx : Tx

abbrev pub is_rx_idle : RxState → Bool
is_rx_idle RxState.idle = true
is_rx_idle receiving = false

abbrev pub is_receiving : RxState → Bool
is_receiving RxState.idle = false
is_receiving receiving = true

abbrev pub is_tx_idle : TxState → Bool
is_tx_idle TxState.idle = true
is_tx_idle wait_flow_control = false
is_tx_idle sending = false

abbrev pub is_waiting : TxState → Bool
is_waiting TxState.idle = false
is_waiting wait_flow_control = true
is_waiting sending = false

abbrev pub is_sending : TxState → Bool
is_sending TxState.idle = false
is_sending wait_flow_control = false
is_sending sending = true

-- `isStMinCodeValid`.
abbrev pub is_st_min_code_valid : ℕ → Bool
is_st_min_code_valid value = leb value 0x7F || (leb 0xF1 value && leb value 0xF9)

-- `decodeStMinMs`: codes for 100 to 900 microseconds are rounded up to 1 ms.
unfoldable pub decode_st_min_ms : ℕ → Option ℕ
decode_st_min_ms value =
    if leb value 0x7F then some value else if leb 0xF1 value && leb value 0xF9 then some 1 else none

-- `makeTxFrame`.
abbrev pub make_tx_frame : IsoTpConfig → CanFrame
make_tx_frame config = record {
  id = config.tx_id;
  format = config.frame_format;
  length = 0;
  payload = zero_payload;
  timestamp = 0;
}

-- `isConfigValid`.
unfoldable pub is_config_valid : IsoTpConfig → Bool
is_config_valid config =
    is_valid (make_tx_frame config)
    && is_valid (record (make_tx_frame config) { id = config.rx_id })
    && ltb 0 config.max_payload
    && leb config.max_payload k_max_payload
    && ltb 0 config.flow_control_timeout_ms
    && ltb 0 config.consecutive_frame_timeout_ms
    && is_st_min_code_valid config.rx_st_min

-- `resetRxAssembly`. A message that is ready stays.
unfoldable pub reset_rx_assembly : Rx → Rx
reset_rx_assembly rx = record rx {
  state = RxState.idle;
  expected_length = 0;
  offset = 0;
  expected_sequence = 1;
  block_count = 0;
  deadline_ms = 0;
}

-- `resetTx`. The bytes of the buffer stay.
unfoldable pub reset_tx : Tx → Tx
reset_tx tx = record tx {
  state = TxState.idle;
  length = 0;
  offset = 0;
  sequence = 1;
  block_size = 0;
  block_remaining = 0;
  wait_count = 0;
  separation_ms = 0;
  deadline_ms = 0;
  next_send_ms = 0;
  last_cf_ms = 0;
  has_last_cf = false;
}

-- The two buffers as they are created.
unfoldable pub empty_buffer : List ℕ
empty_buffer = replicate k_max_payload 0

pub length-empty_buffer : length empty_buffer ≡ k_max_payload
unfolding empty_buffer
length-empty_buffer = length-replicate {A = ℕ} k_max_payload 0

-- The constructor: the initial values of the fields.
unfoldable pub new : IsoTpConfig → IsoTp
new config = record {
  config = config;
  rx = record {
    payload = empty_buffer;
    state = RxState.idle;
    expected_length = 0;
    offset = 0;
    message_length = 0;
    expected_sequence = 1;
    block_count = 0;
    deadline_ms = 0;
    message_ready = false;
  };
  tx = record {
    payload = empty_buffer;
    state = TxState.idle;
    length = 0;
    offset = 0;
    sequence = 1;
    block_size = 0;
    block_remaining = 0;
    wait_count = 0;
    separation_ms = 0;
    deadline_ms = 0;
    next_send_ms = 0;
    last_cf_ms = 0;
    has_last_cf = false;
  };
}

-- A receive assembly whose deadline has passed, and likewise a wait for flow control.
abbrev pub rx_expired : Rx → ℕ → Bool
rx_expired rx now = is_receiving rx.state && leb rx.deadline_ms now

abbrev pub tx_expired : Tx → ℕ → Bool
tx_expired tx now = is_waiting tx.state && leb tx.deadline_ms now
