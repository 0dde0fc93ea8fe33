-- ===== src/Transport.antt =====
-- src/protocol/diagnostic_transport.h: the boundary between the diagnostic services and a transport.
use esp32_vag_data_server.Prelude.{ℕ, Bool, true, false, List, Option}

-- `TransportStatus`.
pub data TransportStatus : Type 0 where
  idle in_progress complete message_ready no_data ignored busy invalid_argument : TransportStatus
  invalid_frame unexpected_frame overflow sequence_error timeout : TransportStatus
  wait_limit_exceeded flow_control_overflow tx_busy tx_failed bus_off : TransportStatus
  not_initialized can_error : TransportStatus

-- `status == TransportStatus::Complete`, and so on: the tests that the source makes.
unfoldable pub is_complete : TransportStatus → Bool
is_complete complete = true
is_complete _ = false

unfoldable pub is_in_progress : TransportStatus → Bool
is_in_progress in_progress = true
is_in_progress _ = false

unfoldable pub is_idle : TransportStatus → Bool
is_idle idle = true
is_idle _ = false

unfoldable pub is_no_data : TransportStatus → Bool
is_no_data no_data = true
is_no_data _ = false

unfoldable pub is_tx_busy : TransportStatus → Bool
is_tx_busy tx_busy = true
is_tx_busy _ = false

-- What `receive` leaves: its status, and the caller's `length` and buffer.
pub record Received : Type 0 where
  pub status : TransportStatus
  pub length : ℕ
  pub payload : Option (List ℕ)

-- `DiagnosticTransport`, over the state `T` that its calls change. A pointer is an option.
pub record DiagnosticTransport (T : Type 0) : Type 0 where
  pub start_send : Option (List ℕ) → ℕ → T → TransportStatus × T
  pub poll : T → TransportStatus × T
  pub receive : Option (List ℕ) → ℕ → T → Received × T
  pub discard_pending_message : T → T
