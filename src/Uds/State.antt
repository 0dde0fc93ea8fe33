-- ===== src/Uds/State.antt =====
-- src/protocol/uds_service.h: the configuration, the fields and the small helpers of `UdsService`.
use esp32_vag_data_server.Prelude.{
  ℕ, Bool, true, false, ◌||◌, List, [], ◌∷◌, replicate, if◌then◌else◌,
}
use esp32_vag_data_server.Transport.{
  TransportStatus, DiagnosticTransport, is_idle, is_in_progress, is_complete,
}
use esp32_vag_data_server.Can.{Clock}
use esp32_vag_data_server.Prelude.{add64}

-- `UdsServiceStatus`.
pub data UdsServiceStatus : Type 0 where
  idle in_progress busy response_ready response_pending negative_response : UdsServiceStatus
  pending_limit_exceeded timeout invalid_response unexpected_response : UdsServiceStatus
  policy_denied invalid_request transport_failure : UdsServiceStatus

-- `UdsServiceConfig`.
pub record UdsServiceConfig : Type 0 where
  pub response_timeout_ms : ℕ
  pub response_pending_timeout_ms : ℕ
  pub max_pending_responses : ℕ

-- `UdsDtcRecord`.
pub record UdsDtcRecord : Type 0 where
  pub dtc : List ℕ
  pub status : ℕ

abbrev pub k_max_raw_data_length : ℕ
k_max_raw_data_length = 64

-- `(kMaxRawDataLength - 3) / 4`.
abbrev pub k_max_dtc_records : ℕ
k_max_dtc_records = 15

-- `State`.
pub data State : Type 0 where
  idle awaiting_transmit awaiting_response : State

-- `RequestKind`.
pub data RequestKind : Type 0 where
  read_data_by_identifier report_dtc_by_status_mask : RequestKind

-- The fields of `UdsService`; the guard's transport and the clock are parameters of the operations.
pub record Uds : Type 0 where
  pub config : UdsServiceConfig
  pub state : State
  pub request_kind : RequestKind
  pub status : UdsServiceStatus
  pub last_transport_status : TransportStatus
  pub requested_did : ℕ
  pub last_nrc : ℕ
  pub pending_response_count : ℕ
  pub response_deadline_ms : ℕ
  pub response : List ℕ
  pub raw_data : List ℕ
  pub raw_data_length : ℕ
  pub dtc_records : List UdsDtcRecord
  pub dtc_record_count : ℕ
  pub dtc_status_availability_mask : ℕ

abbrev pub empty_bytes : List ℕ
empty_bytes = replicate k_max_raw_data_length 0

abbrev pub empty_records : List UdsDtcRecord
empty_records = replicate k_max_dtc_records (record { dtc = 0 ∷ 0 ∷ 0 ∷ []; status = 0 })

-- The constructor.
unfoldable pub new : UdsServiceConfig → Uds
new config = record {
  config = config;
  state = State.idle;
  request_kind = read_data_by_identifier;
  status = UdsServiceStatus.idle;
  last_transport_status = TransportStatus.idle;
  requested_did = 0;
  last_nrc = 0;
  pending_response_count = 0;
  response_deadline_ms = 0;
  response = empty_bytes;
  raw_data = empty_bytes;
  raw_data_length = 0;
  dtc_records = empty_records;
  dtc_record_count = 0;
  dtc_status_availability_mask = 0;
}

abbrev pub is_request_active : State → Bool
is_request_active State.idle = false
is_request_active awaiting_transmit = true
is_request_active awaiting_response = true

abbrev pub is_awaiting_transmit : State → Bool
is_awaiting_transmit State.idle = false
is_awaiting_transmit awaiting_transmit = true
is_awaiting_transmit awaiting_response = false

abbrev pub is_report : RequestKind → Bool
is_report read_data_by_identifier = false
is_report report_dtc_by_status_mask = true

-- `isNonFailingPollStatus`.
unfoldable pub is_non_failing_poll_status : TransportStatus → Bool
is_non_failing_poll_status status = is_idle status || is_in_progress status || is_complete status

-- `clearResult`. The raw data stays in its buffer; its length is what counts.
unfoldable pub clear_result : Uds → Uds
clear_result u = record u {
  raw_data_length = 0;
  dtc_record_count = 0;
  dtc_status_availability_mask = 0;
  dtc_records = empty_records;
  last_nrc = 0;
  pending_response_count = 0;
}

module _ {T : Type 0} where
  -- `setStatus`.
  unfoldable pub set_status : UdsServiceStatus → Uds → T → UdsServiceStatus × Uds × T
  set_status status u t = (status, record u { status = status }, t)

  -- `finishWithoutTransport`.
  unfoldable pub finish_without_transport : UdsServiceStatus → Uds → T → UdsServiceStatus × Uds × T
  finish_without_transport status u t =
      (status, record u { state = State.idle; status = status }, t)

  -- `finish`: the message that a transport still holds for the request is discarded.
  unfoldable pub finish :
      DiagnosticTransport T → UdsServiceStatus → Uds → T → UdsServiceStatus × Uds × T
  finish transport status u t = (
    status,
    record u { state = State.idle; status = status },
    if is_request_active u.state then transport.discard_pending_message t else t,
  )

  -- `beginResponseWait`.
  unfoldable pub begin_response_wait : Clock T → ℕ → Uds → T → Uds × T
  begin_response_wait clock timeout_ms u t =
      let (now, t') = clock.now_ms t in
      (record u { state = awaiting_response; response_deadline_ms = add64 now timeout_ms }, t')
