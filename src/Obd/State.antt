-- ===== src/Obd/State.antt =====
-- src/protocol/obd_service.h: the configuration, the fields and the small helpers of `ObdService`.
use esp32_vag_data_server.Prelude.{
  ℕ, ◌%◌, Bool, true, false, ◌||◌, ◌&&◌, List, replicate, if◌then◌else◌, add64, leb, ◌==◌,
}
use esp32_vag_data_server.Transport.{
  TransportStatus, DiagnosticTransport, is_idle, is_in_progress, is_complete,
}
use esp32_vag_data_server.Can.{Clock}

-- `ObdServiceStatus`.
pub data ObdServiceStatus : Type 0 where
  idle in_progress busy response_ready timeout invalid_response unexpected_response :
      ObdServiceStatus
  policy_denied invalid_request transport_failure : ObdServiceStatus

-- `ObdServiceConfig`.
pub record ObdServiceConfig : Type 0 where
  pub response_timeout_ms : ℕ

-- `ObdDtcRecord`.
pub record ObdDtcRecord : Type 0 where
  pub first_byte : ℕ
  pub second_byte : ℕ

abbrev pub k_max_raw_data_length : ℕ
k_max_raw_data_length = 64

abbrev pub k_vin_length : ℕ
k_vin_length = 17

abbrev pub k_max_stored_dtc_records : ℕ
k_max_stored_dtc_records = 16

abbrev pub k_mode_current_data : ℕ
k_mode_current_data = 0x01

abbrev pub k_mode_vehicle_information : ℕ
k_mode_vehicle_information = 0x09

abbrev pub k_vin_pid : ℕ
k_vin_pid = 0x02

-- `State`.
pub data State : Type 0 where
  idle awaiting_transmit awaiting_response : State

-- `RequestKind`.
pub data RequestKind : Type 0 where
  none current_data supported_pids vin stored_dtcs : RequestKind

-- The fields of `ObdService`; the guard's transport and the clock are parameters of the operations.
pub record Obd : Type 0 where
  pub config : ObdServiceConfig
  pub state : State
  pub request_kind : RequestKind
  pub status : ObdServiceStatus
  pub last_transport_status : TransportStatus
  pub requested_pid : ℕ
  pub response_deadline_ms : ℕ
  pub response : List ℕ
  pub raw_data : List ℕ
  pub raw_data_length : ℕ
  pub supported_pid_bitmap : ℕ
  pub vin : List ℕ
  pub stored_dtcs : List ObdDtcRecord
  pub stored_dtc_count : ℕ

abbrev pub empty_bytes : List ℕ
empty_bytes = replicate k_max_raw_data_length 0

abbrev pub empty_vin : List ℕ
empty_vin = replicate k_vin_length 0

abbrev pub empty_dtcs : List ObdDtcRecord
empty_dtcs = replicate k_max_stored_dtc_records (record { first_byte = 0; second_byte = 0 })

-- The constructor.
unfoldable pub new : ObdServiceConfig → Obd
new config = record {
  config = config;
  state = State.idle;
  request_kind = RequestKind.none;
  status = ObdServiceStatus.idle;
  last_transport_status = TransportStatus.idle;
  requested_pid = 0;
  response_deadline_ms = 0;
  response = empty_bytes;
  raw_data = empty_bytes;
  raw_data_length = 0;
  supported_pid_bitmap = 0;
  vin = empty_vin;
  stored_dtcs = empty_dtcs;
  stored_dtc_count = 0;
}

abbrev pub is_request_active : State → Bool
is_request_active State.idle = false
is_request_active awaiting_transmit = true
is_request_active awaiting_response = true

abbrev pub is_awaiting_transmit : State → Bool
is_awaiting_transmit State.idle = false
is_awaiting_transmit awaiting_transmit = true
is_awaiting_transmit awaiting_response = false

abbrev pub is_stored_dtcs : RequestKind → Bool
is_stored_dtcs RequestKind.stored_dtcs = true
is_stored_dtcs _ = false

-- `expectedPositiveService`.
abbrev pub expected_positive_service : RequestKind → ℕ
expected_positive_service RequestKind.vin = 0x49
expected_positive_service RequestKind.stored_dtcs = 0x43
expected_positive_service current_data = 0x41
expected_positive_service supported_pids = 0x41
expected_positive_service RequestKind.none = 0x41

-- `isSupportedPidBlockBase`.
unfoldable pub is_supported_pid_block_base : ℕ → Bool
is_supported_pid_block_base pid = leb pid 0xC0 && (pid % 0x20 == 0)

-- `isNonFailingPollStatus`.
unfoldable pub is_non_failing_poll_status : TransportStatus → Bool
is_non_failing_poll_status status = is_idle status || is_in_progress status || is_complete status

-- `clearResult`. The raw data stays in its buffer; its length is what counts.
unfoldable pub clear_result : Obd → Obd
clear_result u = record u {
  raw_data_length = 0;
  supported_pid_bitmap = 0;
  vin = empty_vin;
  stored_dtcs = empty_dtcs;
  stored_dtc_count = 0;
}

module _ {T : Type 0} where
  -- `setStatus`.
  unfoldable pub set_status : ObdServiceStatus → Obd → T → ObdServiceStatus × Obd × T
  set_status status u t = (status, record u { status = status }, t)

  -- `finishWithoutTransport`.
  unfoldable pub finish_without_transport : ObdServiceStatus → Obd → T → ObdServiceStatus × Obd × T
  finish_without_transport status u t =
      (status, record u { state = State.idle; request_kind = RequestKind.none; status = status }, t)

  -- `finish`: the message that a transport still holds for the request is discarded.
  unfoldable pub finish :
      DiagnosticTransport T → ObdServiceStatus → Obd → T → ObdServiceStatus × Obd × T
  finish transport status u t = (
    status,
    record u { state = State.idle; request_kind = RequestKind.none; status = status },
    if is_request_active u.state then transport.discard_pending_message t else t,
  )

  -- `beginResponseWait`.
  unfoldable pub begin_response_wait : Clock T → Obd → T → Obd × T
  begin_response_wait clock u t =
      let (now, t') = clock.now_ms t in
      (
        record u {
          state = awaiting_response;
          response_deadline_ms = add64 now u.config.response_timeout_ms;
        },
        t',
      )
