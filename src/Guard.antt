-- ===== src/Guard.antt =====
-- src/protocol/read_only_guard.h: the gate between the diagnostic services and a transport. It builds
-- every request itself.
pub mod Policy
mod Tests
use esp32_vag_data_server.Prelude.{
  ℕ, ◌/◌, ◌%◌, not, ◌&&◌, Option, none, some, List, [], ◌∷◌, ◌==◌, if◌then◌else◌, length, get_or,
}
use esp32_vag_data_server.Transport.{TransportStatus, Received, DiagnosticTransport}

-- `ReadOnlyStatus`.
pub data ReadOnlyStatus : Type 0 where
  forwarded policy_denied invalid_request : ReadOnlyStatus

-- `ReadOnlyResult`.
pub record ReadOnlyResult : Type 0 where
  pub status : ReadOnlyStatus
  pub transport_status : TransportStatus

-- `ObdSinglePidRequest`.
pub record ObdSinglePidRequest : Type 0 where
  pub mode : ℕ
  pub pid : Option (List ℕ)
  pub pid_count : ℕ

abbrev pub k_mode_current_data : ℕ
k_mode_current_data = 0x01

abbrev pub k_mode_stored_dtc_read : ℕ
k_mode_stored_dtc_read = 0x03

abbrev pub k_mode_vehicle_information : ℕ
k_mode_vehicle_information = 0x09

abbrev pub k_uds_read_data_by_identifier : ℕ
k_uds_read_data_by_identifier = 0x22

abbrev pub k_uds_read_dtc_information : ℕ
k_uds_read_dtc_information = 0x19

module _ {T : Type 0} (transport : DiagnosticTransport T) where
  -- `transport_.startSend(payload, sizeof(payload))`.
  unfoldable pub forward : List ℕ → T → ReadOnlyResult × T
  forward payload t =
      let (status, t') = transport.start_send (some payload) (length payload) t in
      (record { status = ReadOnlyStatus.forwarded; transport_status = status }, t')

  -- A request that does not reach the transport.
  abbrev pub refused : ReadOnlyStatus → T → ReadOnlyResult × T
  refused status t = (record { status = status; transport_status = TransportStatus.idle }, t)

  -- `startObdSinglePid`.
  unfoldable pub start_obd_single_pid : ObdSinglePidRequest → T → ReadOnlyResult × T
  start_obd_single_pid request t = elim request.pid [
    | none ↦ refused ReadOnlyStatus.invalid_request t
    | some pid ↦
        if not (request.pid_count == 1)
        then refused ReadOnlyStatus.invalid_request t
        else if not (request.mode == k_mode_current_data)
            && not (request.mode == k_mode_vehicle_information)
        then refused ReadOnlyStatus.policy_denied t
        else forward (request.mode ∷ get_or pid 0 0 ∷ []) t
  ]

  -- `startObdStoredDtcRead`.
  unfoldable pub start_obd_stored_dtc_read : T → ReadOnlyResult × T
  start_obd_stored_dtc_read t = forward (k_mode_stored_dtc_read ∷ []) t

  -- `startUdsReadDataByIdentifier`.
  unfoldable pub start_uds_read_data_by_identifier : ℕ → T → ReadOnlyResult × T
  start_uds_read_data_by_identifier did t =
      forward (k_uds_read_data_by_identifier ∷ did / 256 % 256 ∷ did % 256 ∷ []) t

  -- `startUdsReportDtcByStatusMask`.
  unfoldable pub start_uds_report_dtc_by_status_mask : ℕ → T → ReadOnlyResult × T
  start_uds_report_dtc_by_status_mask status_mask t =
      forward (k_uds_read_dtc_information ∷ 0x02 ∷ status_mask ∷ []) t

  -- `poll`, `receive` and `discardPendingMessage` pass the call on.
  abbrev pub poll : T → TransportStatus × T
  poll = transport.poll

  abbrev pub receive : Option (List ℕ) → ℕ → T → Received × T
  receive = transport.receive

  abbrev pub discard_pending_message : T → T
  discard_pending_message = transport.discard_pending_message
