-- ===== src/Uds/Service.antt =====
-- src/protocol/uds_service.h: requests, responses and `poll`.
use esp32_vag_data_server.Prelude.{
  ℕ, zero, suc, ◌+◌, ◌-◌, ◌*◌, ◌/◌, ◌%◌, not, ◌||◌, List, [], ◌∷◌, Option, none, some, leb, ltb,
  ◌==◌, if◌then◌else◌, u8, get_or, drop, copy_n, write_at,
}
use esp32_vag_data_server.Can.{Clock}
use esp32_vag_data_server.Transport.{
  TransportStatus, Received, DiagnosticTransport, is_in_progress, is_complete, is_no_data,
}
use esp32_vag_data_server.Guard.{ReadOnlyStatus, ReadOnlyResult}
use esp32_vag_data_server.Guard
use esp32_vag_data_server.Uds.State.{
  UdsServiceStatus, UdsDtcRecord, Uds, awaiting_transmit, RequestKind, read_data_by_identifier,
  report_dtc_by_status_mask, k_max_raw_data_length, k_max_dtc_records, empty_records,
  is_request_active, is_awaiting_transmit, is_report, is_non_failing_poll_status, clear_result,
  set_status, finish_without_transport, finish, begin_response_wait,
}

-- The loop of `handleDtcResponse`: `count` records from `offset` on.
unfoldable pub read_records : ℕ → ℕ → List ℕ → List UdsDtcRecord
read_records zero offset response = []
read_records (suc count) offset response =
    record {
      dtc =
          get_or response offset 0
          ∷ get_or response (offset + 1) 0
          ∷ get_or response (offset + 2) 0
          ∷ [];
      status = get_or response (offset + 3) 0;
    }
    ∷ read_records count (offset + 4) response

-- The caller-visible result of a report, committed at once.
abbrev pub commit_report : ℕ → Uds → Uds
commit_report count u = record u {
  dtc_records = write_at empty_records 0 (read_records count 3 u.response);
  dtc_record_count = count;
  dtc_status_availability_mask = get_or u.response 2 0;
}

-- The length that `handleResponse` stores before it is checked, and the copy behind the check.
abbrev pub commit_raw_data : ℕ → Uds → Uds
commit_raw_data size u = record u {
  raw_data = copy_n (drop 3 u.response) size u.raw_data 0;
  raw_data_length = size;
}

abbrev pub expected_service : RequestKind → ℕ
expected_service read_data_by_identifier = 0x22
expected_service report_dtc_by_status_mask = 0x19

-- The buffer that `receive` has filled.
abbrev pub filled : Option (List ℕ) → List ℕ → List ℕ
filled none response = response
filled (some buffer) response = buffer

module _ {T : Type 0} (transport : DiagnosticTransport T) (clock : Clock T) where
  -- `handleNegativeResponse`.
  unfoldable pub handle_negative_response : ℕ → Uds → T → UdsServiceStatus × Uds × T
  handle_negative_response size u t =
      let noted = record u { last_nrc = get_or u.response 2 0 } in
      let (waiting, t') =
        begin_response_wait clock u.config.response_pending_timeout_ms
          (record noted { pending_response_count = u8 (u.pending_response_count + 1) }) t in
      if not (size == 3)
      then finish transport UdsServiceStatus.invalid_response u t
      else if not (get_or u.response 1 0 == expected_service u.request_kind)
      then set_status UdsServiceStatus.unexpected_response u t
      else if not (get_or u.response 2 0 == 0x78)
      then finish transport UdsServiceStatus.negative_response noted t
      else if leb u.config.max_pending_responses u.pending_response_count
      then finish transport UdsServiceStatus.pending_limit_exceeded noted t
      else set_status UdsServiceStatus.response_pending waiting t'

  -- `handleDtcResponse`.
  unfoldable pub handle_dtc_response : ℕ → Uds → T → UdsServiceStatus × Uds × T
  handle_dtc_response size u t =
      if not (get_or u.response 0 0 == 0x59)
      then set_status UdsServiceStatus.unexpected_response u t
      else if ltb size 2
      then finish transport UdsServiceStatus.invalid_response u t
      else if not (get_or u.response 1 0 == 0x02)
      then set_status UdsServiceStatus.unexpected_response u t
      else if ltb size 3 || not ((size - 3) % 4 == 0)
      then finish transport UdsServiceStatus.invalid_response u t
      else if ltb k_max_dtc_records ((size - 3) / 4)
      then finish transport UdsServiceStatus.invalid_response u t
      else finish transport UdsServiceStatus.response_ready (commit_report ((size - 3) / 4) u) t

  -- The part of `handleResponse` for a data identifier.
  unfoldable pub handle_data_response : ℕ → Uds → T → UdsServiceStatus × Uds × T
  handle_data_response size u t =
      if not (get_or u.response 0 0 == 0x62)
      then set_status UdsServiceStatus.unexpected_response u t
      else if ltb size 3
      then finish transport UdsServiceStatus.invalid_response u t
      else if not (get_or u.response 1 0 * 256 + get_or u.response 2 0 == u.requested_did)
      then set_status UdsServiceStatus.unexpected_response u t
      else if size == 3
      then finish transport UdsServiceStatus.invalid_response u t
      else if ltb k_max_raw_data_length (size - 3)
      then finish transport UdsServiceStatus.invalid_response
          (record u { raw_data_length = size - 3 }) t
      else finish transport UdsServiceStatus.response_ready (commit_raw_data (size - 3) u) t

  -- `handleResponse`.
  unfoldable pub handle_response : ℕ → Uds → T → UdsServiceStatus × Uds × T
  handle_response size u t =
      if ltb k_max_raw_data_length size
      then finish transport UdsServiceStatus.invalid_response u t
      else if size == 0
      then if is_report u.request_kind
        then finish transport UdsServiceStatus.invalid_response u t
        else set_status UdsServiceStatus.unexpected_response u t
      else if get_or u.response 0 0 == 0x7F
      then handle_negative_response size u t
      else if is_report u.request_kind
      then handle_dtc_response size u t
      else handle_data_response size u t

  -- The part of `poll` behind `receive`.
  unfoldable pub poll_received : Received → Uds → T → UdsServiceStatus × Uds × T
  poll_received received u t =
      let u' = record u {
        last_transport_status = received.status;
        response = filled received.payload u.response;
      } in
      if is_no_data received.status
      then set_status UdsServiceStatus.in_progress u' t
      else if not (is_complete received.status)
      then finish transport UdsServiceStatus.transport_failure u' t
      else handle_response received.length u' t

  -- The part of `poll` for a request whose response is awaited.
  unfoldable pub poll_response : TransportStatus → Uds → T → UdsServiceStatus × Uds × T
  poll_response poll_status u t =
      let (now, t') = clock.now_ms t in
      let (received, t'') = Guard.receive transport (some u.response) k_max_raw_data_length t' in
      if not (is_non_failing_poll_status poll_status)
      then finish transport UdsServiceStatus.transport_failure u t
      else if leb u.response_deadline_ms now
      then finish transport UdsServiceStatus.timeout u t'
      else poll_received received u t''

  -- The part of `poll` for a request that is still being transmitted.
  unfoldable pub poll_transmit : TransportStatus → Uds → T → UdsServiceStatus × Uds × T
  poll_transmit poll_status u t =
      let (u', t') = begin_response_wait clock u.config.response_timeout_ms u t in
      if is_in_progress poll_status
      then set_status UdsServiceStatus.in_progress u t
      else if is_complete poll_status
      then set_status UdsServiceStatus.in_progress u' t'
      else finish transport UdsServiceStatus.transport_failure u t

  -- `poll`.
  unfoldable pub poll : Uds → T → UdsServiceStatus × Uds × T
  poll u t =
      let (poll_status, t') = Guard.poll transport t in
      let u' = record u { last_transport_status = poll_status } in
      if not (is_request_active u.state)
      then (UdsServiceStatus.idle, u, t)
      else if is_awaiting_transmit u.state
      then poll_transmit poll_status u' t'
      else poll_response poll_status u' t'

  -- `startGuardedRequest`.
  unfoldable pub start_guarded_request : ReadOnlyResult × T → Uds → UdsServiceStatus × Uds × T
  start_guarded_request (result, t) u =
      let u' = record u { last_transport_status = result.transport_status } in
      let (waiting, t') = begin_response_wait clock u.config.response_timeout_ms u' t in
      elim result.status [
        | ReadOnlyStatus.policy_denied ↦
            finish_without_transport UdsServiceStatus.policy_denied u' t
        | ReadOnlyStatus.invalid_request ↦
            finish_without_transport UdsServiceStatus.invalid_request u' t
        | ReadOnlyStatus.forwarded ↦
            if is_complete result.transport_status
            then set_status UdsServiceStatus.in_progress waiting t'
            else if is_in_progress result.transport_status
            then set_status UdsServiceStatus.in_progress (record u' { state = awaiting_transmit }) t
            else finish transport UdsServiceStatus.transport_failure u' t
      ]

  -- `prepareRequest` before the request `start`: a busy service or a zero timeout ends the call.
  unfoldable pub prepared :
      (Uds → T → UdsServiceStatus × Uds × T) → Uds → T → UdsServiceStatus × Uds × T
  prepared start u t =
      if is_request_active u.state
      then set_status UdsServiceStatus.busy u t
      else if u.config.response_timeout_ms == 0 || u.config.response_pending_timeout_ms == 0
      then finish_without_transport UdsServiceStatus.invalid_request u t
      else start (clear_result u) t

  -- `requestReadDataByIdentifier`.
  unfoldable pub request_read_data_by_identifier : ℕ → Uds → T → UdsServiceStatus × Uds × T
  request_read_data_by_identifier did = prepared (λ u t.
      start_guarded_request (Guard.start_uds_read_data_by_identifier transport did t)
        (record u { request_kind = read_data_by_identifier; requested_did = did }))

  -- `requestReportDtcByStatusMask`.
  unfoldable pub request_report_dtc_by_status_mask : ℕ → Uds → T → UdsServiceStatus × Uds × T
  request_report_dtc_by_status_mask status_mask = prepared (λ u t.
      start_guarded_request (Guard.start_uds_report_dtc_by_status_mask transport status_mask t)
        (record u { request_kind = report_dtc_by_status_mask }))
