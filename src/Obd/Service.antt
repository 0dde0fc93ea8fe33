-- ===== src/Obd/Service.antt =====
-- src/protocol/obd_service.h: requests, responses and `poll`.
use esp32_vag_data_server.Prelude.{
  ℕ, zero, suc, ◌+◌, ◌-◌, ◌*◌, ◌/◌, ◌%◌, ◌^◌, Bool, not, ◌||◌, ◌&&◌, List, [], ◌∷◌, ◌++◌, Option,
  none, some, leb, ltb, ◌==◌, if◌then◌else◌, length, get_or, drop, copy_n, write_at,
}
use esp32_vag_data_server.Can.{Clock}
use esp32_vag_data_server.Transport.{
  TransportStatus, Received, DiagnosticTransport, is_in_progress, is_complete, is_no_data,
}
use esp32_vag_data_server.Guard.{ReadOnlyStatus, ReadOnlyResult}
use esp32_vag_data_server.Guard
use esp32_vag_data_server.Obd.State.{
  ObdServiceStatus, ObdDtcRecord, Obd, awaiting_transmit, RequestKind, current_data, supported_pids,
  k_max_raw_data_length, k_vin_length, k_max_stored_dtc_records, k_mode_current_data,
  k_mode_vehicle_information, k_vin_pid, empty_dtcs, is_request_active, is_awaiting_transmit,
  is_stored_dtcs, expected_positive_service, is_supported_pid_block_base,
  is_non_failing_poll_status, clear_result, set_status, finish_without_transport, finish,
  begin_response_wait,
}

-- A record of two zero bytes is padding.
abbrev pub is_padding : List ℕ → ℕ → Bool
is_padding response offset =
    (get_or response offset 0 == 0) && (get_or response (offset + 1) 0 == 0)

abbrev pub dtc_at : List ℕ → ℕ → ObdDtcRecord
dtc_at response offset = record {
  first_byte = get_or response offset 0;
  second_byte = get_or response (offset + 1) 0;
}

-- The loop over `pairs` records from `offset` on: the records behind those that are parsed already, or
-- nothing if they are too many.
unfoldable pub parse_dtcs : ℕ → ℕ → List ℕ → List ObdDtcRecord → Option (List ObdDtcRecord)
parse_dtcs zero offset response parsed = some parsed
parse_dtcs (suc pairs) offset response parsed =
    let next : List ObdDtcRecord =
      if is_padding response offset then parsed else parsed ++ (dtc_at response offset ∷ []) in
    let rest = parse_dtcs pairs (offset + 2) response next in
    if not (is_padding response offset) && (length parsed == k_max_stored_dtc_records)
    then none
    else rest

-- The stored trouble codes, committed at once.
abbrev pub commit_dtcs : List ObdDtcRecord → Obd → Obd
commit_dtcs parsed u = record u {
  stored_dtcs = write_at empty_dtcs 0 parsed;
  stored_dtc_count = length parsed;
}

-- The four bytes of the response as one number; the operands of `|` share no bit.
abbrev pub bitmap : List ℕ → ℕ
bitmap response =
    get_or response 2 0 * 2 ^ 24
    + get_or response 3 0 * 2 ^ 16
    + get_or response 4 0 * 2 ^ 8
    + get_or response 5 0

-- The buffer that `receive` has filled.
abbrev pub filled : Option (List ℕ) → List ℕ → List ℕ
filled none response = response
filled (some buffer) response = buffer

module _ {T : Type 0} (transport : DiagnosticTransport T) (clock : Clock T) where
  -- The cases of the `switch` in `handleResponse`.
  unfoldable pub handle_current_data : ℕ → Obd → T → ObdServiceStatus × Obd × T
  handle_current_data size u t =
      let sized = record u { raw_data_length = size - 2 } in
      if ltb size 3
      then finish transport ObdServiceStatus.invalid_response u t
      else if ltb k_max_raw_data_length (size - 2)
      then finish transport ObdServiceStatus.invalid_response sized t
      else finish transport ObdServiceStatus.response_ready
          (record sized { raw_data = copy_n (drop 2 u.response) (size - 2) u.raw_data 0 }) t

  unfoldable pub handle_supported_pids : ℕ → Obd → T → ObdServiceStatus × Obd × T
  handle_supported_pids size u t =
      if not (size == 6)
      then finish transport ObdServiceStatus.invalid_response u t
      else finish transport ObdServiceStatus.response_ready
          (record u { supported_pid_bitmap = bitmap u.response }) t

  unfoldable pub handle_vin : ℕ → Obd → T → ObdServiceStatus × Obd × T
  handle_vin size u t =
      if not (size == 20) || not (get_or u.response 2 0 == 0x01)
      then finish transport ObdServiceStatus.invalid_response u t
      else finish transport ObdServiceStatus.response_ready
          (record u { vin = copy_n (drop 3 u.response) k_vin_length u.vin 0 }) t

  -- The end of the loop: too many records, or all of them.
  unfoldable pub finish_dtcs : Option (List ObdDtcRecord) → Obd → T → ObdServiceStatus × Obd × T
  finish_dtcs none u t = finish transport ObdServiceStatus.invalid_response u t
  finish_dtcs (some parsed) u t =
      finish transport ObdServiceStatus.response_ready (commit_dtcs parsed u) t

  unfoldable pub handle_stored_dtcs : ℕ → Obd → T → ObdServiceStatus × Obd × T
  handle_stored_dtcs size u t =
      if not ((size - 1) % 2 == 0)
      then finish transport ObdServiceStatus.invalid_response u t
      else finish_dtcs (parse_dtcs ((size - 1) / 2) 1 u.response []) u t

  -- The `switch`.
  unfoldable pub handle_kind : RequestKind → ℕ → Obd → T → ObdServiceStatus × Obd × T
  handle_kind RequestKind.none size u t = finish transport ObdServiceStatus.invalid_response u t
  handle_kind current_data size u t = handle_current_data size u t
  handle_kind supported_pids size u t = handle_supported_pids size u t
  handle_kind RequestKind.vin size u t = handle_vin size u t
  handle_kind RequestKind.stored_dtcs size u t = handle_stored_dtcs size u t

  -- `handleResponse`.
  unfoldable pub handle_response : ℕ → Obd → T → ObdServiceStatus × Obd × T
  handle_response size u t =
      if size == 0
      then set_status ObdServiceStatus.unexpected_response u t
      else if not (get_or u.response 0 0 == expected_positive_service u.request_kind)
      then set_status ObdServiceStatus.unexpected_response u t
      else if not (is_stored_dtcs u.request_kind)
          && (ltb size 2 || not (get_or u.response 1 0 == u.requested_pid))
      then set_status ObdServiceStatus.unexpected_response u t
      else handle_kind u.request_kind size u t

  -- The part of `poll` behind `receive`.
  unfoldable pub poll_received : Received → Obd → T → ObdServiceStatus × Obd × T
  poll_received received u t =
      let u' = record u {
        last_transport_status = received.status;
        response = filled received.payload u.response;
      } in
      if is_no_data received.status
      then set_status ObdServiceStatus.in_progress u' t
      else if not (is_complete received.status)
      then finish transport ObdServiceStatus.transport_failure u' t
      else handle_response received.length u' t

  -- The part of `poll` for a request whose response is awaited.
  unfoldable pub poll_response : TransportStatus → Obd → T → ObdServiceStatus × Obd × T
  poll_response poll_status u t =
      let (now, t') = clock.now_ms t in
      let (received, t'') = Guard.receive transport (some u.response) k_max_raw_data_length t' in
      if not (is_non_failing_poll_status poll_status)
      then finish transport ObdServiceStatus.transport_failure u t
      else if leb u.response_deadline_ms now
      then finish transport ObdServiceStatus.timeout u t'
      else poll_received received u t''

  -- The part of `poll` for a request that is still being transmitted.
  unfoldable pub poll_transmit : TransportStatus → Obd → T → ObdServiceStatus × Obd × T
  poll_transmit poll_status u t =
      let (u', t') = begin_response_wait clock u t in
      if is_in_progress poll_status
      then set_status ObdServiceStatus.in_progress u t
      else if is_complete poll_status
      then set_status ObdServiceStatus.in_progress u' t'
      else finish transport ObdServiceStatus.transport_failure u t

  -- `poll`.
  unfoldable pub poll : Obd → T → ObdServiceStatus × Obd × T
  poll u t =
      let (poll_status, t') = Guard.poll transport t in
      let u' = record u { last_transport_status = poll_status } in
      if not (is_request_active u.state)
      then (ObdServiceStatus.idle, u, t)
      else if is_awaiting_transmit u.state
      then poll_transmit poll_status u' t'
      else poll_response poll_status u' t'

  -- `beginTransport`.
  unfoldable pub begin_transport : ReadOnlyResult × T → Obd → ObdServiceStatus × Obd × T
  begin_transport (result, t) u =
      let u' = record u { last_transport_status = result.transport_status } in
      let (waiting, t') = begin_response_wait clock u' t in
      elim result.status [
        | ReadOnlyStatus.policy_denied ↦
            finish_without_transport ObdServiceStatus.policy_denied u' t
        | ReadOnlyStatus.invalid_request ↦
            finish_without_transport ObdServiceStatus.invalid_request u' t
        | ReadOnlyStatus.forwarded ↦
            if is_complete result.transport_status
            then set_status ObdServiceStatus.in_progress waiting t'
            else if is_in_progress result.transport_status
            then set_status ObdServiceStatus.in_progress (record u' { state = awaiting_transmit }) t
            else finish transport ObdServiceStatus.transport_failure u' t
      ]

  -- `prepareRequest` before the request `start`: a busy service or a zero timeout ends the call.
  unfoldable pub prepared :
      RequestKind → (Obd → T → ObdServiceStatus × Obd × T) → Obd → T → ObdServiceStatus × Obd × T
  prepared kind start u t =
      if is_request_active u.state
      then set_status ObdServiceStatus.busy u t
      else if u.config.response_timeout_ms == 0
      then finish_without_transport ObdServiceStatus.invalid_request u t
      else start (record (clear_result u) { request_kind = kind }) t

  -- `beginRequest`.
  unfoldable pub begin_request : ℕ → ℕ → RequestKind → Obd → T → ObdServiceStatus × Obd × T
  begin_request mode pid kind = prepared kind (λ u t.
      begin_transport
        (Guard.start_obd_single_pid transport
          (record { mode = mode; pid = some (pid ∷ []); pid_count = 1 }) t)
        (record u { requested_pid = pid }))

  -- `beginMode01Request`.
  abbrev pub begin_mode01_request : ℕ → RequestKind → Obd → T → ObdServiceStatus × Obd × T
  begin_mode01_request pid kind = begin_request k_mode_current_data pid kind

  -- `requestCurrentData`.
  unfoldable pub request_current_data : ℕ → Obd → T → ObdServiceStatus × Obd × T
  request_current_data pid = begin_mode01_request pid current_data

  -- `requestSupportedPids`.
  unfoldable pub request_supported_pids : ℕ → Obd → T → ObdServiceStatus × Obd × T
  request_supported_pids base_pid u t =
      if is_request_active u.state
      then set_status ObdServiceStatus.busy u t
      else if not (is_supported_pid_block_base base_pid)
      then finish_without_transport ObdServiceStatus.invalid_request u t
      else begin_mode01_request base_pid supported_pids u t

  -- `requestVin`.
  unfoldable pub request_vin : Obd → T → ObdServiceStatus × Obd × T
  request_vin = begin_request k_mode_vehicle_information k_vin_pid RequestKind.vin

  -- `requestStoredDtcs`.
  unfoldable pub request_stored_dtcs : Obd → T → ObdServiceStatus × Obd × T
  request_stored_dtcs =
      prepared RequestKind.stored_dtcs
        (λ u t. begin_transport (Guard.start_obd_stored_dtc_read transport t) u)
