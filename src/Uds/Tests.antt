-- ===== src/Uds/Tests.antt =====
-- src/protocol/uds_service.h: the theorems at concrete inputs.
use esp32_vag_data_server.Prelude.{
  ◌+◌, ◌≤◌, ◌≡◌, ◌⊎◌, refl, false, [], ◌∷◌, map, arith, some, take, All,
}
use esp32_vag_data_server.Can.{Clock}
use esp32_vag_data_server.Transport.{
  TransportStatus, DiagnosticTransport, is_complete, is_idle, is_no_data, is_in_progress,
}
use esp32_vag_data_server.Guard.{start_uds_read_data_by_identifier, forward}
use esp32_vag_data_server.Guard.Policy.{ReadOnlyRequest, logged, ticking}
use esp32_vag_data_server.Uds.State.{
  UdsServiceConfig, UdsServiceStatus, Uds, State, awaiting_response, read_data_by_identifier,
  report_dtc_by_status_mask, empty_bytes, empty_records, new, is_request_active,
  is_non_failing_poll_status, clear_result, begin_response_wait, set_status, finish,
}
use esp32_vag_data_server.Uds.Service.{
  handle_response, handle_data_response, poll, poll_response, poll_received, prepared,
  start_guarded_request, request_read_data_by_identifier,
}
use esp32_vag_data_server.Uds.Safety.{
  reads_data, reports_dtcs, polls, perform, perform_all, perform_all-read_only,
}
use esp32_vag_data_server.Uds.Reports.{as_record, handle_response-report}
use esp32_vag_data_server.Uds.Answers.{is_waiting, handle_response-answer, handle_response-data}
use esp32_vag_data_server.Uds.Progress.{poll-deadline, count_pending, count_pending-le}

-- A transport that accepts every request and always holds the response 62 F1 90 01.
abbrev transport : DiagnosticTransport (Unit {0})
transport = record {
  start_send = λ payload size t. (TransportStatus.complete, t);
  poll = λ t. (TransportStatus.idle, t);
  receive = λ payload capacity t. (
    record {
      status = TransportStatus.complete;
      length = 4;
      payload = some (0x62 ∷ 0xF1 ∷ 0x90 ∷ 1 ∷ []);
    },
    t,
  );
  discard_pending_message = λ t. t;
}

abbrev clock : Clock (Unit {0})
clock = record { now_ms = λ t. (100, t) }

abbrev config : UdsServiceConfig
config = record {
  response_timeout_ms = 1000;
  response_pending_timeout_ms = 1000;
  max_pending_responses = 3;
}

-- A service that waits for the identifier 0xF190, and one that waits for a report.
abbrev asking : Uds
asking = record {
  config = config;
  state = awaiting_response;
  request_kind = read_data_by_identifier;
  status = UdsServiceStatus.in_progress;
  last_transport_status = TransportStatus.complete;
  requested_did = 0xF190;
  last_nrc = 0;
  pending_response_count = 1;
  response_deadline_ms = 90;
  response = empty_bytes;
  raw_data = empty_bytes;
  raw_data_length = 0;
  dtc_records = empty_records;
  dtc_record_count = 0;
  dtc_status_availability_mask = 0;
}

abbrev reporting : Uds
reporting = record asking { request_kind = report_dtc_by_status_mask }

read_test :
    let (u, t) = perform_all transport clock (reads_data 0xF190 ∷ polls ∷ []) (new config) tt in
    (u.status ≡ UdsServiceStatus.response_ready)
    × (u.raw_data_length ≡ 1)
    × (take 1 u.raw_data ≡ 1 ∷ [])
unfolding is_in_progress perform_all perform request_read_data_by_identifier prepared
    start_guarded_request new clear_result begin_response_wait set_status poll poll_response
    poll_received handle_response handle_data_response finish is_complete is_idle is_no_data
    is_non_failing_poll_status start_uds_read_data_by_identifier forward
read_test = (refl, refl, refl)

perform_all-read_only_example :
    All ReadOnlyRequest
      (perform_all
        (logged transport)
        (ticking clock)
        (reads_data 0xF190 ∷ polls ∷ reports_dtcs 8 ∷ [])
        (new config)
        ([], tt)).1.0
perform_all-read_only_example =
    perform_all-read_only transport clock config (reads_data 0xF190 ∷ polls ∷ reports_dtcs 8 ∷ [])
      tt

handle_response-report_example :
    let (status, u', _) =
      handle_response transport clock 11
        (record reporting {
          response = 0x59 ∷ 0x02 ∷ 0xFF ∷ 1 ∷ 2 ∷ 3 ∷ 8 ∷ 4 ∷ 5 ∷ 6 ∷ 9 ∷ 0 ∷ [];
        })
        tt in
    (status ≡ UdsServiceStatus.response_ready)
    × (u'.state ≡ State.idle)
    × (u'.dtc_record_count ≡ 2)
    × (u'.dtc_status_availability_mask ≡ 0xFF)
    × (take 2 u'.dtc_records ≡ map as_record ((1, 2, 3, 8) ∷ (4, 5, 6, 9) ∷ []))
handle_response-report_example =
    handle_response-report transport clock ((1, 2, 3, 8) ∷ (4, 5, 6, 9) ∷ []) 0xFF (0 ∷ [])
      reporting tt refl (omega arith)

handle_response-answer_example :
    let (status, u', _) =
      handle_response transport clock 3
        (record asking { response = 0x7F ∷ 0x22 ∷ 0x78 ∷ 0 ∷ [] })
        tt in
    (status ≡ UdsServiceStatus.response_pending)
    × (u'.status ≡ status)
    × (is_request_active u'.state ≡ is_waiting status)
handle_response-answer_example =
    handle_response-answer transport clock (0x7F ∷ 0x22 ∷ 0x78 ∷ []) (0 ∷ []) asking tt refl refl
      (omega arith)

handle_response-data_example :
    let (status, u', _) =
      handle_response transport clock 5
        (record asking { response = 0x62 ∷ 0xF1 ∷ 0x90 ∷ 7 ∷ 8 ∷ 0 ∷ [] })
        tt in
    (status ≡ UdsServiceStatus.response_ready)
    × (u'.raw_data_length ≡ 2)
    × (take 2 u'.raw_data ≡ 7 ∷ 8 ∷ [])
handle_response-data_example =
    handle_response-data transport clock 0xF1 0x90 7 (8 ∷ []) (0 ∷ []) asking tt refl refl
      (omega arith) (omega arith)

poll-deadline_example :
    let (status, u', t') = poll transport clock asking tt in
    (u'.state ≡ State.idle)
    × (((status ≡ UdsServiceStatus.timeout) × (t' ≡ tt))
        ⊎ ((status ≡ UdsServiceStatus.transport_failure)
            × (is_non_failing_poll_status TransportStatus.idle ≡ false)
            × (t' ≡ tt)))
poll-deadline_example = poll-deadline transport clock asking tt refl (omega arith)

count_pending-le_example : 1 + count_pending transport clock 5 asking tt ≤ 3
count_pending-le_example = count_pending-le transport clock 5 asking tt (omega arith) (omega arith)
