-- ===== src/Obd/Tests.antt =====
-- src/protocol/obd_service.h: the theorems at concrete inputs.
use esp32_vag_data_server.Prelude.{
  ℕ, ◌<◌, ◌≤◌, ◌≡◌, ◌⊎◌, refl, false, List, [], ◌∷◌, ◌++◌, arith, length, some, take, All,
  replicate,
}
use esp32_vag_data_server.Can.{Clock}
use esp32_vag_data_server.Transport.{
  TransportStatus, DiagnosticTransport, is_complete, is_idle, is_no_data, is_in_progress,
}
use esp32_vag_data_server.Guard.{start_obd_single_pid, forward}
use esp32_vag_data_server.Guard.Policy.{ReadOnlyRequest, logged, ticking}
use esp32_vag_data_server.Obd.State.{
  ObdServiceConfig, ObdServiceStatus, Obd, State, awaiting_response, RequestKind, current_data,
  supported_pids, empty_bytes, empty_vin, empty_dtcs, new, is_non_failing_poll_status, clear_result,
  begin_response_wait, set_status, finish,
}
use esp32_vag_data_server.Obd.Service.{
  handle_response, handle_kind, handle_vin, poll, poll_response, poll_received, prepared,
  begin_transport, begin_request, request_vin,
}
use esp32_vag_data_server.Obd.Safety.{
  reads_current_data, reads_vin, reads_stored_dtcs, polls, perform, perform_all, perform_all-logged,
}
use esp32_vag_data_server.Obd.Results.{poll-overdue}
use esp32_vag_data_server.Obd.StoredDtcs.{body, codes, handle_response-stored_dtcs}

-- WVWZZZ6RZDY123456.
abbrev a_vin : List ℕ
a_vin =
    0x57 ∷ 0x56 ∷ 0x57 ∷ 0x5A ∷ 0x5A ∷ 0x5A ∷ 0x36 ∷ 0x52 ∷ 0x5A ∷ 0x44 ∷ 0x59 ∷ 0x31 ∷ 0x32 ∷ 0x33
    ∷ 0x34 ∷ 0x35 ∷ 0x36 ∷ []

-- A transport that accepts every request and always holds the response with that VIN.
abbrev transport : DiagnosticTransport (Unit {0})
transport = record {
  start_send = λ payload size t. (TransportStatus.complete, t);
  poll = λ t. (TransportStatus.idle, t);
  receive = λ payload capacity t. (
    record {
      status = TransportStatus.complete;
      length = 20;
      payload = some ((0x49 ∷ 0x02 ∷ 0x01 ∷ a_vin) ++ replicate 44 0);
    },
    t,
  );
  discard_pending_message = λ t. t;
}

abbrev clock : Clock (Unit {0})
clock = record { now_ms = λ t. (100, t) }

abbrev config : ObdServiceConfig
config = record { response_timeout_ms = 1000 }

-- A service that waits for the engine speed, with an old deadline.
abbrev asking : Obd
asking = record {
  config = config;
  state = awaiting_response;
  request_kind = current_data;
  status = ObdServiceStatus.in_progress;
  last_transport_status = TransportStatus.complete;
  requested_pid = 0x0C;
  response_deadline_ms = 90;
  response = empty_bytes;
  raw_data = empty_bytes;
  raw_data_length = 0;
  supported_pid_bitmap = 0;
  vin = empty_vin;
  stored_dtcs = empty_dtcs;
  stored_dtc_count = 0;
}

abbrev mapping : Obd
mapping = record asking { request_kind = supported_pids; requested_pid = 0x20 }

abbrev naming : Obd
naming = record asking { request_kind = RequestKind.vin; requested_pid = 0x02 }

abbrev listing : Obd
listing = record asking { request_kind = RequestKind.stored_dtcs }

vin_test :
    let (u, t) = perform_all transport clock (reads_vin ∷ polls ∷ []) (new config) tt in
    (u.status ≡ ObdServiceStatus.response_ready) × (u.vin ≡ a_vin)
unfolding is_in_progress perform_all perform request_vin begin_request prepared begin_transport new
    clear_result begin_response_wait set_status poll poll_response poll_received handle_response
    handle_kind handle_vin finish is_complete is_idle is_no_data is_non_failing_poll_status
    start_obd_single_pid forward
vin_test = (refl, refl)

perform_all-logged_example :
    All ReadOnlyRequest
      (perform_all
        (logged transport)
        (ticking clock)
        (reads_current_data 0x0C ∷ polls ∷ reads_stored_dtcs ∷ polls ∷ [])
        (new config)
        ([], tt)).1.0
perform_all-logged_example =
    perform_all-logged transport clock config
      (reads_current_data 0x0C ∷ polls ∷ reads_stored_dtcs ∷ polls ∷ []) tt

poll-overdue_example :
    let (status, u, t) = poll transport clock asking tt in
    (u.state ≡ State.idle)
    × (((status ≡ ObdServiceStatus.timeout) × (t ≡ tt))
        ⊎ ((status ≡ ObdServiceStatus.transport_failure)
            × (is_non_failing_poll_status TransportStatus.idle ≡ false)
            × (t ≡ tt)))
poll-overdue_example = poll-overdue transport clock asking tt refl (omega arith)

-- Two trouble codes with padding between and behind them.
abbrev two_codes : List (ℕ × ℕ)
two_codes = (0x01, 0x33) ∷ (0, 0) ∷ (0xC1, 0) ∷ (0, 0) ∷ []

handle_response-stored_dtcs_example :
    let (status, u, t) =
      handle_response transport clock 9
        (record listing { response = (0x43 ∷ body two_codes) ++ (9 ∷ []) })
        tt in
    (u.state ≡ State.idle)
    × (u.status ≡ status)
    × (t ≡ tt)
    × (((length (codes two_codes) ≤ 16)
          × (status ≡ ObdServiceStatus.response_ready)
          × (u.stored_dtc_count ≡ length (codes two_codes))
          × (take (length (codes two_codes)) u.stored_dtcs ≡ codes two_codes))
        ⊎ ((16 < length (codes two_codes))
            × (status ≡ ObdServiceStatus.invalid_response)
            × (u.stored_dtc_count ≡ listing.stored_dtc_count)
            × (u.stored_dtcs ≡ listing.stored_dtcs)))
handle_response-stored_dtcs_example =
    handle_response-stored_dtcs transport clock two_codes (9 ∷ []) listing tt refl refl
