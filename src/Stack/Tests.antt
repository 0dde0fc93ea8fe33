-- ===== src/Stack/Tests.antt =====
-- src/protocol/uds_service.h over src/protocol/isotp_transport.h: the theorems at concrete inputs.
use esp32_vag_data_server.Prelude.{◌≡◌, ◌≢◌, ◌⊎◌, refl, List, [], ◌∷◌, arith, All}
use esp32_vag_data_server.Can.{CanFrame, standard, CanStatus, CanHal, Clock}
use esp32_vag_data_server.IsoTp.State.{IsoTpConfig, is_config_valid, new}
use esp32_vag_data_server.IsoTp.Node.{iso_tp_transport}
use esp32_vag_data_server.IsoTp.Recorder.{recording, beside}
use esp32_vag_data_server.Uds.State.{
  Uds, UdsServiceConfig, UdsServiceStatus, State, awaiting_response,
}
use esp32_vag_data_server.Uds.State as UdsState
use esp32_vag_data_server.Uds.Service.{request_read_data_by_identifier}
use esp32_vag_data_server.Uds.Safety.{reads_data, polls}
use esp32_vag_data_server.Stack.{beside_transport, Event, calls, hears, run}
use esp32_vag_data_server.Stack.Permitted.{IsPermitted}
use esp32_vag_data_server.Stack.Bus.{run-IsPermitted}
use esp32_vag_data_server.Stack.Request.{did_frame, request-did_frame}

abbrev can : CanHal (Unit {0})
can = record { send = λ frame w. (CanStatus.ok, w) }

abbrev clock : Clock (Unit {0})
clock = record { now_ms = λ w. (100, w) }

abbrev config : IsoTpConfig
config = record {
  tx_id = 0x7E0;
  rx_id = 0x7E8;
  frame_format = standard;
  max_payload = 4095;
  flow_control_timeout_ms = 1000;
  consecutive_frame_timeout_ms = 1000;
  max_wait_frames = 3;
  rx_block_size = 0;
  rx_st_min = 0;
}

abbrev service_config : UdsServiceConfig
service_config = record {
  response_timeout_ms = 1000;
  response_pending_timeout_ms = 1000;
  max_pending_responses = 3;
}

-- 62 F1 90 01 02, in one frame.
abbrev answer : CanFrame
answer = record {
  id = 0x7E8;
  format = standard;
  length = 8;
  payload = 5 ∷ 0x62 ∷ 0xF1 ∷ 0x90 ∷ 1 ∷ 2 ∷ 0 ∷ 0 ∷ [];
  timestamp = 0;
}

abbrev exchange : List Event
exchange = calls (reads_data 0xF190) ∷ hears answer ∷ calls polls ∷ []

run-IsPermitted_example :
    let (_, (_, (log, _))) =
      run
        (recording can)
        (beside clock)
        exchange
        (UdsState.new service_config)
        (new config, ([], tt)) in
    All (IsPermitted config) log
run-IsPermitted_example = run-IsPermitted can clock config service_config exchange tt

request-did_frame_example :
    let (status, u, (s, (log, _))) =
      request_read_data_by_identifier
        (iso_tp_transport (recording can) (beside clock))
        (beside_transport (beside clock))
        0xF190
        (UdsState.new service_config)
        (new config, ([], tt)) in
    (log ≡ did_frame config 0xF190 ∷ [])
    × (s ≡ new config)
    × (((CanStatus.ok ≡ CanStatus.ok)
          × (status ≡ UdsServiceStatus.in_progress)
          × (u.state ≡ awaiting_response))
        ⊎ ((CanStatus.ok ≢ CanStatus.ok)
            × (status ≡ UdsServiceStatus.transport_failure)
            × (u.state ≡ State.idle)))
unfolding is_config_valid new UdsState.new
request-did_frame_example =
    request-did_frame can clock 0xF190 (UdsState.new service_config) {s = new config} tt refl refl
      (omega arith) (omega arith) refl (omega arith) (omega arith)
