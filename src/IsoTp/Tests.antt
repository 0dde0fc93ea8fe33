-- ===== src/IsoTp/Tests.antt =====
-- src/protocol/isotp_transport.h: small exchanges, and the theorems at concrete inputs.
use esp32_vag_data_server.Prelude.{
  ℕ, ◌+◌, ◌<◌, ◌≤◌, ◌≡◌, ◌⊎◌, refl, true, false, List, [], ◌∷◌, arith, some, write_at, replicate,
  sub64, ◌/◌, ◌%◌, ◌-◌,
}
use esp32_vag_data_server.Can.{CanFrame, CanFrameFormat, CanHal, CanStatus, Clock}
use esp32_vag_data_server.Transport.{TransportStatus}
use esp32_vag_data_server.IsoTp.State.{
  IsoTpConfig, IsoTp, Rx, Tx, RxState, TxState, k_max_payload, is_config_valid, is_tx_idle,
  is_receiving, is_waiting, is_sending, empty_buffer, length-empty_buffer, new,
}
use esp32_vag_data_server.IsoTp.Receiver.{copy_length}
use esp32_vag_data_server.IsoTp.Sender.{next_length}
use esp32_vag_data_server.IsoTp.Frames.{flow_control_frame}
use esp32_vag_data_server.IsoTp.Node.{receive, poll_at, on_can_frame}
use esp32_vag_data_server.IsoTp.Calls.{Call, sends, polls, hears, perform_all}
use esp32_vag_data_server.IsoTp.Invariant.{Inv, new-Inv}
use esp32_vag_data_server.IsoTp.Bounds.{
  perform_all-new-Inv, perform_all-in_bounds, perform_all-segmented,
}
use esp32_vag_data_server.IsoTp.Segments.{segments, data_frame, consecutive_frames}
use esp32_vag_data_server.IsoTp.Assembly.{deliver, Hears}
use esp32_vag_data_server.IsoTp.Delivery.{receive-deliver}
use esp32_vag_data_server.IsoTp.Ends.{IsFree}
use esp32_vag_data_server.IsoTp.Recorder.{recording, beside}
use esp32_vag_data_server.IsoTp.Transfer.{transmit-segments, transfer_lem}
use esp32_vag_data_server.IsoTp.Opening.{CanSend, Clears, transmit}
use esp32_vag_data_server.IsoTp.FlowControl.{accept_all, accept_all-block, poll_at-paced}
use esp32_vag_data_server.IsoTp.Refusals.{
  deliver-sequence_error, receive_all, overflows, receive-retry,
}

-- A driver that accepts every frame, and a clock that stands at 100 ms.
abbrev can : CanHal (Unit {0})
can = record { send = λ frame w. (CanStatus.ok, w) }

abbrev clock : Clock (Unit {0})
clock = record { now_ms = λ w. (100, w) }

abbrev tester : IsoTpConfig
tester = record {
  tx_id = 0x7E0;
  rx_id = 0x7E8;
  frame_format = CanFrameFormat.standard;
  max_payload = 4095;
  flow_control_timeout_ms = 1000;
  consecutive_frame_timeout_ms = 1000;
  max_wait_frames = 3;
  rx_block_size = 0;
  rx_st_min = 0;
}

abbrev ecu : IsoTpConfig
ecu = record tester { tx_id = 0x7E8; rx_id = 0x7E0 }

abbrev message : List ℕ
message = 1 ∷ 2 ∷ 3 ∷ 4 ∷ 5 ∷ 6 ∷ 7 ∷ 8 ∷ 9 ∷ 10 ∷ 11 ∷ 12 ∷ 13 ∷ 14 ∷ []

abbrev room : List ℕ
room = replicate 16 0

segments_test :
    segments tester message
    ≡ data_frame tester (0x10 ∷ 14 ∷ 1 ∷ 2 ∷ 3 ∷ 4 ∷ 5 ∷ 6 ∷ [])
      ∷ data_frame tester (0x21 ∷ 7 ∷ 8 ∷ 9 ∷ 10 ∷ 11 ∷ 12 ∷ 13 ∷ [])
      ∷ data_frame tester (0x22 ∷ 14 ∷ [])
      ∷ []
unfolding consecutive_frames
segments_test = refl

tester-CanSend : CanSend (new tester)
unfolding new is_config_valid
tester-CanSend = record { valid = refl; not_receiving = refl; idle = refl }

ecu-IsFree : IsFree (new ecu)
unfolding new
ecu-IsFree = record { no_assembly = refl; no_message = refl }

ecu-Hears : Hears tester (new ecu)
unfolding new is_config_valid
ecu-Hears = record { valid = refl; same_id = refl; same_format = refl; not_waiting = refl }

ecu-Clears : Clears ecu (new tester)
unfolding new
ecu-Clears = record { same_id = refl; same_format = refl; no_blocks = refl; no_gaps = refl }

receive-deliver_example :
    let out = deliver can clock TransportStatus.idle (segments tester message) (new ecu) tt in
    let (received, s') = receive (some room) 16 out.1 in
    (out.0 ≡ TransportStatus.message_ready)
    × (received.status ≡ TransportStatus.complete)
    × (received.length ≡ 14)
    × (received.payload ≡ some (write_at room 0 message))
    × IsFree s'
    × (s'.tx ≡ (new ecu).tx)
unfolding new
receive-deliver_example =
    receive-deliver can clock (λ f w. refl) tester 100 message room 16 tt (λ w. omega arith)
      (omega arith) ecu-Hears ecu-IsFree (new-Inv ecu) (omega arith) (omega arith) (omega arith)

transmit-segments_example :
    let (status, s', (log, _)) =
      transmit (recording can) (beside clock) ecu message (new tester) ([], tt) in
    (status ≡ TransportStatus.complete)
    × (log ≡ segments tester message)
    × (is_tx_idle s'.tx.state ≡ true)
    × (s'.rx ≡ (new tester).rx)
unfolding new
transmit-segments_example =
    transmit-segments can clock (λ f w. refl) 100 (λ w. refl) ecu message tt tester-CanSend
      (new-Inv tester) ecu-Clears (omega arith) (omega arith) (omega arith)

transfer_lem_example :
    let (sent, _, (log, _)) =
      transmit (recording can) (beside clock) ecu message (new tester) ([], tt) in
    let heard = deliver can clock TransportStatus.idle log (new ecu) tt in
    let (received, _) = receive (some room) 16 heard.1 in
    (sent ≡ TransportStatus.complete)
    × (heard.0 ≡ TransportStatus.message_ready)
    × (received.status ≡ TransportStatus.complete)
    × (received.length ≡ 14)
    × (received.payload ≡ some (write_at room 0 message))
unfolding new
transfer_lem_example =
    transfer_lem can clock can clock (λ f w. refl) (λ f w. refl) 100 100 (λ w. refl) ecu message
      room 16 tt tt tester-CanSend (new-Inv tester) ecu-Clears ecu-Hears ecu-IsFree (new-Inv ecu)
      (λ w. omega arith) (omega arith) (omega arith) (omega arith) (omega arith) (omega arith)
      (omega arith)

-- A sequence of calls that leaves a message half sent and another half received.
abbrev calls : List Call
calls =
    sends (some message) 14
    ∷ hears (flow_control_frame ecu 0)
    ∷ polls
    ∷ hears (data_frame ecu (0x10 ∷ 9 ∷ 1 ∷ 2 ∷ 3 ∷ 4 ∷ 5 ∷ 6 ∷ []))
    ∷ []

perform_all-new-Inv_example : Inv (perform_all can clock calls (new tester) tt).0
unfolding flow_control_frame
perform_all-new-Inv_example = perform_all-new-Inv can clock tester calls tt (omega arith)

perform_all-in_bounds_example :
    let s = (perform_all can clock calls (new tester) tt).0 in
    let frame = data_frame ecu (0x21 ∷ 7 ∷ 8 ∷ 9 ∷ []) in
    (s.rx.offset + copy_length frame s.rx ≤ k_max_payload)
    × (s.rx.message_length ≤ k_max_payload)
    × (s.tx.offset + next_length s.tx ≤ k_max_payload)
    × (sub64 s.rx.expected_length s.rx.offset + s.rx.offset ≡ s.rx.expected_length)
    × (sub64 s.tx.length s.tx.offset + s.tx.offset ≡ s.tx.length)
unfolding flow_control_frame
perform_all-in_bounds_example =
    perform_all-in_bounds can clock tester calls (data_frame ecu (0x21 ∷ 7 ∷ 8 ∷ 9 ∷ [])) tt
      (omega arith)

perform_all-segmented_example :
    let tx = (perform_all can clock calls (new tester) tt).0.tx in
    (is_tx_idle tx.state ≡ true)
    ⊎ ((tx.offset % 7 ≡ 6)
        × (6 ≤ tx.offset)
        × (tx.offset < tx.length)
        × (tx.sequence ≡ ((tx.offset - 6) / 7 + 1) % 16))
unfolding flow_control_frame
perform_all-segmented_example = perform_all-segmented can clock tester calls tt (omega arith)

-- A sender of 40 bytes that waits for its first flow control frame, and the same in a block of three
-- frames, the first of which was accepted at 90 ms.
abbrev waiting_tx : Tx
waiting_tx = record {
  payload = empty_buffer;
  state = TxState.wait_flow_control;
  length = 40;
  offset = 6;
  sequence = 1;
  block_size = 0;
  block_remaining = 0;
  wait_count = 0;
  separation_ms = 0;
  deadline_ms = 1100;
  next_send_ms = 0;
  last_cf_ms = 0;
  has_last_cf = false;
}

abbrev sending_tx : Tx
sending_tx = record waiting_tx {
  state = TxState.sending;
  offset = 13;
  sequence = 2;
  block_size = 3;
  block_remaining = 2;
  separation_ms = 20;
  next_send_ms = 110;
  last_cf_ms = 90;
  has_last_cf = true;
}

-- A receiver that has 6 bytes of 20 and expects sequence number 1.
abbrev receiving_rx : Rx
receiving_rx = record {
  payload = empty_buffer;
  state = RxState.receiving;
  expected_length = 20;
  offset = 6;
  message_length = 0;
  expected_sequence = 1;
  block_count = 0;
  deadline_ms = 1100;
  message_ready = false;
}

abbrev busy : IsoTp
busy = record { config = tester; rx = receiving_rx; tx = sending_tx }

busy-Inv : Inv busy
busy-Inv = ground (arith, length-empty_buffer)

abbrev wait_frame : CanFrame
wait_frame = data_frame ecu (0x31 ∷ 0 ∷ 0 ∷ [])

accept_all-block_example :
    let tx' = accept_all tester (110 ∷ 130 ∷ []) sending_tx in
    (tx'.offset ≡ 27)
    × (tx'.length ≡ 40)
    × (is_sending tx'.state ≡ false)
    × (is_waiting tx'.state ≡ true)
accept_all-block_example =
    accept_all-block tester (110 ∷ 130 ∷ []) sending_tx refl (omega arith) (omega arith)
      (omega arith) (omega arith) (omega arith) (omega arith)

poll_at-paced_example :
    ((poll_at can clock busy 105 tt).2 ≡ tt) × ((poll_at can clock busy 105 tt).1.tx ≡ sending_tx)
poll_at-paced_example = poll_at-paced can clock 105 tt busy-Inv refl refl (omega arith)

abbrev late : CanFrame
late = data_frame ecu (0x22 ∷ 1 ∷ 2 ∷ 3 ∷ [])

deliver-sequence_error_example :
    let (result, s', w') = on_can_frame can clock busy late tt in
    let rx' = (deliver can clock result (late ∷ []) s' w').1.rx in
    (result ≡ TransportStatus.sequence_error)
    × (s'.tx ≡ sending_tx)
    × (rx'.message_ready ≡ false)
    × (is_receiving rx'.state ≡ false)
unfolding is_config_valid
deliver-sequence_error_example =
    deliver-sequence_error can clock late (late ∷ []) busy tt busy-Inv (refl, refl, refl, refl) refl
      (omega arith) refl (omega arith) refl refl (refl, tt)

abbrev holding : IsoTp
holding = record busy {
  rx = record receiving_rx {
    payload = 9 ∷ 8 ∷ 7 ∷ [];
    state = RxState.idle;
    message_length = 2;
    message_ready = true;
  };
}

receive-retry_example :
    let (refused, s') = receive_all ((0 ∷ [], 1) ∷ ([], 0) ∷ []) holding in
    let (received, s'') = receive (some (0 ∷ 0 ∷ 0 ∷ [])) 3 s' in
    (refused ≡ overflows holding ((0 ∷ [], 1) ∷ ([], 0) ∷ []))
    × (s' ≡ holding)
    × (received.status ≡ TransportStatus.complete)
    × (received.length ≡ 2)
    × (received.payload ≡ some (9 ∷ 8 ∷ 0 ∷ []))
    × (s''.rx.message_ready ≡ false)
receive-retry_example =
    receive-retry ((0 ∷ [], 1) ∷ ([], 0) ∷ []) (0 ∷ 0 ∷ 0 ∷ []) 3 holding refl
      (omega arith, (omega arith, tt)) (omega arith)
