-- ===== src/IsoTp/Receiver.antt =====
-- src/protocol/isotp_transport.h, the receiving side: `receive`, `discardPendingMessage`,
-- `handleSingleFrame`, `handleFirstFrame`, `handleConsecutiveFrame` and `sendFlowControl`.
use esp32_vag_data_server.Prelude.{
  ℕ, ◌+◌, ◌-◌, ◌*◌, true, false, not, ◌&&◌, ◌||◌, Option, none, some, List, leb, ltb, ◌==◌,
  if◌then◌else◌, u8, add64, sub64, low_nibble, copy_n, drop, get_or, min,
}
use esp32_vag_data_server.Can.{CanFrame, CanHal, classic_can_max_payload}
use esp32_vag_data_server.Transport.{TransportStatus, Received, is_complete}
use esp32_vag_data_server.IsoTp.State.{
  IsoTpConfig, Rx, RxState, k_max_payload, is_rx_idle, is_receiving, reset_rx_assembly,
}
use esp32_vag_data_server.IsoTp.Frames.{send_frame, flow_control_frame}

-- `discardPendingMessage`.
unfoldable pub discard_pending : Rx → Rx
discard_pending rx = record rx { message_ready = false; message_length = 0 }

-- `receive`: a message that does not fit the caller's buffer stays pending.
unfoldable pub receive_into : Option (List ℕ) → ℕ → Rx → Received × Rx
unfolding discard_pending
receive_into payload capacity rx =
    if not rx.message_ready then (refused TransportStatus.no_data, rx) else elim payload [
      | none ↦ (refused TransportStatus.overflow, rx)
      | some buffer ↦
          if ltb capacity rx.message_length then (refused TransportStatus.overflow, rx) else (
            record {
              status = TransportStatus.complete;
              length = rx.message_length;
              payload = some (copy_n rx.payload rx.message_length buffer 0);
            },
            discard_pending rx,
          )
    ]
  where
    refused : TransportStatus → Received
    refused status = record { status = status; length = rx.message_length; payload = payload }

-- `handleSingleFrame`.
unfoldable pub handle_single_frame : IsoTpConfig → CanFrame → Rx → TransportStatus × Rx
handle_single_frame config frame rx =
    let length = low_nibble (get_or frame.payload 0 0) in
    if not (is_rx_idle rx.state) || rx.message_ready
    then (TransportStatus.busy, rx)
    else if length == 0
        || ltb 7 length
        || ltb frame.length (length + 1)
        || ltb config.max_payload length
    then (TransportStatus.invalid_frame, rx)
    else (
      TransportStatus.message_ready,
      record rx {
        payload = copy_n (drop 1 frame.payload) length rx.payload 0;
        message_length = length;
        message_ready = true;
      },
    )

-- `declaredLength` of `handleFirstFrame`: the operands of `|` share no bit.
abbrev pub declared_length : CanFrame → ℕ
declared_length frame = low_nibble (get_or frame.payload 0 0) * 256 + get_or frame.payload 1 0

-- The assembly that `handleFirstFrame` begins.
unfoldable pub begin_assembly : IsoTpConfig → CanFrame → ℕ → Rx → Rx
begin_assembly config frame now rx =
    let declared = declared_length frame in
    let offset = min (frame.length - 2) declared in
    record rx {
      expected_length = declared;
      offset = offset;
      payload = copy_n (drop 2 frame.payload) offset rx.payload 0;
      expected_sequence = 1;
      block_count = 0;
      state = RxState.receiving;
      deadline_ms = add64 now config.consecutive_frame_timeout_ms;
    }

-- The bytes that `handleConsecutiveFrame` takes from a frame.
abbrev pub copy_length : CanFrame → Rx → ℕ
copy_length frame rx = min (frame.length - 1) (sub64 rx.expected_length rx.offset)

-- `rxOffset_`, the sequence and the block count after the copy of `handleConsecutiveFrame`.
unfoldable pub store_consecutive : CanFrame → Rx → Rx
store_consecutive frame rx = record rx {
  payload = copy_n (drop 1 frame.payload) (copy_length frame rx) rx.payload rx.offset;
  offset = rx.offset + copy_length frame rx;
  expected_sequence = low_nibble (low_nibble (get_or frame.payload 0 0) + 1);
  block_count = u8 (rx.block_count + 1);
}

-- The end of `handleConsecutiveFrame` on the last frame of a message.
unfoldable pub finish_assembly : Rx → Rx
unfolding reset_rx_assembly
finish_assembly rx =
    reset_rx_assembly (record rx { message_length = rx.expected_length; message_ready = true })

-- `rxBlockCount_` reset before a flow control frame.
abbrev pub next_block : IsoTpConfig → ℕ → Rx → Rx
next_block config now rx = record rx {
  block_count = 0;
  deadline_ms = add64 now config.consecutive_frame_timeout_ms;
}

module _ {W : Type 0} (can : CanHal W) where
  -- `sendFlowControl`.
  unfoldable pub send_flow_control : IsoTpConfig → ℕ → W → TransportStatus × W
  send_flow_control config flow_status w = send_frame can (flow_control_frame config flow_status) w

  -- A flow control frame "continue to send"; if it is not accepted the assembly is given up.
  unfoldable pub continue_to_send : IsoTpConfig → Rx → W → TransportStatus × Rx × W
  continue_to_send config rx w =
      let (status, w') = send_flow_control config 0x0 w in
      if is_complete status
      then (TransportStatus.in_progress, rx, w')
      else (status, reset_rx_assembly rx, w')

  -- `handleFirstFrame`.
  unfoldable pub handle_first_frame : IsoTpConfig → CanFrame → ℕ → Rx → W → TransportStatus × Rx × W
  handle_first_frame config frame now rx w =
      let (refusal, w') = send_flow_control config 0x2 w in
      if not (is_rx_idle rx.state) || rx.message_ready
      then (TransportStatus.busy, rx, w)
      else if not (frame.length == classic_can_max_payload)
      then (TransportStatus.invalid_frame, rx, w)
      else if leb (declared_length frame) 7 || ltb k_max_payload (declared_length frame)
      then (TransportStatus.invalid_frame, rx, w)
      else if ltb config.max_payload (declared_length frame)
      then (if is_complete refusal then TransportStatus.overflow else refusal, rx, w')
      else continue_to_send config (begin_assembly config frame now rx) w

  -- The part of `handleConsecutiveFrame` behind the copy.
  unfoldable pub after_copy : IsoTpConfig → ℕ → Rx → W → TransportStatus × Rx × W
  after_copy config now rx w =
      if rx.offset == rx.expected_length
      then (TransportStatus.message_ready, finish_assembly rx, w)
      else if not (config.rx_block_size == 0) && leb config.rx_block_size rx.block_count
      then continue_to_send config (next_block config now rx) w
      else (
        TransportStatus.in_progress,
        record rx { deadline_ms = add64 now config.consecutive_frame_timeout_ms },
        w,
      )

  -- `handleConsecutiveFrame`.
  unfoldable pub handle_consecutive_frame :
      IsoTpConfig → CanFrame → ℕ → Rx → W → TransportStatus × Rx × W
  handle_consecutive_frame config frame now rx w =
      if not (is_receiving rx.state)
      then (TransportStatus.unexpected_frame, rx, w)
      else if ltb frame.length 2
      then (TransportStatus.invalid_frame, reset_rx_assembly rx, w)
      else if not (low_nibble (get_or frame.payload 0 0) == rx.expected_sequence)
      then (TransportStatus.sequence_error, reset_rx_assembly rx, w)
      else after_copy config now (store_consecutive frame rx) w
