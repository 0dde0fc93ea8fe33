-- ===== src/IsoTp/Sender.antt =====
-- src/protocol/isotp_transport.h, the sending side: `startSend`, `handleFlowControl` and
-- `sendNextConsecutiveFrame`.
use esp32_vag_data_server.Prelude.{
  ℕ, ◌+◌, true, not, ◌||◌, Option, none, some, List, leb, ltb, ◌==◌, if◌then◌else◌, u8, add64,
  sub64, low_nibble, copy_n, drop, get_or, min, max,
}
use esp32_vag_data_server.Can.{CanFrame, CanHal, Clock}
use esp32_vag_data_server.Transport.{TransportStatus, is_complete, is_tx_busy}
use esp32_vag_data_server.IsoTp.State.{
  IsoTpConfig, Tx, TxState, k_max_payload, is_tx_idle, is_waiting, is_config_valid,
  decode_st_min_ms, reset_tx,
}
use esp32_vag_data_server.IsoTp.Frames.{send_frame, single_frame, first_frame, consecutive_frame}

-- The fields that `startSend` sets before the first frame.
unfoldable pub load_message : List ℕ → ℕ → Tx → Tx
load_message payload length tx = record tx {
  payload = copy_n payload length tx.payload 0;
  length = length;
  offset = 6;
  sequence = 1;
  wait_count = 0;
}

-- The wait for a flow control frame, from time `now` on.
abbrev pub await_flow_control : IsoTpConfig → ℕ → Tx → Tx
await_flow_control config now tx = record tx {
  state = TxState.wait_flow_control;
  deadline_ms = add64 now config.flow_control_timeout_ms;
}

-- "Continue to send" in `handleFlowControl`: the first consecutive frame may go at once, a later one
-- keeps its distance from the last.
unfoldable pub begin_block : CanFrame → ℕ → ℕ → Tx → Tx
begin_block frame separation now tx = record tx {
  block_size = get_or frame.payload 1 0;
  block_remaining = get_or frame.payload 1 0;
  separation_ms = separation;
  next_send_ms = if tx.has_last_cf then max now (add64 tx.last_cf_ms separation) else now;
  state = TxState.sending;
}

-- `handleFlowControl`.
unfoldable pub handle_flow_control : IsoTpConfig → CanFrame → ℕ → Tx → TransportStatus × Tx
handle_flow_control config frame now tx =
    let flow_status = low_nibble (get_or frame.payload 0 0) in
    if not (is_waiting tx.state)
    then (TransportStatus.unexpected_frame, tx)
    else if ltb frame.length 3
    then (TransportStatus.invalid_frame, reset_tx tx)
    else if flow_status == 0x0
    then elim (decode_st_min_ms (get_or frame.payload 2 0)) [
      | none ↦ (TransportStatus.invalid_frame, reset_tx tx)
      | some separation ↦ (TransportStatus.in_progress, begin_block frame separation now tx)
    ]
    else if flow_status == 0x1
    then if leb config.max_wait_frames tx.wait_count
      then (TransportStatus.wait_limit_exceeded, reset_tx tx)
      else (
        TransportStatus.in_progress,
        record tx {
          wait_count = u8 (tx.wait_count + 1);
          deadline_ms = add64 now config.flow_control_timeout_ms;
        },
      )
    else if flow_status == 0x2
    then (TransportStatus.flow_control_overflow, reset_tx tx)
    else (TransportStatus.invalid_frame, reset_tx tx)

-- The bytes that the next consecutive frame carries.
abbrev pub next_length : Tx → ℕ
next_length tx = min 7 (sub64 tx.length tx.offset)

abbrev pub next_consecutive_frame : IsoTpConfig → Tx → CanFrame
next_consecutive_frame config tx =
    consecutive_frame config tx.sequence (drop tx.offset tx.payload) (next_length tx)

-- The fields that an accepted consecutive frame advances.
unfoldable pub advance : ℕ → Tx → Tx
advance accepted_at tx = record tx {
  last_cf_ms = accepted_at;
  has_last_cf = true;
  offset = tx.offset + next_length tx;
  sequence = low_nibble (tx.sequence + 1);
}

-- The part of `sendNextConsecutiveFrame` behind an accepted frame.
unfoldable pub after_accepted : IsoTpConfig → ℕ → Tx → TransportStatus × Tx
after_accepted config accepted_at tx =
    let remaining = u8 (tx.block_remaining + 255) in
    let paced = record tx { next_send_ms = add64 accepted_at tx.separation_ms } in
    if tx.offset == tx.length
    then (TransportStatus.complete, reset_tx tx)
    else if tx.block_size == 0
    then (TransportStatus.in_progress, paced)
    else if remaining == 0
    then (
      TransportStatus.in_progress,
      await_flow_control config accepted_at (record tx { block_remaining = remaining }),
    )
    else (TransportStatus.in_progress, record paced { block_remaining = remaining })

module _ {W : Type 0} (can : CanHal W) (clock : Clock W) where
  -- `sendNextConsecutiveFrame`. A busy driver changes nothing: the frame is tried again.
  unfoldable pub send_next_consecutive_frame : IsoTpConfig → Tx → W → TransportStatus × Tx × W
  send_next_consecutive_frame config tx w =
      let (status, w') = send_frame can (next_consecutive_frame config tx) w in
      let (accepted_at, w'') = clock.now_ms w' in
      let (result, tx') = after_accepted config accepted_at (advance accepted_at tx) in
      if is_tx_busy status
      then (status, tx, w')
      else if not (is_complete status)
      then (status, reset_tx tx, w')
      else (result, tx', w'')

  -- The segmented branch of `startSend`.
  unfoldable pub send_first_frame : IsoTpConfig → List ℕ → ℕ → Tx → W → TransportStatus × Tx × W
  send_first_frame config payload length tx w =
      let loaded = load_message payload length tx in
      let (status, w') = send_frame can (first_frame config payload length) w in
      let (now, w'') = clock.now_ms w' in
      if not (is_complete status)
      then (status, reset_tx loaded, w')
      else (TransportStatus.in_progress, await_flow_control config now loaded, w'')

  -- The branch of `startSend` for a message that fits one frame.
  unfoldable pub send_single_frame : IsoTpConfig → List ℕ → ℕ → Tx → W → TransportStatus × Tx × W
  send_single_frame config payload length tx w =
      let (status, w') = send_frame can (single_frame config payload length) w in (status, tx, w')

  -- `startSend`. The caller's buffer holds at least `length` bytes.
  unfoldable pub start_send_tx :
      IsoTpConfig → Option (List ℕ) → ℕ → Tx → W → TransportStatus × Tx × W
  start_send_tx config none length tx w = (TransportStatus.invalid_argument, tx, w)
  start_send_tx config (some payload) length tx w =
      if not (is_config_valid config)
        || length == 0
        || ltb config.max_payload length
        || ltb k_max_payload length
      then (TransportStatus.invalid_argument, tx, w)
      else if not (is_tx_idle tx.state)
      then (TransportStatus.busy, tx, w)
      else if leb length 7
      then send_single_frame config payload length tx w
      else send_first_frame config payload length tx w
