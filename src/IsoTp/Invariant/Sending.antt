-- ===== src/IsoTp/Invariant/Sending.antt =====
-- src/protocol/isotp_transport.h: the invariant of the sending side, kept by each operation.
use esp32_vag_data_server.Prelude.{
  ℕ, ◌+◌, ◌/◌, ◌%◌, ◌≤◌, ◌<◌, ◌≡◌, ◌≢◌, true, false, Option, none, some, List, arith, length, take,
  length-write_at, get_or, add64,
}
use esp32_vag_data_server.Can.{CanFrame, CanHal, Clock}
use esp32_vag_data_server.IsoTp.State.{
  IsoTpConfig, Tx, k_max_payload, is_tx_idle, is_sending, reset_tx,
}
use esp32_vag_data_server.IsoTp.Frames.{send_frame, first_frame}
use esp32_vag_data_server.IsoTp.Sender.{
  load_message, await_flow_control, begin_block, handle_flow_control, next_consecutive_frame,
  advance, after_accepted, send_next_consecutive_frame, send_first_frame, start_send_tx,
  send_single_frame,
}

-- The invariant of the sending side: a message under way is segmented at 6, 13, 20, ... bytes, and the
-- sequence number is that of the segment.
pub record TxInv (config : IsoTpConfig) (tx : Tx) : Type 0 where
  pub buffer : length tx.payload ≡ k_max_payload
  pub idle :
      is_tx_idle tx.state ≡ true
      → (tx.length ≡ 0) × (tx.offset ≡ 0) × (tx.wait_count ≡ 0) × (tx.has_last_cf ≡ false)
  pub busy :
      is_tx_idle tx.state ≡ false
      → (7 < tx.length) × (tx.length ≤ k_max_payload) × (6 ≤ tx.offset) × (tx.offset < tx.length)
  pub segmented :
      is_tx_idle tx.state ≡ false → (tx.offset % 7 ≡ 6) × (tx.sequence ≡ (tx.offset + 1) / 7 % 16)
  pub block :
      is_sending tx.state ≡ true
      → tx.block_size ≢ 0
      → (0 < tx.block_remaining) × (tx.block_remaining ≤ tx.block_size)
  pub block_byte : tx.block_size < 256
  pub waits : tx.wait_count ≤ config.max_wait_frames
  pub paced :
      is_sending tx.state ≡ true
      → tx.has_last_cf ≡ true
      → add64 tx.last_cf_ms tx.separation_ms ≤ tx.next_send_ms

module _ {config : IsoTpConfig} where
  pub reset_tx-TxInv : {tx : Tx} → TxInv config tx → TxInv config (reset_tx tx)
  unfolding reset_tx
  reset_tx-TxInv v = ground arith

  load_message-TxInv :
      (payload : List ℕ) (size now : ℕ) {tx : Tx}
      → TxInv config tx
      → is_tx_idle tx.state ≡ true
      → 7 < size
      → size ≤ k_max_payload
      → TxInv config (await_flow_control config now (load_message payload size tx))
  unfolding load_message
  load_message-TxInv payload size now {tx} v e l m =
      ground (arith, length-write_at tx.payload 0 (take size payload))

  reset_load_message-TxInv :
      (payload : List ℕ) (size : ℕ) {tx : Tx}
      → TxInv config tx
      → TxInv config (reset_tx (load_message payload size tx))
  unfolding load_message reset_tx
  reset_load_message-TxInv payload size {tx} v =
      ground (arith, length-write_at tx.payload 0 (take size payload))

  pub handle_flow_control-TxInv :
      (frame : CanFrame) (now : ℕ) {tx : Tx}
      → get_or frame.payload 1 0 < 256
      → TxInv config tx
      → TxInv config (handle_flow_control config frame now tx).1
  unfolding handle_flow_control begin_block
  handle_flow_control-TxInv frame now b v = ground (arith, reset_tx-TxInv v)

  advance-TxInv :
      (accepted_at : ℕ) {tx : Tx}
      → TxInv config tx
      → is_sending tx.state ≡ true
      → TxInv config (after_accepted config accepted_at (advance accepted_at tx)).1
  unfolding after_accepted advance reset_tx
  advance-TxInv accepted_at {tx} v s = ground arith

  module _ {W : Type 0} (can : CanHal W) (clock : Clock W) where
    pub send_next_consecutive_frame-TxInv :
        {tx : Tx} (w : W)
        → TxInv config tx
        → is_sending tx.state ≡ true
        → TxInv config (send_next_consecutive_frame can clock config tx w).1
    unfolding send_next_consecutive_frame
    send_next_consecutive_frame-TxInv {tx} w v s =
        let sent = send_frame can (next_consecutive_frame config tx) w in
        ground (arith, reset_tx-TxInv v, advance-TxInv (clock.now_ms sent.1).0 v s)

    send_first_frame-TxInv :
        (payload : List ℕ) (size : ℕ) {tx : Tx} (w : W)
        → TxInv config tx
        → is_tx_idle tx.state ≡ true
        → 7 < size
        → size ≤ k_max_payload
        → TxInv config (send_first_frame can clock config payload size tx w).1
    unfolding send_first_frame
    send_first_frame-TxInv payload size {tx} w v e l m =
        let sent = send_frame can (first_frame config payload size) w in
        ground (
          arith,
          reset_load_message-TxInv payload size v,
          load_message-TxInv payload size (clock.now_ms sent.1).0 v e l m,
        )

    pub start_send_tx-TxInv :
        (payload : Option (List ℕ)) (size : ℕ) {tx : Tx} (w : W)
        → TxInv config tx
        → TxInv config (start_send_tx can clock config payload size tx w).1
    unfolding start_send_tx send_single_frame
    start_send_tx-TxInv none size w v = v
    start_send_tx-TxInv (some payload) size {tx} w v =
        ground (arith, send_first_frame-TxInv payload size w v)
