-- ===== src/IsoTp/Invariant/Receiving.antt =====
-- src/protocol/isotp_transport.h: the invariant of the receiving side, kept by each handler.
use esp32_vag_data_server.Prelude.{
  ℕ, ◌-◌, ◌≤◌, ◌<◌, ◌≡◌, ◌≢◌, true, false, Option, List, arith, length, take, drop, length-write_at,
  min, get_or, low_nibble,
}
use esp32_vag_data_server.Can.{CanFrame, CanHal}
use esp32_vag_data_server.IsoTp.State.{
  IsoTpConfig, Rx, k_max_payload, is_receiving, reset_rx_assembly,
}
use esp32_vag_data_server.IsoTp.Receiver.{
  discard_pending, receive_into, handle_single_frame, begin_assembly, declared_length, copy_length,
  store_consecutive, finish_assembly, next_block, continue_to_send, handle_first_frame, after_copy,
  handle_consecutive_frame,
}

-- The invariant of the receiving side.
pub record RxInv (config : IsoTpConfig) (rx : Rx) : Type 0 where
  pub buffer : length rx.payload ≡ k_max_payload
  pub assembling :
      is_receiving rx.state ≡ true
      → (rx.offset < rx.expected_length)
        × (rx.expected_length ≤ config.max_payload)
        × (rx.expected_length ≤ k_max_payload)
        × (7 < rx.expected_length)
        × (rx.message_ready ≡ false)
  pub resting :
      is_receiving rx.state ≡ false
      → (rx.expected_length ≡ 0) × (rx.offset ≡ 0) × (rx.expected_sequence ≡ 1)
  pub sequence_small : rx.expected_sequence < 16
  pub ready :
      rx.message_ready ≡ true
      → (0 < rx.message_length)
        × (rx.message_length ≤ config.max_payload)
        × (rx.message_length ≤ k_max_payload)
  pub not_ready : rx.message_ready ≡ false → rx.message_length ≡ 0

-- Between the copy and the test for the end the offset may have reached the expected length.
record Stored (config : IsoTpConfig) (rx : Rx) : Type 0 where
  buffer : length rx.payload ≡ k_max_payload
  receiving : is_receiving rx.state ≡ true
  within : rx.offset ≤ rx.expected_length
  fits : rx.expected_length ≤ config.max_payload
  bounded : rx.expected_length ≤ k_max_payload
  long : 7 < rx.expected_length
  waiting : rx.message_ready ≡ false
  empty : rx.message_length ≡ 0
  sequence_small : rx.expected_sequence < 16

module _ {config : IsoTpConfig} where
  pub reset_rx_assembly-RxInv : {rx : Rx} → RxInv config rx → RxInv config (reset_rx_assembly rx)
  unfolding reset_rx_assembly
  reset_rx_assembly-RxInv v = ground arith

  pub discard_pending-RxInv : {rx : Rx} → RxInv config rx → RxInv config (discard_pending rx)
  unfolding discard_pending
  discard_pending-RxInv v = ground arith

  pub receive_into-RxInv :
      (payload : Option (List ℕ)) (capacity : ℕ) {rx : Rx}
      → RxInv config rx
      → RxInv config (receive_into payload capacity rx).1
  unfolding receive_into
  receive_into-RxInv payload capacity v = ground arith

  pub handle_single_frame-RxInv :
      (frame : CanFrame) {rx : Rx}
      → RxInv config rx
      → RxInv config (handle_single_frame config frame rx).1
  unfolding handle_single_frame
  handle_single_frame-RxInv frame {rx} v = ground (
    arith,
    length-write_at rx.payload 0
        (take (low_nibble (get_or frame.payload 0 0)) (drop 1 frame.payload)),
  )

  begin_assembly-RxInv :
      (frame : CanFrame) (now : ℕ) {rx : Rx}
      → RxInv config rx
      → rx.message_ready ≡ false
      → frame.length ≡ 8
      → 7 < declared_length frame
      → declared_length frame ≤ k_max_payload
      → declared_length frame ≤ config.max_payload
      → RxInv config (begin_assembly config frame now rx)
  unfolding begin_assembly
  begin_assembly-RxInv frame now {rx} v e l d k m = ground (
    arith,
    length-write_at rx.payload 0
        (take (min (frame.length - 2) (declared_length frame)) (drop 2 frame.payload)),
  )

  store_consecutive-Stored :
      (frame : CanFrame) {rx : Rx}
      → RxInv config rx
      → is_receiving rx.state ≡ true
      → Stored config (store_consecutive frame rx)
  unfolding store_consecutive
  store_consecutive-Stored frame {rx} v r = ground (
    arith,
    length-write_at rx.payload rx.offset (take (copy_length frame rx) (drop 1 frame.payload)),
  )

  finish_assembly-RxInv : {rx : Rx} → Stored config rx → RxInv config (finish_assembly rx)
  unfolding finish_assembly
  finish_assembly-RxInv s = ground arith

  Stored-RxInv : {rx : Rx} → Stored config rx → rx.offset ≢ rx.expected_length → RxInv config rx
  Stored-RxInv s ne = ground arith

  module _ {W : Type 0} (can : CanHal W) where
    continue_to_send-RxInv :
        {rx : Rx} (w : W) → RxInv config rx → RxInv config (continue_to_send can config rx w).1
    unfolding continue_to_send
    continue_to_send-RxInv {rx} w v = ground (arith, reset_rx_assembly-RxInv v)

    after_copy-RxInv :
        (now : ℕ) {rx : Rx} (w : W)
        → Stored config rx
        → RxInv config (after_copy can config now rx w).1
    unfolding after_copy
    after_copy-RxInv now {rx} w s = ground (
      arith,
      finish_assembly-RxInv s,
      Stored-RxInv s,
      continue_to_send-RxInv {rx = next_block config now rx} w,
    )

    pub handle_first_frame-RxInv :
        (frame : CanFrame) (now : ℕ) {rx : Rx} (w : W)
        → RxInv config rx
        → RxInv config (handle_first_frame can config frame now rx w).1
    unfolding handle_first_frame
    handle_first_frame-RxInv frame now {rx} w v = ground (
      arith,
      continue_to_send-RxInv {rx = begin_assembly config frame now rx} w,
      begin_assembly-RxInv frame now v,
    )

    pub handle_consecutive_frame-RxInv :
        (frame : CanFrame) (now : ℕ) {rx : Rx} (w : W)
        → RxInv config rx
        → RxInv config (handle_consecutive_frame can config frame now rx w).1
    unfolding handle_consecutive_frame
    handle_consecutive_frame-RxInv frame now {rx} w v = ground (
      arith,
      reset_rx_assembly-RxInv v,
      store_consecutive-Stored frame v,
      after_copy-RxInv now {rx = store_consecutive frame rx} w,
    )
