-- ===== src/IsoTp/Invariant/Operations.antt =====
-- src/protocol/isotp_transport.h: the invariant of the whole transport, for every sequence of calls.
use esp32_vag_data_server.Prelude.{ℕ, Option, List, arith}
use esp32_vag_data_server.Can.{CanFrame, CanHal, Clock}
use esp32_vag_data_server.IsoTp.State.{IsoTpConfig, IsoTp, new, length-empty_buffer}
use esp32_vag_data_server.IsoTp.Node.{
  start_send, poll, poll_at, receive, discard_pending_message, dispatch, accept_frame, on_can_frame,
}
use esp32_vag_data_server.IsoTp.Calls.{HasByteFields}
use esp32_vag_data_server.IsoTp.Invariant.Receiving.{
  RxInv, reset_rx_assembly-RxInv, discard_pending-RxInv, receive_into-RxInv,
  handle_single_frame-RxInv, handle_first_frame-RxInv, handle_consecutive_frame-RxInv,
}
use esp32_vag_data_server.IsoTp.Invariant.Sending.{
  TxInv, reset_tx-TxInv, handle_flow_control-TxInv, send_next_consecutive_frame-TxInv,
  start_send_tx-TxInv,
}

pub record Inv (s : IsoTp) : Type 0 where
  pub receiving : RxInv s.config s.rx
  pub sending : TxInv s.config s.tx

pub new-Inv : (config : IsoTpConfig) → Inv (new config)
unfolding new
new-Inv config = ground (arith, length-empty_buffer)

pub receive-Inv :
    (payload : Option (List ℕ)) (capacity : ℕ) {s : IsoTp}
    → Inv s
    → Inv (receive payload capacity s).1
unfolding receive
receive-Inv payload capacity v = record {
  receiving = receive_into-RxInv payload capacity v.receiving;
  sending = v.sending;
}

pub discard_pending_message-Inv : {s : IsoTp} → Inv s → Inv (discard_pending_message s)
unfolding discard_pending_message
discard_pending_message-Inv v = record {
  receiving = discard_pending-RxInv v.receiving;
  sending = v.sending;
}

module _ {W : Type 0} (can : CanHal W) (clock : Clock W) where
  pub start_send-Inv :
      (payload : Option (List ℕ)) (size : ℕ) {s : IsoTp} (w : W)
      → Inv s
      → Inv (start_send can clock payload size s w).1
  unfolding start_send
  start_send-Inv payload size w v = record {
    receiving = v.receiving;
    sending = start_send_tx-TxInv can clock payload size w v.sending;
  }

  poll_at-Inv : {s : IsoTp} (now : ℕ) (w : W) → Inv s → Inv (poll_at can clock s now w).1
  unfolding poll_at
  poll_at-Inv {s} now w v = ground (
    arith,
    reset_rx_assembly-RxInv v.receiving,
    reset_tx-TxInv v.sending,
    send_next_consecutive_frame-TxInv can clock w v.sending,
  )

  pub poll-Inv : {s : IsoTp} (w : W) → Inv s → Inv (poll can clock s w).1
  unfolding poll
  poll-Inv {s} w v = ground (arith, poll_at-Inv (clock.now_ms w).0 (clock.now_ms w).1 v)

  dispatch-Inv :
      {s : IsoTp} (frame : CanFrame) (now : ℕ) (w : W)
      → HasByteFields frame
      → Inv s
      → Inv (dispatch can clock s frame now w).1
  unfolding dispatch
  dispatch-Inv {s} frame now w b v = ground (
    arith,
    handle_single_frame-RxInv frame v.receiving,
    handle_first_frame-RxInv can frame now w v.receiving,
    handle_consecutive_frame-RxInv can frame now w v.receiving,
    handle_flow_control-TxInv frame now b v.sending,
  )

  pub on_can_frame-Inv :
      {s : IsoTp} (frame : CanFrame) (w : W)
      → HasByteFields frame
      → Inv s
      → Inv (on_can_frame can clock s frame w).1
  unfolding on_can_frame accept_frame
  on_can_frame-Inv {s} frame w b v = ground (
    arith,
    reset_rx_assembly-RxInv v.receiving,
    reset_tx-TxInv v.sending,
    dispatch-Inv frame (clock.now_ms w).0 (clock.now_ms w).1 b v,
  )
