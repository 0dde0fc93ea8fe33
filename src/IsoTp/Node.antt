-- ===== src/IsoTp/Node.antt =====
-- src/protocol/isotp_transport.h: the public operations of `IsoTpTransport`, and the interface
-- `DiagnosticTransport` that they fill.
use esp32_vag_data_server.Prelude.{
  ℕ, not, ◌&&◌, ◌||◌, Option, List, leb, ◌==◌, if◌then◌else◌, high_nibble, get_or,
}
use esp32_vag_data_server.Can.{CanFrame, CanHal, Clock, format_eq, is_valid}
use esp32_vag_data_server.Transport.{TransportStatus, Received, DiagnosticTransport}
use esp32_vag_data_server.IsoTp.State.{
  IsoTp, Rx, Tx, is_tx_idle, is_sending, is_config_valid, reset_rx_assembly, reset_tx, rx_expired,
  tx_expired,
}
use esp32_vag_data_server.IsoTp.Receiver.{
  discard_pending, receive_into, handle_single_frame, handle_first_frame, handle_consecutive_frame,
}
use esp32_vag_data_server.IsoTp.Sender.{
  handle_flow_control, send_next_consecutive_frame, start_send_tx,
}

-- The result of an operation on one side, put back into the whole state.
abbrev pub on_rx : {W : Type 0} → IsoTp → TransportStatus × Rx × W → TransportStatus × IsoTp × W
on_rx s (status, rx, w) = (status, record s { rx = rx }, w)

abbrev pub on_tx : {W : Type 0} → IsoTp → TransportStatus × Tx × W → TransportStatus × IsoTp × W
on_tx s (status, tx, w) = (status, record s { tx = tx }, w)

-- The result of an operation that leaves the world alone.
abbrev pub in_world : {A W : Type 0} → W → TransportStatus × A → TransportStatus × A × W
in_world w (status, a) = (status, a, w)

-- `discardPendingMessage`.
unfoldable pub discard_pending_message : IsoTp → IsoTp
discard_pending_message s = record s { rx = discard_pending s.rx }

-- `receive`.
unfoldable pub receive : Option (List ℕ) → ℕ → IsoTp → Received × IsoTp
receive payload capacity s =
    let (received, rx) = receive_into payload capacity s.rx in (received, record s { rx = rx })

-- The state of the object and of the world as one.
abbrev pub joined : {W : Type 0} → TransportStatus × IsoTp × W → TransportStatus × (IsoTp × W)
joined (status, s, w) = (status, (s, w))

module _ {W : Type 0} (can : CanHal W) (clock : Clock W) where
  -- `startSend`.
  unfoldable pub start_send : Option (List ℕ) → ℕ → IsoTp → W → TransportStatus × IsoTp × W
  start_send payload length s w = on_tx s (start_send_tx can clock s.config payload length s.tx w)

  -- `poll` at the time `now`.
  unfoldable pub poll_at : IsoTp → ℕ → W → TransportStatus × IsoTp × W
  poll_at s now w =
      if rx_expired s.rx now
      then (TransportStatus.timeout, record s { rx = reset_rx_assembly s.rx }, w)
      else if tx_expired s.tx now
      then (TransportStatus.timeout, record s { tx = reset_tx s.tx }, w)
      else if is_sending s.tx.state && leb s.tx.next_send_ms now
      then on_tx s (send_next_consecutive_frame can clock s.config s.tx w)
      else (
        if is_tx_idle s.tx.state then TransportStatus.idle else TransportStatus.in_progress,
        s,
        w,
      )

  -- `poll`.
  unfoldable pub poll : IsoTp → W → TransportStatus × IsoTp × W
  poll s w =
      let (now, w') = clock.now_ms w in
      if not (is_config_valid s.config)
      then (TransportStatus.invalid_argument, s, w)
      else poll_at s now w'

  -- The `switch` of `onCanFrame`, on the frame's kind.
  unfoldable pub dispatch : IsoTp → CanFrame → ℕ → W → TransportStatus × IsoTp × W
  dispatch s frame now w =
      let kind = high_nibble (get_or frame.payload 0 0) in
      if kind == 0x0
      then on_rx s (in_world w (handle_single_frame s.config frame s.rx))
      else if kind == 0x1
      then on_rx s (handle_first_frame can s.config frame now s.rx w)
      else if kind == 0x2
      then on_rx s (handle_consecutive_frame can s.config frame now s.rx w)
      else if kind == 0x3
      then on_tx s (in_world w (handle_flow_control s.config frame now s.tx))
      else (TransportStatus.invalid_frame, s, w)

  -- `onCanFrame` at the time `now`, for a frame that has passed the checks.
  unfoldable pub accept_frame : IsoTp → CanFrame → ℕ → W → TransportStatus × IsoTp × W
  accept_frame s frame now w =
      if rx_expired s.rx now
      then (TransportStatus.timeout, record s { rx = reset_rx_assembly s.rx }, w)
      else if tx_expired s.tx now
      then (TransportStatus.timeout, record s { tx = reset_tx s.tx }, w)
      else dispatch s frame now w

  -- `onCanFrame`.
  unfoldable pub on_can_frame : IsoTp → CanFrame → W → TransportStatus × IsoTp × W
  on_can_frame s frame w =
      let (now, w') = clock.now_ms w in
      if not (is_config_valid s.config)
      then (TransportStatus.invalid_argument, s, w)
      else if not (frame.id == s.config.rx_id && format_eq frame.format s.config.frame_format)
      then (TransportStatus.ignored, s, w)
      else if not (is_valid frame) || frame.length == 0
      then (TransportStatus.invalid_frame, s, w)
      else accept_frame s frame now w'

  -- `IsoTpTransport` as a `DiagnosticTransport`: its state is that of the object and of the world.
  abbrev pub iso_tp_transport : DiagnosticTransport (IsoTp × W)
  iso_tp_transport = record {
    start_send = λ payload length t. joined (start_send payload length t.0 t.1);
    poll = λ t. joined (poll t.0 t.1);
    receive = λ payload capacity t.
        let (received, s) = receive payload capacity t.0 in (received, (s, t.1));
    discard_pending_message = λ t. (discard_pending_message t.0, t.1);
  }
