-- ===== src/Stack/Bus.antt =====
-- src/protocol/uds_service.h over src/protocol/read_only_guard.h and src/protocol/isotp_transport.h: the
-- frames that the three put on the bus.
use esp32_vag_data_server.Prelude.{
  ℕ, ◌≡◌, inl, refl, ap, ◌∙◌, true, List, [], ◌∷◌, some, arith, length, All, leb,
}
use esp32_vag_data_server.Can.{CanFrame, CanHal, Clock}
use esp32_vag_data_server.IsoTp.State.{
  IsoTp, IsoTpConfig, Rx, Tx, TxState, is_tx_idle, is_waiting, is_sending, reset_tx,
  reset_rx_assembly,
}
use esp32_vag_data_server.IsoTp.State as IsoTpState
use esp32_vag_data_server.IsoTp.Frames.{single_frame}
use esp32_vag_data_server.IsoTp.Sender.{start_send_tx, send_single_frame}
use esp32_vag_data_server.IsoTp.Node.{
  iso_tp_transport, start_send, poll, poll_at, receive, discard_pending_message,
}
use esp32_vag_data_server.IsoTp.Segments.{single_frame_lem}
use esp32_vag_data_server.IsoTp.Recorder.{recording, beside}
use esp32_vag_data_server.Guard.Policy.{ReadOnlyRequest, Keeps, Held, Held-if}
use esp32_vag_data_server.Transport.{TransportStatus}
use esp32_vag_data_server.Uds.State.{Uds, UdsServiceConfig}
use esp32_vag_data_server.Uds.State as UdsState
use esp32_vag_data_server.Uds.Safety.{perform-Held}
use esp32_vag_data_server.Stack.{beside_transport, Event, calls, hears, step, run}
use esp32_vag_data_server.Stack.Permitted.{
  IsPermitted, IsClean, IsSafe, Kept, Kept-if, length-ReadOnlyRequest, idle_state, unchanged,
  send_frame-IsClean, same, on_rx-Kept, on_tx-Kept, on_can_frame-Kept,
}

module _ {W : Type 0} (can : CanHal W) (clock : Clock W) (config : IsoTpConfig) where
  poll_at-Kept :
      (s : IsoTp) (now : ℕ) (t : List CanFrame × W)
      → IsSafe config (s, t)
      → Kept config (poll_at (recording can) (beside clock) s now t)
  unfolding poll_at reset_tx
  poll_at-Kept s now t safe =
      let expired =
        on_rx-Kept can clock config s t (TransportStatus.timeout, reset_rx_assembly s.rx, t) safe
          (unchanged can clock config TransportStatus.timeout (reset_rx_assembly s.rx) t safe.2) in
      let ended =
        on_tx-Kept can clock config s t TransportStatus.timeout (reset_tx s.tx) safe refl in
      rw ((idle_state s.tx safe.1).1) (search (Kept-if, same can clock config) depth 9)

  poll-Kept :
      (s : IsoTp) (t : List CanFrame × W)
      → IsSafe config (s, t)
      → Kept config (poll (recording can) (beside clock) s t)
  unfolding poll
  poll-Kept s t safe =
      let (now, t') = (beside clock).now_ms t in
      let polled = poll_at-Kept s now t' safe in search (Kept-if, same can clock config) depth 9

  send_single_frame-Held :
      (payload : List ℕ) (tx : Tx) (t : List CanFrame × W)
      → ReadOnlyRequest payload
      → IsClean config t
      → Held
          (IsClean config)
          (send_single_frame (recording can) (beside clock) config payload (length payload) tx t)
  unfolding send_single_frame
  send_single_frame-Held payload tx t r c =
      let whole = single_frame_lem config payload (length-ReadOnlyRequest payload r) in
      record {
        held =
            send_frame-IsClean can clock config (single_frame config payload (length payload)) t c
              (inl (payload, r, whole));
      }

  start_send_tx-Held :
      (payload : List ℕ) (tx : Tx) (t : List CanFrame × W)
      → ReadOnlyRequest payload
      → IsClean config t
      → Held
          (IsClean config)
          (start_send_tx (recording can) (beside clock) config (some payload) (length payload) tx t)
  unfolding start_send_tx
  start_send_tx-Held payload tx t r c =
      let fits : leb (length payload) 7 ≡ true = ground (arith, length-ReadOnlyRequest payload r) in
      rw fits (search (Held-if, unchanged can clock config, send_single_frame-Held) depth 9)

  start_send_tx-kept :
      (c : IsoTpConfig) (payload : List ℕ) (tx : Tx) (t : List CanFrame × W)
      → ReadOnlyRequest payload
      → (start_send_tx (recording can) (beside clock) c (some payload) (length payload) tx t).1 ≡ tx
  unfolding start_send_tx send_single_frame
  start_send_tx-kept c payload tx t r = ground (arith, length-ReadOnlyRequest payload r)

  start_send-Kept :
      (payload : List ℕ) (s : IsoTp) (t : List CanFrame × W)
      → ReadOnlyRequest payload
      → IsSafe config (s, t)
      → Kept config (start_send (recording can) (beside clock) (some payload) (length payload) s t)
  unfolding start_send
  start_send-Kept payload s t r safe =
      let sent : Held (IsClean config) (
          start_send_tx (recording can) (beside clock) s.config (some payload) (length payload) s.tx
            t) =
        rw (safe.0) (start_send_tx-Held payload s.tx t r safe.2) in
      let kept = start_send_tx-kept s.config payload s.tx t r in
      record { kept = (safe.0, ap (λ (tx : Tx). is_tx_idle tx.state) kept ∙ safe.1, sent.held) }

  iso_tp_transport-Keeps :
      Keeps
        (iso_tp_transport (recording can) (beside clock))
        (beside_transport (beside clock))
        (IsSafe config)
  unfolding receive discard_pending_message
  iso_tp_transport-Keeps = record {
    sends = λ payload t r safe. (start_send-Kept payload t.0 t.1 r safe).kept;
    polls = λ t safe. (poll-Kept t.0 t.1 safe).kept;
    receives = λ payload capacity t safe. safe;
    discards = λ t safe. safe;
    reads = λ t safe. safe;
  }

  step-IsSafe :
      (e : Event) (u : Uds) (t : IsoTp × (List CanFrame × W))
      → IsSafe config t
      → IsSafe config (step (recording can) (beside clock) e u t).1
  unfolding step
  step-IsSafe (calls c) u t safe = (perform-Held iso_tp_transport-Keeps c u t safe).held
  step-IsSafe (hears frame) u t safe = (on_can_frame-Kept can clock config t.0 frame t.1 safe).kept

  run-IsSafe :
      (es : List Event) (u : Uds) (t : IsoTp × (List CanFrame × W))
      → IsSafe config t
      → IsSafe config (run (recording can) (beside clock) es u t).1
  unfolding run
  run-IsSafe [] u t safe = safe
  run-IsSafe (e ∷ es) u t safe =
      let (u', t') = step (recording can) (beside clock) e u t in
      run-IsSafe es u' t' (step-IsSafe e u t safe)

-- However the calls of a new UDS service and the frames from the bus follow one another, with any driver
-- and any clock: every frame that the driver is given is a read-only request, whole in a single frame, or
-- a flow control frame with the status 0 (continue to send) or 2 (overflow). No first frame and no
-- consecutive frame is ever sent.
pub run-IsPermitted :
    {W : Type 0} (can : CanHal W) (clock : Clock W) (config : IsoTpConfig)
    (service_config : UdsServiceConfig) (es : List Event) (w : W)
    → let (_, (_, (log, _))) =
        run
          (recording can)
          (beside clock)
          es
          (UdsState.new service_config)
          (IsoTpState.new config, ([], w)) in
      All (IsPermitted config) log
unfolding IsoTpState.new
run-IsPermitted can clock config service_config es w =
    (run-IsSafe can clock config es (UdsState.new service_config) (IsoTpState.new config, ([], w))
      (refl, refl, tt)).2
