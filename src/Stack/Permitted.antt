-- ===== src/Stack/Permitted.antt =====
-- src/protocol/isotp_transport.h under src/protocol/uds_service.h: the frames that may be on the bus, and what
-- the receiving side puts there.
use esp32_vag_data_server.Prelude.{
  ℕ, ◌≤◌, ◌≡◌, ◌⊎◌, inl, inr, refl, Bool, true, false, List, [], ◌∷◌, arith, length, All,
  if◌then◌else◌,
}
use esp32_vag_data_server.Can.{CanFrame, CanHal, Clock}
use esp32_vag_data_server.IsoTp.State.{
  IsoTp, IsoTpConfig, Rx, Tx, is_tx_idle, is_waiting, is_sending, reset_tx, reset_rx_assembly,
}
use esp32_vag_data_server.IsoTp.Frames.{flow_control_frame, send_frame}
use esp32_vag_data_server.IsoTp.Receiver.{
  send_flow_control, continue_to_send, handle_single_frame, handle_first_frame, after_copy,
  handle_consecutive_frame,
}
use esp32_vag_data_server.IsoTp.Sender.{handle_flow_control}
use esp32_vag_data_server.IsoTp.Node.{on_can_frame, accept_frame, dispatch, on_rx}
use esp32_vag_data_server.IsoTp.Segments.{data_frame, single}
use esp32_vag_data_server.IsoTp.Recorder.{recording, beside}
use esp32_vag_data_server.Guard.Policy.{
  ReadOnlyRequest, current_data, vehicle_information, stored_dtcs, read_data_by_identifier,
  report_dtc_by_status_mask, Held, Held-if, All-snoc,
}
use esp32_vag_data_server.Transport.{TransportStatus}

-- A frame that may be on the bus: a read-only request as a whole in a single frame, or the flow control
-- frame "continue to send" or "overflow".
abbrev pub IsPermitted : IsoTpConfig → CanFrame → Type 0
IsPermitted config frame =
    ((bytes : List ℕ) × ReadOnlyRequest bytes × (frame ≡ single config bytes))
    ⊎ (frame ≡ data_frame config (0x30 ∷ config.rx_block_size ∷ config.rx_st_min ∷ []))
    ⊎ (frame ≡ data_frame config (0x32 ∷ config.rx_block_size ∷ config.rx_st_min ∷ []))

-- Of the recorded frames.
abbrev pub IsClean : {W : Type 0} → IsoTpConfig → List CanFrame × W → Type 0
IsClean config t = All (IsPermitted config) t.0

-- What holds between two steps: no segmented message is under way, and every frame is permitted.
abbrev pub IsSafe : {W : Type 0} → IsoTpConfig → IsoTp × (List CanFrame × W) → Type 0
IsSafe config t = (t.0.config ≡ config) × (is_tx_idle t.0.tx.state ≡ true) × IsClean config t.1

pub length-ReadOnlyRequest : (bytes : List ℕ) → ReadOnlyRequest bytes → length bytes ≤ 7
length-ReadOnlyRequest _ (current_data pid) = omega arith
length-ReadOnlyRequest _ (vehicle_information pid) = omega arith
length-ReadOnlyRequest _ stored_dtcs = omega arith
length-ReadOnlyRequest _ (read_data_by_identifier hi lo) = omega arith
length-ReadOnlyRequest _ (report_dtc_by_status_mask mask) = omega arith

pub idle_state :
    (tx : Tx)
    → is_tx_idle tx.state ≡ true
    → (is_waiting tx.state ≡ false) × (is_sending tx.state ≡ false)
idle_state tx i = ground arith

-- A result of the transport in which it holds again.
pub record Kept {W : Type 0} (config : IsoTpConfig)
    (out : TransportStatus × IsoTp × (List CanFrame × W)) : Type 0 where
  pub kept : IsSafe config (out.1, out.2)

pub Kept-if :
    {W : Type 0} {config : IsoTpConfig} (b : Bool)
    (x y : TransportStatus × IsoTp × (List CanFrame × W))
    → Kept config x
    → Kept config y
    → Kept config (if b then x else y)
Kept-if true x y p q = p
Kept-if false x y p q = q

module _ {W : Type 0} (can : CanHal W) (clock : Clock W) (config : IsoTpConfig) where
  pub unchanged :
      {A B : Type 0} (a : A) (b : B) (t : List CanFrame × W)
      → IsClean config t
      → Held (IsClean config) (a, b, t)
  unchanged a b t c = record { held = c }

  pub send_frame-IsClean :
      (frame : CanFrame) (t : List CanFrame × W)
      → IsClean config t
      → IsPermitted config frame
      → IsClean config (send_frame (recording can) frame t).1
  unfolding send_frame
  send_frame-IsClean frame t c p = All-snoc (IsPermitted config) t.0 frame c p

  send_flow_control-IsClean :
      (flow_status : ℕ) (t : List CanFrame × W)
      → (flow_status ≡ 0) ⊎ (flow_status ≡ 2)
      → IsClean config t
      → IsClean config (send_flow_control (recording can) config flow_status t).1
  unfolding send_flow_control flow_control_frame
  send_flow_control-IsClean flow_status t (inl e) c =
      rw e (send_frame-IsClean (flow_control_frame config 0) t c (inr (inl refl)))
  send_flow_control-IsClean flow_status t (inr e) c =
      rw e (send_frame-IsClean (flow_control_frame config 2) t c (inr (inr refl)))

  continue_to_send-Held :
      (rx : Rx) (t : List CanFrame × W)
      → IsClean config t
      → Held (IsClean config) (continue_to_send (recording can) config rx t)
  unfolding continue_to_send
  continue_to_send-Held rx t c =
      let sent = send_flow_control-IsClean 0 t (inl refl) c in search (Held-if, unchanged) depth 9

  handle_first_frame-Held :
      (frame : CanFrame) (now : ℕ) (rx : Rx) (t : List CanFrame × W)
      → IsClean config t
      → Held (IsClean config) (handle_first_frame (recording can) config frame now rx t)
  unfolding handle_first_frame
  handle_first_frame-Held frame now rx t c =
      let refusal = send_flow_control-IsClean 2 t (inr refl) c in
      search (Held-if, unchanged, continue_to_send-Held) depth 9

  handle_consecutive_frame-Held :
      (frame : CanFrame) (now : ℕ) (rx : Rx) (t : List CanFrame × W)
      → IsClean config t
      → Held (IsClean config) (handle_consecutive_frame (recording can) config frame now rx t)
  unfolding handle_consecutive_frame after_copy
  handle_consecutive_frame-Held frame now rx t c =
      search (Held-if, unchanged, continue_to_send-Held) depth 9

  handle_flow_control-idle :
      (c : IsoTpConfig) (frame : CanFrame) (now : ℕ) (tx : Tx)
      → is_tx_idle tx.state ≡ true
      → is_tx_idle (handle_flow_control c frame now tx).1.state ≡ true
  unfolding handle_flow_control
  handle_flow_control-idle c frame now tx i = ground (arith, idle_state tx i)

  pub same :
      (status : TransportStatus) (s : IsoTp) (t : List CanFrame × W)
      → IsSafe config (s, t)
      → Kept config (status, s, t)
  same status s t safe = record { kept = safe }

  pub on_rx-Kept :
      (s : IsoTp) (t : List CanFrame × W) (out : TransportStatus × Rx × (List CanFrame × W))
      → IsSafe config (s, t)
      → Held (IsClean config) out
      → Kept config (on_rx s out)
  on_rx-Kept s t out safe h = record { kept = (safe.0, safe.1, h.held) }

  pub on_tx-Kept :
      (s : IsoTp) (t : List CanFrame × W) (status : TransportStatus) (tx : Tx)
      → IsSafe config (s, t)
      → is_tx_idle tx.state ≡ true
      → Kept config (status, record s { tx = tx }, t)
  on_tx-Kept s t status tx safe i = record { kept = (safe.0, i, safe.2) }

  -- The same, for a transport with the configuration.
  frames_kept :
      (s : IsoTp) (frame : CanFrame) (now : ℕ) (t : List CanFrame × W)
      → IsSafe config (s, t)
      → Held (IsClean config) (handle_first_frame (recording can) s.config frame now s.rx t)
        × Held (IsClean config) (handle_consecutive_frame (recording can) s.config frame now s.rx t)
  frames_kept s frame now t safe = rw (safe.0) (
    handle_first_frame-Held frame now s.rx t safe.2,
    handle_consecutive_frame-Held frame now s.rx t safe.2,
  )

  dispatch-Kept :
      (s : IsoTp) (frame : CanFrame) (now : ℕ) (t : List CanFrame × W)
      → IsSafe config (s, t)
      → Kept config (dispatch (recording can) (beside clock) s frame now t)
  unfolding dispatch
  dispatch-Kept s frame now t safe =
      let (first, consecutive) = frames_kept s frame now t safe in
      let idle = handle_flow_control-idle s.config frame now s.tx safe.1 in
      let (status, rx) = handle_single_frame s.config frame s.rx in
      let (status', tx) = handle_flow_control s.config frame now s.tx in
      let on_single = on_rx-Kept s t (status, rx, t) safe (unchanged status rx t safe.2) in
      let on_first = on_rx-Kept s t _ safe first in
      let on_consecutive = on_rx-Kept s t _ safe consecutive in
      let on_flow_control = on_tx-Kept s t status' tx safe idle in search (Kept-if, same) depth 9

  accept_frame-Kept :
      (s : IsoTp) (frame : CanFrame) (now : ℕ) (t : List CanFrame × W)
      → IsSafe config (s, t)
      → Kept config (accept_frame (recording can) (beside clock) s frame now t)
  unfolding accept_frame reset_tx
  accept_frame-Kept s frame now t safe =
      let expired =
        on_rx-Kept s t (TransportStatus.timeout, reset_rx_assembly s.rx, t) safe
          (unchanged TransportStatus.timeout (reset_rx_assembly s.rx) t safe.2) in
      let ended = on_tx-Kept s t TransportStatus.timeout (reset_tx s.tx) safe refl in
      let dispatched = dispatch-Kept s frame now t safe in search Kept-if depth 9

  pub on_can_frame-Kept :
      (s : IsoTp) (frame : CanFrame) (t : List CanFrame × W)
      → IsSafe config (s, t)
      → Kept config (on_can_frame (recording can) (beside clock) s frame t)
  unfolding on_can_frame
  on_can_frame-Kept s frame t safe =
      let (now, t') = (beside clock).now_ms t in
      let accepted = accept_frame-Kept s frame now t' safe in search (Kept-if, same) depth 9
