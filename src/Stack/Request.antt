-- ===== src/Stack/Request.antt =====
-- src/protocol/uds_service.h over src/protocol/isotp_transport.h: what a request puts on the bus.
use esp32_vag_data_server.Prelude.{
  ℕ, ◌/◌, ◌%◌, ◌<◌, ◌≤◌, ◌≡◌, ◌≢◌, ◌⊎◌, inl, inr, refl, true, false, [], ◌∷◌, arith, ltb, ◌==◌,
}
use esp32_vag_data_server.Can.{CanFrame, CanStatus, CanHal, Clock}
use esp32_vag_data_server.Transport.{TransportStatus, is_complete, is_in_progress}
use esp32_vag_data_server.IsoTp.State.{IsoTp, IsoTpConfig, is_config_valid, is_tx_idle}
use esp32_vag_data_server.IsoTp.Frames.{map_can_status, send_frame, single_frame}
use esp32_vag_data_server.IsoTp.Sender.{start_send_tx, send_single_frame}
use esp32_vag_data_server.IsoTp.Node.{iso_tp_transport, start_send}
use esp32_vag_data_server.IsoTp.Recorder.{recording, beside}
use esp32_vag_data_server.Guard.{forwarded, start_uds_read_data_by_identifier, forward}
use esp32_vag_data_server.Uds.State.{
  Uds, UdsServiceStatus, State, awaiting_response, is_request_active, clear_result,
  begin_response_wait, set_status, finish,
}
use esp32_vag_data_server.Uds.Service.{
  request_read_data_by_identifier, prepared, start_guarded_request,
}
use esp32_vag_data_server.Stack.{beside_transport}

-- The frame of a request for the data identifier `did`.
abbrev pub did_frame : IsoTpConfig → ℕ → CanFrame
did_frame config did = record {
  id = config.tx_id;
  format = config.frame_format;
  length = 4;
  payload = 0x03 ∷ 0x22 ∷ did / 256 ∷ did % 256 ∷ 0 ∷ 0 ∷ 0 ∷ 0 ∷ [];
  timestamp = 0;
}

map_can_status-cases :
    (status : CanStatus)
    → ((status ≡ CanStatus.ok) × (map_can_status status ≡ TransportStatus.complete))
      ⊎ ((status ≢ CanStatus.ok)
          × (is_complete (map_can_status status) ≡ false)
          × (is_in_progress (map_can_status status) ≡ false))
unfolding map_can_status is_complete is_in_progress
map_can_status-cases CanStatus.ok = inl (refl, refl)
map_can_status-cases CanStatus.not_initialized = inr (ground arith, refl, refl)
map_can_status-cases CanStatus.invalid_config = inr (ground arith, refl, refl)
map_can_status-cases CanStatus.no_data = inr (ground arith, refl, refl)
map_can_status-cases CanStatus.tx_busy = inr (ground arith, refl, refl)
map_can_status-cases CanStatus.tx_failed = inr (ground arith, refl, refl)
map_can_status-cases CanStatus.driver_error = inr (ground arith, refl, refl)
map_can_status-cases CanStatus.rx_overflow = inr (ground arith, refl, refl)
map_can_status-cases CanStatus.bus_off = inr (ground arith, refl, refl)

module _ {W : Type 0} (can : CanHal W) (clock : Clock W) where
  did_request :
      (config : IsoTpConfig) (did : ℕ)
      → did < 65536
      → single_frame config (0x22 ∷ did / 256 % 256 ∷ did % 256 ∷ []) 3 ≡ did_frame config did
  unfolding single_frame
  did_request config did b = let hi : did / 256 % 256 ≡ did / 256 = omega arith in rw hi refl

  sent :
      (did : ℕ) {s : IsoTp} (w : W)
      → is_config_valid s.config ≡ true
      → is_tx_idle s.tx.state ≡ true
      → 3 ≤ s.config.max_payload
      → did < 65536
      → start_uds_read_data_by_identifier
          (iso_tp_transport (recording can) (beside clock))
          did
          (s, ([], w))
        ≡ (
          record {
            status = forwarded;
            transport_status = map_can_status (can.send (did_frame s.config did) w).0;
          },
          (s, (did_frame s.config did ∷ [], (can.send (did_frame s.config did) w).1)),
        )
  unfolding start_uds_read_data_by_identifier forward start_send start_send_tx send_single_frame
      send_frame
  sent did {s} w v i m b =
      let room : ltb s.config.max_payload 3 ≡ false = ground arith in
      rw (v, i, room, did_request s.config did b) refl

  -- A request for a data identifier of 16 bits, by a service with no request under way and timeouts
  -- above 0, over a transport that has nothing to send: the driver is given one frame, with the service
  -- 22 and the identifier's two bytes, high byte first. If it accepts the frame the service waits for
  -- the response; if not, the request has ended with TransportFailure. The transport is as it was.
  pub request-did_frame :
      (did : ℕ) (u : Uds) {s : IsoTp} (w : W)
      → is_config_valid s.config ≡ true
      → is_tx_idle s.tx.state ≡ true
      → 3 ≤ s.config.max_payload
      → did < 65536
      → is_request_active u.state ≡ false
      → 0 < u.config.response_timeout_ms
      → 0 < u.config.response_pending_timeout_ms
      → let (status, u', (s', (log, _))) =
          request_read_data_by_identifier
            (iso_tp_transport (recording can) (beside clock))
            (beside_transport (beside clock))
            did
            u
            (s, ([], w)) in
        let accepted = (can.send (did_frame s.config did) w).0 in
        (log ≡ did_frame s.config did ∷ [])
        × (s' ≡ s)
        × (((accepted ≡ CanStatus.ok)
              × (status ≡ UdsServiceStatus.in_progress)
              × (u'.state ≡ awaiting_response))
            ⊎ ((accepted ≢ CanStatus.ok)
                × (status ≡ UdsServiceStatus.transport_failure)
                × (u'.state ≡ State.idle)))
  unfolding request_read_data_by_identifier prepared start_guarded_request clear_result
      begin_response_wait set_status finish is_complete
  request-did_frame did u {s} w v i m b a p q =
      let timed : (u.config.response_timeout_ms == 0) ≡ false = ground arith in
      let patient : (u.config.response_pending_timeout_ms == 0) ≡ false = ground arith in
      let request = sent did {s = s} w v i m b in
      elim (map_can_status-cases (can.send (did_frame s.config did) w).0) [
        | inl (e, c) ↦ rw (a, timed, patient, request, c) (refl, refl, inl (e, refl, refl))
        | inr (e, n, c) ↦
            rw (a, timed, patient, request, n, c) (rw a (refl, refl, inr (e, refl, refl)))
      ]
