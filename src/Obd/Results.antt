-- ===== src/Obd/Results.antt =====
-- src/protocol/obd_service.h: `poll` at the deadline, and the results of `handleResponse` for current
-- data, supported PIDs and the VIN.
use esp32_vag_data_server.Prelude.{
  ℕ, suc, ◌-◌, ◌/◌, ◌%◌, ◌^◌, ◌≤◌, ◌<◌, ◌≡◌, ◌≢◌, ◌⊎◌, refl, false, List, ◌∷◌, ◌++◌, arith, length,
  take, take-append, take-write_at, write_at, get_or,
}
use esp32_vag_data_server.Can.{Clock}
use esp32_vag_data_server.Transport.{DiagnosticTransport}
use esp32_vag_data_server.Obd.State.{
  ObdServiceStatus, Obd, State, awaiting_response, RequestKind, current_data, supported_pids,
  is_non_failing_poll_status, finish, set_status, expected_positive_service,
}
use esp32_vag_data_server.Obd.Service.{
  handle_response, handle_kind, handle_current_data, handle_supported_pids, handle_vin, poll,
  poll_response,
}

module _ {T : Type 0} (transport : DiagnosticTransport T) (clock : Clock T) where
  -- A poll at or behind the deadline of a response ends the request, whatever the transport holds: with
  -- Timeout, or with TransportFailure if the transport's own poll failed; the message that the transport
  -- may hold is discarded.
  pub poll-overdue :
      (u : Obd) (t : T)
      → u.state ≡ awaiting_response
      → u.response_deadline_ms ≤ (clock.now_ms (transport.poll t).1).0
      → let (poll_status, t1) = transport.poll t in
        let (now, t2) = clock.now_ms t1 in
        let (status, u', t') = poll transport clock u t in
        (u'.state ≡ State.idle)
        × (((status ≡ ObdServiceStatus.timeout) × (t' ≡ transport.discard_pending_message t2))
            ⊎ ((status ≡ ObdServiceStatus.transport_failure)
                × (is_non_failing_poll_status poll_status ≡ false)
                × (t' ≡ transport.discard_pending_message t1)))
  unfolding poll poll_response finish
  poll-overdue u t a d = ground arith

  -- A response of another service, or for another PID, does not end the request and changes nothing but
  -- the status.
  pub handle_response-other :
      (size : ℕ) (u : Obd) (t : T)
      → (get_or u.response 0 0 ≢ expected_positive_service u.request_kind)
        ⊎ ((u.request_kind ≡ current_data) × (get_or u.response 1 0 ≢ u.requested_pid))
        ⊎ ((u.request_kind ≡ supported_pids) × (get_or u.response 1 0 ≢ u.requested_pid))
        ⊎ ((u.request_kind ≡ RequestKind.vin) × (get_or u.response 1 0 ≢ u.requested_pid))
      → handle_response transport clock size u t ≡ (
        ObdServiceStatus.unexpected_response,
        record u { status = ObdServiceStatus.unexpected_response },
        t,
      )
  unfolding handle_response set_status
  handle_response-other size u t h = ground arith

  -- The response of at most 64 bytes with current data for the requested PID ends the request with
  -- ResponseReady and delivers the bytes behind the PID: their number, and the bytes in the front of the
  -- result buffer of 64.
  pub handle_response-current_data :
      (b : ℕ) (bytes junk : List ℕ) (u : Obd) (t : T)
      → u.request_kind ≡ current_data
      → length bytes ≤ 61
      → length u.raw_data ≡ 64
      → let response = 0x41 ∷ u.requested_pid ∷ b ∷ bytes in
        let (status, u', _) =
          handle_response transport clock
            (length response)
            (record u { response = response ++ junk })
            t in
        (status ≡ ObdServiceStatus.response_ready)
        × (u'.state ≡ State.idle)
        × (u'.raw_data_length ≡ suc (length bytes))
        × (take (suc (length bytes)) u'.raw_data ≡ b ∷ bytes)
  unfolding handle_response handle_kind handle_current_data finish
  handle_response-current_data b bytes junk u t k l m =
      let taken : take (suc (length bytes)) (b ∷ (bytes ++ junk)) ≡ b ∷ bytes =
        take-append (b ∷ bytes) junk (suc (length bytes)) refl in
      let stored : take (suc (length bytes)) (write_at u.raw_data 0 (b ∷ bytes)) ≡ b ∷ bytes =
        take-write_at u.raw_data 0 (suc (length bytes)) (b ∷ bytes) (omega arith) (omega arith) in
      let size : suc (suc (suc (length bytes))) - 2 ≡ suc (length bytes) = omega arith in
      ground (arith, taken, stored, size)

  -- A response of six bytes with supported PIDs for the requested block is ready, and the bitmap is a
  -- 32-bit number of its last four bytes, the first of them highest.
  pub handle_response-supported_pids :
      (a b c d : ℕ) (junk : List ℕ) (u : Obd) (t : T)
      → u.request_kind ≡ supported_pids
      → a < 256
      → b < 256
      → c < 256
      → d < 256
      → let (status, u', _) =
          handle_response transport clock 6
            (record u { response = 0x41 ∷ u.requested_pid ∷ a ∷ b ∷ c ∷ d ∷ junk })
            t in
        (status ≡ ObdServiceStatus.response_ready)
        × (u'.supported_pid_bitmap < 2 ^ 32)
        × (u'.supported_pid_bitmap / 2 ^ 24 ≡ a)
        × (u'.supported_pid_bitmap / 2 ^ 16 % 256 ≡ b)
        × (u'.supported_pid_bitmap / 2 ^ 8 % 256 ≡ c)
        × (u'.supported_pid_bitmap % 256 ≡ d)
  unfolding handle_response handle_kind handle_supported_pids finish
  handle_response-supported_pids a b c d junk u t k p q r s = ground arith

  -- A response to a request for the VIN with the item number 1 and seventeen bytes ends the request with
  -- ResponseReady, and the service has those bytes.
  pub handle_response-vin :
      (vin junk : List ℕ) (u : Obd) (t : T)
      → u.request_kind ≡ RequestKind.vin
      → u.requested_pid ≡ 0x02
      → length vin ≡ 17
      → length u.vin ≡ 17
      → let response = 0x49 ∷ 0x02 ∷ 0x01 ∷ vin in
        let (status, u', _) =
          handle_response transport clock
            (length response)
            (record u { response = response ++ junk })
            t in
        (status ≡ ObdServiceStatus.response_ready)
        × (u'.state ≡ State.idle)
        × (take 17 u'.vin ≡ vin)
  unfolding handle_response handle_kind handle_vin finish
  handle_response-vin vin junk u t k p l m =
      let taken : take 17 (vin ++ junk) ≡ vin = take-append vin junk 17 (omega arith) in
      let stored : take 17 (write_at u.vin 0 vin) ≡ vin =
        take-write_at u.vin 0 17 vin (omega arith) (omega arith) in
      ground (arith, taken, stored)
