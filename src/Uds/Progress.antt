-- ===== src/Uds/Progress.antt =====
-- src/protocol/uds_service.h: how a request ends: refused, timed out, or at the limit of "response
-- pending" answers.
use esp32_vag_data_server.Prelude.{
  ℕ, zero, suc, ◌+◌, ◌≤◌, ◌<◌, ◌≡◌, ◌⊎◌, Bool, true, false, arith, some, if◌then◌else◌,
}
use esp32_vag_data_server.Can.{Clock}
use esp32_vag_data_server.Transport.{Received, TransportStatus, DiagnosticTransport}
use esp32_vag_data_server.Uds.State.{
  UdsServiceStatus, Uds, State, awaiting_response, is_request_active, finish, set_status,
  begin_response_wait, is_non_failing_poll_status,
}
use esp32_vag_data_server.Uds.Service.{
  handle_response, handle_negative_response, handle_data_response, handle_dtc_response, poll,
  poll_received, poll_response, poll_transmit, filled, prepared, request_read_data_by_identifier,
  request_report_dtc_by_status_mask,
}

abbrev is_pending : UdsServiceStatus → Bool
is_pending UdsServiceStatus.response_pending = true
is_pending _ = false

-- How an outcome stands to the service before it, as to "response pending" answers.
record Counted {T : Type 0} (u : Uds) (out : UdsServiceStatus × Uds × T) : Type 0 where
  config_kept : out.1.config ≡ u.config
  counted :
      out.1.pending_response_count
      ≡ (if is_pending out.0 then u.pending_response_count + 1 else u.pending_response_count)
  limited : out.1.pending_response_count ≤ u.config.max_pending_responses

module _ {T : Type 0} (transport : DiagnosticTransport T) (clock : Clock T) where
  -- A service with a request under way refuses another with Busy: it and the transport are as they
  -- were, but for the status.
  pub request-busy :
      (did mask : ℕ) (u : Uds) (t : T)
      → is_request_active u.state ≡ true
      → (request_read_data_by_identifier transport clock did u t
          ≡ (UdsServiceStatus.busy, record u { status = UdsServiceStatus.busy }, t))
        × (request_report_dtc_by_status_mask transport clock mask u t
            ≡ (UdsServiceStatus.busy, record u { status = UdsServiceStatus.busy }, t))
  unfolding request_read_data_by_identifier request_report_dtc_by_status_mask prepared set_status
  request-busy did mask u t a = ground arith

  -- A poll at or behind the deadline of a response ends the request, whatever the transport holds: with
  -- Timeout, or with TransportFailure if the transport's own poll failed; the message that the transport
  -- may hold is discarded.
  pub poll-deadline :
      (u : Uds) (t : T)
      → u.state ≡ awaiting_response
      → u.response_deadline_ms ≤ (clock.now_ms (transport.poll t).1).0
      → let (poll_status, t1) = transport.poll t in
        let (now, t2) = clock.now_ms t1 in
        let (status, u', t') = poll transport clock u t in
        (u'.state ≡ State.idle)
        × (((status ≡ UdsServiceStatus.timeout) × (t' ≡ transport.discard_pending_message t2))
            ⊎ ((status ≡ UdsServiceStatus.transport_failure)
                × (is_non_failing_poll_status poll_status ≡ false)
                × (t' ≡ transport.discard_pending_message t1)))
  unfolding poll poll_response finish
  poll-deadline u t a d = ground arith

  handle_response-Counted :
      (size : ℕ) (u : Uds) (t : T)
      → u.config.max_pending_responses < 256
      → u.pending_response_count ≤ u.config.max_pending_responses
      → Counted u (handle_response transport clock size u t)
  unfolding handle_response handle_negative_response handle_data_response handle_dtc_response finish
      set_status begin_response_wait
  handle_response-Counted size u t b l = ground arith

  poll_received-Counted :
      (received : Received) (u : Uds) (t : T)
      → u.config.max_pending_responses < 256
      → u.pending_response_count ≤ u.config.max_pending_responses
      → Counted u (poll_received transport clock received u t)
  unfolding poll_received finish set_status
  poll_received-Counted received u t b l = ground (
    arith,
    handle_response-Counted received.length
        (record u {
          last_transport_status = received.status;
          response = filled received.payload u.response;
        })
        t b l,
  )

  poll_response-Counted :
      (status : TransportStatus) (u : Uds) (t : T)
      → u.config.max_pending_responses < 256
      → u.pending_response_count ≤ u.config.max_pending_responses
      → Counted u (poll_response transport clock status u t)
  unfolding poll_response finish
  poll_response-Counted status u t b l =
      let (now, t') = clock.now_ms t in
      let (received, t'') = transport.receive (some u.response) 64 t' in
      ground (arith, poll_received-Counted received u t'' b l)

  poll_transmit-Counted :
      (status : TransportStatus) (u : Uds) (t : T)
      → u.pending_response_count ≤ u.config.max_pending_responses
      → Counted u (poll_transmit transport clock status u t)
  unfolding poll_transmit finish set_status begin_response_wait
  poll_transmit-Counted status u t l = ground arith

  poll-Counted :
      (u : Uds) (t : T)
      → u.config.max_pending_responses < 256
      → u.pending_response_count ≤ u.config.max_pending_responses
      → Counted u (poll transport clock u t)
  unfolding poll
  poll-Counted u t b l =
      let (status, t') = transport.poll t in
      let u' = record u { last_transport_status = status } in
      ground (arith, poll_transmit-Counted status u' t' l, poll_response-Counted status u' t' b l)

  -- How many of `n` polls return "response pending".
  unfoldable pub count_pending : ℕ → Uds → T → ℕ
  count_pending zero u t = 0
  count_pending (suc n) u t =
      let (status, u', t') = poll transport clock u t in
      let rest = count_pending n u' t' in if is_pending status then suc rest else rest

  -- However often a service is polled, and whatever the vehicle answers, it returns "response pending"
  -- no more often than its configuration allows for one request.
  pub count_pending-le :
      (n : ℕ) (u : Uds) (t : T)
      → u.config.max_pending_responses < 256
      → u.pending_response_count ≤ u.config.max_pending_responses
      → u.pending_response_count + count_pending n u t ≤ u.config.max_pending_responses
  unfolding count_pending
  count_pending-le zero u t b l = omega arith
  count_pending-le (suc n) u t b l =
      let (status, u', t') = poll transport clock u t in
      ground (arith, poll-Counted u t b l, count_pending-le n u' t')
