-- ===== src/Uds/Safety.antt =====
-- src/protocol/uds_service.h and docs/READ_ONLY_POLICY.md: what the service can do to a transport.
use esp32_vag_data_server.Prelude.{
  ℕ, ◌≡◌, refl, Bool, true, false, List, [], ◌∷◌, All, if◌then◌else◌,
}
use esp32_vag_data_server.Can.{Clock}
use esp32_vag_data_server.Transport.{TransportStatus, Received, DiagnosticTransport}
use esp32_vag_data_server.Guard.{
  ReadOnlyStatus, forwarded, policy_denied, invalid_request, ReadOnlyResult,
}
use esp32_vag_data_server.Guard.Policy.{
  ReadOnlyRequest, Keeps, logged, ticking, logged-Keeps, Held, Held-if,
  start_uds_read_data_by_identifier-Keeps, start_uds_report_dtc_by_status_mask-Keeps,
}
use esp32_vag_data_server.Uds.State.{
  UdsServiceConfig, UdsServiceStatus, Uds, is_request_active, new, set_status,
  finish_without_transport, finish, begin_response_wait,
}
use esp32_vag_data_server.Uds.Service.{
  handle_negative_response, handle_dtc_response, handle_data_response, handle_response,
  poll_received, poll_response, poll_transmit, poll, start_guarded_request, prepared,
  request_read_data_by_identifier, request_report_dtc_by_status_mask,
}

-- The calls that an owner of the service may make.
pub data UdsCall : Type 0 where
  reads_data : ℕ → UdsCall
  reports_dtcs : ℕ → UdsCall
  polls : UdsCall

module _ {T : Type 0} (transport : DiagnosticTransport T) (clock : Clock T) where
  unfoldable pub perform : UdsCall → Uds → T → UdsServiceStatus × Uds × T
  perform (reads_data did) = request_read_data_by_identifier transport clock did
  perform (reports_dtcs mask) = request_report_dtc_by_status_mask transport clock mask
  perform polls = poll transport clock

  unfoldable pub perform_all : List UdsCall → Uds → T → Uds × T
  perform_all [] u t = (u, t)
  perform_all (c ∷ cs) u t = let (status, u', t') = perform c u t in perform_all cs u' t'

module _ {T : Type 0} {transport : DiagnosticTransport T} {clock : Clock T} {P : T → Type 0}
    (keeps : Keeps transport clock P) where
  finish-Held :
      (status : UdsServiceStatus) (u : Uds) (t : T) → P t → Held P (finish transport status u t)
  unfolding finish
  finish-Held status u t h = record { held = either (is_request_active u.state) }
    where
      either : (b : Bool) → P (if b then transport.discard_pending_message t else t)
      either true = keeps.discards t h
      either false = h

  finish_without_transport-Held :
      (status : UdsServiceStatus) (u : Uds) (t : T)
      → P t
      → Held P (finish_without_transport status u t)
  unfolding finish_without_transport
  finish_without_transport-Held status u t h = record { held = h }

  set_status-Held :
      (status : UdsServiceStatus) (u : Uds) (t : T) → P t → Held P (set_status status u t)
  unfolding set_status
  set_status-Held status u t h = record { held = h }

  unchanged : (status : UdsServiceStatus) (u : Uds) (t : T) → P t → Held P (status, u, t)
  unchanged status u t h = record { held = h }

  begin_response_wait-Keeps :
      (timeout : ℕ) (u : Uds) (t : T) → P t → P (begin_response_wait clock timeout u t).1
  unfolding begin_response_wait
  begin_response_wait-Keeps timeout u t h = keeps.reads t h

  ruleset endings = (Held-if, finish-Held, finish_without_transport-Held, set_status-Held)

  handle_negative_response-Held :
      (size : ℕ) (u : Uds) (t : T)
      → P t
      → Held P (handle_negative_response transport clock size u t)
  unfolding handle_negative_response
  handle_negative_response-Held size u t h = search (endings, begin_response_wait-Keeps) depth 9

  handle_dtc_response-Held :
      (size : ℕ) (u : Uds) (t : T) → P t → Held P (handle_dtc_response transport clock size u t)
  unfolding handle_dtc_response
  handle_dtc_response-Held size u t h = search endings depth 9

  handle_data_response-Held :
      (size : ℕ) (u : Uds) (t : T) → P t → Held P (handle_data_response transport clock size u t)
  unfolding handle_data_response
  handle_data_response-Held size u t h = search endings depth 9

  handle_response-Held :
      (size : ℕ) (u : Uds) (t : T) → P t → Held P (handle_response transport clock size u t)
  unfolding handle_response
  handle_response-Held size u t h =
      search
        (
          endings, handle_negative_response-Held, handle_dtc_response-Held,
          handle_data_response-Held,
        )
        depth 9

  poll_received-Held :
      (received : Received) (u : Uds) (t : T)
      → P t
      → Held P (poll_received transport clock received u t)
  unfolding poll_received
  poll_received-Held received u t h = search (endings, handle_response-Held) depth 9

  poll_response-Held :
      (status : TransportStatus) (u : Uds) (t : T)
      → P t
      → Held P (poll_response transport clock status u t)
  unfolding poll_response
  poll_response-Held status u t h =
      search (endings, poll_received-Held, keeps.reads, keeps.receives) depth 9

  poll_transmit-Held :
      (status : TransportStatus) (u : Uds) (t : T)
      → P t
      → Held P (poll_transmit transport clock status u t)
  unfolding poll_transmit
  poll_transmit-Held status u t h = search (endings, begin_response_wait-Keeps) depth 9

  poll-Held : (u : Uds) (t : T) → P t → Held P (poll transport clock u t)
  unfolding poll
  poll-Held u t h =
      search (endings, unchanged, poll_transmit-Held, poll_response-Held, keeps.polls) depth 9

  start_guarded_request-Held :
      (out : ReadOnlyResult × T) (u : Uds)
      → P out.1
      → Held P (start_guarded_request transport clock out u)
  unfolding start_guarded_request
  start_guarded_request-Held (record_result, t) u h = decide record_result.status refl
    where
      decide :
          (s : ReadOnlyStatus)
          → record_result.status ≡ s
          → Held P (start_guarded_request transport clock (record_result, t) u)
      decide forwarded e =
          rw (e, start_guarded_request) (search (endings, begin_response_wait-Keeps) depth 9)
      decide policy_denied e = rw (e, start_guarded_request) (finish_without_transport-Held _ _ t h)
      decide invalid_request e =
          rw (e, start_guarded_request) (finish_without_transport-Held _ _ t h)

  prepared-Held :
      (start : Uds → T → UdsServiceStatus × Uds × T) (u : Uds) (t : T)
      → ((u' : Uds) → Held P (start u' t))
      → P t
      → Held P (prepared transport clock start u t)
  unfolding prepared
  prepared-Held start u t k h = search (endings, k) depth 9

  pub perform-Held : (c : UdsCall) (u : Uds) (t : T) → P t → Held P (perform transport clock c u t)
  unfolding perform request_read_data_by_identifier request_report_dtc_by_status_mask
  perform-Held (reads_data did) u t h =
      prepared-Held _ u t
        (λ u'.
          start_guarded_request-Held _ _ (start_uds_read_data_by_identifier-Keeps keeps did t h))
        h
  perform-Held (reports_dtcs mask) u t h =
      prepared-Held _ u t
        (λ u'.
          start_guarded_request-Held _ _ (start_uds_report_dtc_by_status_mask-Keeps keeps mask t h))
        h
  perform-Held polls u t h = poll-Held u t h

  perform_all-Keeps :
      (calls : List UdsCall) (u : Uds) (t : T) → P t → P (perform_all transport clock calls u t).1
  unfolding perform_all
  perform_all-Keeps [] u t h = h
  perform_all-Keeps (c ∷ cs) u t h =
      let (status, u', t') = perform transport clock c u t in
      perform_all-Keeps cs u' t' (perform-Held c u t h).held

-- Whatever calls are made of the service, with whatever transport and clock, and whatever the vehicle
-- answers, every request that the transport is given is one of the read-only requests.
pub perform_all-read_only :
    {T : Type 0} (transport : DiagnosticTransport T) (clock : Clock T) (config : UdsServiceConfig)
    (calls : List UdsCall) (t : T)
    → All ReadOnlyRequest
        (perform_all (logged transport) (ticking clock) calls (new config) ([], t)).1.0
perform_all-read_only transport clock config calls t =
    perform_all-Keeps (logged-Keeps transport clock) calls (new config) ([], t) tt
