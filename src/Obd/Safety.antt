-- ===== src/Obd/Safety.antt =====
-- src/protocol/obd_service.h and docs/READ_ONLY_POLICY.md: what the service can do to a transport.
use esp32_vag_data_server.Prelude.{
  ℕ, ◌≡◌, ◌⊎◌, inl, inr, refl, Bool, true, false, not, List, [], ◌∷◌, Option, none, some, All,
  if◌then◌else◌,
}
use esp32_vag_data_server.Can.{Clock}
use esp32_vag_data_server.Transport.{TransportStatus, Received, DiagnosticTransport}
use esp32_vag_data_server.Guard.{
  ReadOnlyStatus, forwarded, policy_denied, invalid_request, ReadOnlyResult,
}
use esp32_vag_data_server.Guard.Policy.{
  ReadOnlyRequest, Keeps, logged, ticking, logged-Keeps, Held, Held-if, start_obd_single_pid-Keeps,
  start_obd_stored_dtc_read-Keeps,
}
use esp32_vag_data_server.Obd.State.{
  ObdServiceConfig, ObdServiceStatus, Obd, ObdDtcRecord, RequestKind, current_data, supported_pids,
  is_request_active, is_supported_pid_block_base, new, set_status, finish_without_transport, finish,
  begin_response_wait,
}
use esp32_vag_data_server.Obd.Service.{
  finish_dtcs, commit_dtcs, handle_current_data, handle_supported_pids, handle_vin,
  handle_stored_dtcs, handle_kind, handle_response, poll_received, poll_response, poll_transmit,
  poll, begin_transport, prepared, begin_request, request_current_data, request_supported_pids,
  request_vin, request_stored_dtcs,
}

-- The calls that an owner of the service may make.
pub data ObdCall : Type 0 where
  reads_current_data : ℕ → ObdCall
  reads_supported_pids : ℕ → ObdCall
  reads_vin reads_stored_dtcs polls : ObdCall

module _ {T : Type 0} (transport : DiagnosticTransport T) (clock : Clock T) where
  unfoldable pub perform : ObdCall → Obd → T → ObdServiceStatus × Obd × T
  perform (reads_current_data pid) = request_current_data transport clock pid
  perform (reads_supported_pids base_pid) = request_supported_pids transport clock base_pid
  perform reads_vin = request_vin transport clock
  perform reads_stored_dtcs = request_stored_dtcs transport clock
  perform polls = poll transport clock

  unfoldable pub perform_all : List ObdCall → Obd → T → Obd × T
  perform_all [] u t = (u, t)
  perform_all (c ∷ cs) u t = let (status, u', t') = perform c u t in perform_all cs u' t'

module _ {T : Type 0} {transport : DiagnosticTransport T} {clock : Clock T} {P : T → Type 0}
    (keeps : Keeps transport clock P) where
  finish-Held :
      (status : ObdServiceStatus) (u : Obd) (t : T) → P t → Held P (finish transport status u t)
  unfolding finish
  finish-Held status u t h = record { held = either (is_request_active u.state) }
    where
      either : (b : Bool) → P (if b then transport.discard_pending_message t else t)
      either true = keeps.discards t h
      either false = h

  finish_without_transport-Held :
      (status : ObdServiceStatus) (u : Obd) (t : T)
      → P t
      → Held P (finish_without_transport status u t)
  unfolding finish_without_transport
  finish_without_transport-Held status u t h = record { held = h }

  set_status-Held :
      (status : ObdServiceStatus) (u : Obd) (t : T) → P t → Held P (set_status status u t)
  unfolding set_status
  set_status-Held status u t h = record { held = h }

  unchanged : (status : ObdServiceStatus) (u : Obd) (t : T) → P t → Held P (status, u, t)
  unchanged status u t h = record { held = h }

  begin_response_wait-Keeps : (u : Obd) (t : T) → P t → P (begin_response_wait clock u t).1
  unfolding begin_response_wait
  begin_response_wait-Keeps u t h = keeps.reads t h

  ruleset endings = (Held-if, finish-Held, finish_without_transport-Held, set_status-Held)

  handle_current_data-Held :
      (size : ℕ) (u : Obd) (t : T) → P t → Held P (handle_current_data transport clock size u t)
  unfolding handle_current_data
  handle_current_data-Held size u t h = search endings depth 9

  handle_supported_pids-Held :
      (size : ℕ) (u : Obd) (t : T) → P t → Held P (handle_supported_pids transport clock size u t)
  unfolding handle_supported_pids
  handle_supported_pids-Held size u t h = search endings depth 9

  handle_vin-Held :
      (size : ℕ) (u : Obd) (t : T) → P t → Held P (handle_vin transport clock size u t)
  unfolding handle_vin
  handle_vin-Held size u t h = search endings depth 9

  finish_dtcs-Held :
      (parsed : Option (List ObdDtcRecord)) (u : Obd) (t : T)
      → P t
      → Held P (finish_dtcs transport clock parsed u t)
  unfolding finish_dtcs
  finish_dtcs-Held none u t h = finish-Held _ u t h
  finish_dtcs-Held (some parsed) u t h = finish-Held _ (commit_dtcs parsed u) t h

  handle_stored_dtcs-Held :
      (size : ℕ) (u : Obd) (t : T) → P t → Held P (handle_stored_dtcs transport clock size u t)
  unfolding handle_stored_dtcs
  handle_stored_dtcs-Held size u t h = search (endings, finish_dtcs-Held) depth 9

  handle_kind-Held :
      (kind : RequestKind) (size : ℕ) (u : Obd) (t : T)
      → P t
      → Held P (handle_kind transport clock kind size u t)
  unfolding handle_kind
  handle_kind-Held RequestKind.none size u t h = finish-Held _ u t h
  handle_kind-Held current_data size u t h = handle_current_data-Held size u t h
  handle_kind-Held supported_pids size u t h = handle_supported_pids-Held size u t h
  handle_kind-Held RequestKind.vin size u t h = handle_vin-Held size u t h
  handle_kind-Held RequestKind.stored_dtcs size u t h = handle_stored_dtcs-Held size u t h

  handle_response-Held :
      (size : ℕ) (u : Obd) (t : T) → P t → Held P (handle_response transport clock size u t)
  unfolding handle_response
  handle_response-Held size u t h = search (endings, handle_kind-Held) depth 9

  poll_received-Held :
      (received : Received) (u : Obd) (t : T)
      → P t
      → Held P (poll_received transport clock received u t)
  unfolding poll_received
  poll_received-Held received u t h = search (endings, handle_response-Held) depth 9

  poll_response-Held :
      (status : TransportStatus) (u : Obd) (t : T)
      → P t
      → Held P (poll_response transport clock status u t)
  unfolding poll_response
  poll_response-Held status u t h =
      search (endings, poll_received-Held, keeps.reads, keeps.receives) depth 9

  poll_transmit-Held :
      (status : TransportStatus) (u : Obd) (t : T)
      → P t
      → Held P (poll_transmit transport clock status u t)
  unfolding poll_transmit
  poll_transmit-Held status u t h = search (endings, begin_response_wait-Keeps) depth 9

  poll-Held : (u : Obd) (t : T) → P t → Held P (poll transport clock u t)
  unfolding poll
  poll-Held u t h =
      search (endings, unchanged, poll_transmit-Held, poll_response-Held, keeps.polls) depth 9

  begin_transport-Held :
      (out : ReadOnlyResult × T) (u : Obd)
      → P out.1
      → Held P (begin_transport transport clock out u)
  unfolding begin_transport
  begin_transport-Held (record_result, t) u h = decide record_result.status refl
    where
      decide :
          (s : ReadOnlyStatus)
          → record_result.status ≡ s
          → Held P (begin_transport transport clock (record_result, t) u)
      decide forwarded e =
          rw (e, begin_transport) (search (endings, begin_response_wait-Keeps) depth 9)
      decide policy_denied e = rw (e, begin_transport) (finish_without_transport-Held _ _ t h)
      decide invalid_request e = rw (e, begin_transport) (finish_without_transport-Held _ _ t h)

  prepared-Held :
      (kind : RequestKind) (start : Obd → T → ObdServiceStatus × Obd × T) (u : Obd) (t : T)
      → ((u' : Obd) → Held P (start u' t))
      → P t
      → Held P (prepared transport clock kind start u t)
  unfolding prepared
  prepared-Held kind start u t k h = search (endings, k) depth 9

  begin_request-Held :
      (mode pid : ℕ) (kind : RequestKind) (u : Obd) (t : T)
      → (mode ≡ 0x01) ⊎ (mode ≡ 0x09)
      → P t
      → Held P (begin_request transport clock mode pid kind u t)
  unfolding begin_request
  begin_request-Held mode pid kind u t m h =
      prepared-Held kind _ u t
        (λ u'. begin_transport-Held _ _ (start_obd_single_pid-Keeps keeps mode pid t m h)) h

  request_supported_pids-Held :
      (base_pid : ℕ) (u : Obd) (t : T)
      → P t
      → Held P (request_supported_pids transport clock base_pid u t)
  unfolding request_supported_pids
  request_supported_pids-Held base_pid u t h =
      Held-if (is_request_active u.state) _ _ (set_status-Held _ u t h) (
        Held-if (not (is_supported_pid_block_base base_pid)) _ _
          (finish_without_transport-Held _ u t h)
          (begin_request-Held 0x01 base_pid supported_pids u t (inl refl) h))

  pub perform-Held : (c : ObdCall) (u : Obd) (t : T) → P t → Held P (perform transport clock c u t)
  unfolding perform request_current_data request_supported_pids request_vin request_stored_dtcs
  perform-Held (reads_current_data pid) u t h =
      begin_request-Held 0x01 pid current_data u t (inl refl) h
  perform-Held (reads_supported_pids base_pid) u t h = request_supported_pids-Held base_pid u t h
  perform-Held reads_vin u t h = begin_request-Held 0x09 0x02 RequestKind.vin u t (inr refl) h
  perform-Held reads_stored_dtcs u t h =
      prepared-Held _ _ u t
        (λ u'. begin_transport-Held _ _ (start_obd_stored_dtc_read-Keeps keeps t h)) h
  perform-Held polls u t h = poll-Held u t h

  perform_all-Keeps :
      (calls : List ObdCall) (u : Obd) (t : T) → P t → P (perform_all transport clock calls u t).1
  unfolding perform_all
  perform_all-Keeps [] u t h = h
  perform_all-Keeps (c ∷ cs) u t h =
      let (status, u', t') = perform transport clock c u t in
      perform_all-Keeps cs u' t' (perform-Held c u t h).held

-- Whatever calls are made of a new service, with whatever transport and clock, and whatever the vehicle
-- answers, every request that the transport is given is one of the read-only requests.
pub perform_all-logged :
    {T : Type 0} (transport : DiagnosticTransport T) (clock : Clock T) (config : ObdServiceConfig)
    (calls : List ObdCall) (t : T)
    → All ReadOnlyRequest
        (perform_all (logged transport) (ticking clock) calls (new config) ([], t)).1.0
perform_all-logged transport clock config calls t =
    perform_all-Keeps (logged-Keeps transport clock) calls (new config) ([], t) tt
