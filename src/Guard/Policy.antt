-- ===== src/Guard/Policy.antt =====
-- src/protocol/read_only_guard.h: the requests that are read-only, and what the guard lets through.
use esp32_vag_data_server.Prelude.{
  ℕ, ◌/◌, ◌%◌, ◌≡◌, ◌≢◌, ◌⊎◌, inl, inr, refl, sym, subst, take-length, Bool, true, false, List, [],
  ◌∷◌, ◌++◌, Option, none, some, arith, length, take, get_or, All, if◌then◌else◌,
}
use esp32_vag_data_server.Can.{Clock}
use esp32_vag_data_server.Transport.{DiagnosticTransport}
use esp32_vag_data_server.Guard.{
  ReadOnlyStatus, forward, start_obd_single_pid, start_obd_stored_dtc_read,
  start_uds_read_data_by_identifier, start_uds_report_dtc_by_status_mask,
}

-- The requests that change nothing in a vehicle, by their bytes: those that docs/READ_ONLY_POLICY.md
-- lists (modes 01 and 09 with a single PID, 22 with one data identifier, 19 02 with a mask), and mode 03,
-- which README.md adds for the stored trouble codes and the policy does not list.
pub data ReadOnlyRequest : List ℕ → Type 0 where
  current_data : (pid : ℕ) → ReadOnlyRequest (0x01 ∷ pid ∷ [])
  vehicle_information : (pid : ℕ) → ReadOnlyRequest (0x09 ∷ pid ∷ [])
  stored_dtcs : ReadOnlyRequest (0x03 ∷ [])
  read_data_by_identifier : (hi lo : ℕ) → ReadOnlyRequest (0x22 ∷ hi ∷ lo ∷ [])
  report_dtc_by_status_mask : (mask : ℕ) → ReadOnlyRequest (0x19 ∷ 0x02 ∷ mask ∷ [])

-- What the calls behind the guard keep of a transport's state: a property that no poll, receive,
-- discard or clock reading breaks, and no request that is read-only.
pub record Keeps {T : Type 0} (transport : DiagnosticTransport T) (clock : Clock T) (P : T → Type 0)
    : Type 0 where
  pub sends :
      (payload : List ℕ) (t : T)
      → ReadOnlyRequest payload
      → P t
      → P (transport.start_send (some payload) (length payload) t).1
  pub polls : (t : T) → P t → P (transport.poll t).1
  pub receives :
      (payload : Option (List ℕ)) (capacity : ℕ) (t : T)
      → P t
      → P (transport.receive payload capacity t).1
  pub discards : (t : T) → P t → P (transport.discard_pending_message t)
  pub reads : (t : T) → P t → P (clock.now_ms t).1

-- A transport with a record of the requests that it was given, and the clock beside it.
abbrev pub logged : {T : Type 0} → DiagnosticTransport T → DiagnosticTransport (List (List ℕ) × T)
logged transport = record {
  start_send = λ payload size t.
      let (status, t') = transport.start_send payload size t.1 in
      (status, (elim payload [ none ↦ t.0 | some bytes ↦ t.0 ++ (take size bytes ∷ []) ], t'));
  poll = λ t. let (status, t') = transport.poll t.1 in (status, (t.0, t'));
  receive = λ payload capacity t.
      let (received, t') = transport.receive payload capacity t.1 in (received, (t.0, t'));
  discard_pending_message = λ t. (t.0, transport.discard_pending_message t.1);
}

abbrev pub ticking : {T : Type 0} → Clock T → Clock (List (List ℕ) × T)
ticking clock = record { now_ms = λ t. let (now, t') = clock.now_ms t.1 in (now, (t.0, t')) }

abbrev pub IsReadOnlyLog : {T : Type 0} → List (List ℕ) × T → Type 0
IsReadOnlyLog t = All ReadOnlyRequest t.0

pub All-snoc {ℓ κ} :
    {A : Type ℓ} (P : A → Type κ) (xs : List A) (x : A) → All P xs → P x → All P (xs ++ (x ∷ []))
All-snoc P [] x h p = (p, tt)
All-snoc P (y ∷ ys) x h p = (h.0, All-snoc P ys x h.1 p)

pub logged-Keeps :
    {T : Type 0} (transport : DiagnosticTransport T) (clock : Clock T)
    → Keeps (logged transport) (ticking clock) IsReadOnlyLog
logged-Keeps transport clock = record {
  sends = λ payload t r h.
      subst (λ bytes. All ReadOnlyRequest (t.0 ++ (bytes ∷ [])))
        (sym (take-length (length payload) payload (omega arith)))
        (All-snoc ReadOnlyRequest t.0 payload h r);
  polls = λ t h. h;
  receives = λ payload capacity t h. h;
  discards = λ t h. h;
  reads = λ t h. h;
}

module _ {T : Type 0} {transport : DiagnosticTransport T} {clock : Clock T} {P : T → Type 0}
    (keeps : Keeps transport clock P) where
  pub start_uds_read_data_by_identifier-Keeps :
      (did : ℕ) (t : T) → P t → P (start_uds_read_data_by_identifier transport did t).1
  unfolding start_uds_read_data_by_identifier forward
  start_uds_read_data_by_identifier-Keeps did t h =
      keeps.sends (0x22 ∷ did / 256 % 256 ∷ did % 256 ∷ []) t (read_data_by_identifier _ _) h

  pub start_uds_report_dtc_by_status_mask-Keeps :
      (mask : ℕ) (t : T) → P t → P (start_uds_report_dtc_by_status_mask transport mask t).1
  unfolding start_uds_report_dtc_by_status_mask forward
  start_uds_report_dtc_by_status_mask-Keeps mask t h =
      keeps.sends (0x19 ∷ 0x02 ∷ mask ∷ []) t (report_dtc_by_status_mask _) h

  -- A single PID of mode 01 or 09.
  pub start_obd_single_pid-Keeps :
      (mode pid : ℕ) (t : T)
      → (mode ≡ 0x01) ⊎ (mode ≡ 0x09)
      → P t
      → P
          (start_obd_single_pid transport
            (record { mode = mode; pid = some (pid ∷ []); pid_count = 1 })
            t).1
  unfolding start_obd_single_pid forward
  start_obd_single_pid-Keeps mode pid t (inl e) h =
      rw e (keeps.sends (0x01 ∷ pid ∷ []) t (current_data pid) h)
  start_obd_single_pid-Keeps mode pid t (inr e) h =
      rw e (keeps.sends (0x09 ∷ pid ∷ []) t (vehicle_information pid) h)

  pub start_obd_stored_dtc_read-Keeps : (t : T) → P t → P (start_obd_stored_dtc_read transport t).1
  unfolding start_obd_stored_dtc_read forward
  start_obd_stored_dtc_read-Keeps t h = keeps.sends (0x03 ∷ []) t stored_dtcs h

abbrev pub first_pid : Option (List ℕ) → ℕ
first_pid none = 0
first_pid (some pid) = get_or pid 0 0

-- The guard's decision on a single-PID request, on every input: either it is forwarded, and then the
-- request names exactly one PID and mode 01 or 09, and the transport was given just that mode and PID;
-- or it is not forwarded, the request has another mode, another number of PIDs or none, and the
-- transport is as it was.
pub start_obd_single_pid-policy :
    {T : Type 0} (transport : DiagnosticTransport T) (mode pid_count : ℕ) (pid : Option (List ℕ))
    (log : List (List ℕ)) (t : T)
    → let (result, (log', t')) =
        start_obd_single_pid
          (logged transport)
          (record { mode = mode; pid = pid; pid_count = pid_count })
          (log, t) in
      ((result.status ≡ ReadOnlyStatus.forwarded)
        × (pid ≢ none)
        × (pid_count ≡ 1)
        × ((mode ≡ 0x01) ⊎ (mode ≡ 0x09))
        × (log' ≡ log ++ ((mode ∷ first_pid pid ∷ []) ∷ [])))
      ⊎ ((result.status ≢ ReadOnlyStatus.forwarded)
          × ((pid ≡ none) ⊎ (pid_count ≢ 1) ⊎ ((mode ≢ 0x01) × (mode ≢ 0x09)))
          × (log' ≡ log)
          × (t' ≡ t))
unfolding start_obd_single_pid forward
start_obd_single_pid-policy transport mode pid_count none log t =
    inr (ground arith, inl refl, refl, refl)
start_obd_single_pid-policy transport mode pid_count (some pid) log t = ground arith

-- An outcome of a service: its status, the service and the transport, of which `P` holds.
pub record Held {A B T : Type 0} (P : T → Type 0) (out : A × B × T) : Type 0 where
  pub held : P out.2

pub Held-if :
    {A B T : Type 0} {P : T → Type 0} (b : Bool) (x y : A × B × T)
    → Held P x
    → Held P y
    → Held P (if b then x else y)
Held-if true x y p q = p
Held-if false x y p q = q
