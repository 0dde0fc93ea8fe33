-- ===== src/Guard/Tests.antt =====
-- src/protocol/read_only_guard.h: the theorems at concrete inputs.
use esp32_vag_data_server.Prelude.{ℕ, ◌≡◌, ◌≢◌, ◌⊎◌, List, [], ◌∷◌, ◌++◌, Option, none, some}
use esp32_vag_data_server.Transport.{TransportStatus, DiagnosticTransport}
use esp32_vag_data_server.Guard.{ReadOnlyStatus, start_obd_single_pid}
use esp32_vag_data_server.Guard.Policy.{logged, first_pid, start_obd_single_pid-policy}

-- A transport that is always busy.
abbrev transport : DiagnosticTransport (Unit {0})
transport = record {
  start_send = λ payload size t. (TransportStatus.busy, t);
  poll = λ t. (TransportStatus.idle, t);
  receive = λ payload capacity t.
      (record { status = TransportStatus.no_data; length = 0; payload = payload }, t);
  discard_pending_message = λ t. t;
}

-- PID 0C.
abbrev engine_speed : Option (List ℕ)
engine_speed = some (0x0C ∷ [])

-- Mode 01, and the number of its PIDs.
abbrev current : ℕ
current = 0x01

abbrev one : ℕ
one = 1

start_obd_single_pid-policy_example :
    let (result, (log, t)) =
      start_obd_single_pid
        (logged transport)
        (record { mode = current; pid = engine_speed; pid_count = one })
        ([], tt) in
    ((result.status ≡ ReadOnlyStatus.forwarded)
      × (engine_speed ≢ none)
      × (one ≡ 1)
      × ((current ≡ 0x01) ⊎ (current ≡ 0x09))
      × (log ≡ [] ++ ((current ∷ first_pid engine_speed ∷ []) ∷ [])))
    ⊎ ((result.status ≢ ReadOnlyStatus.forwarded)
        × ((engine_speed ≡ none) ⊎ (one ≢ 1) ⊎ ((current ≢ 0x01) × (current ≢ 0x09)))
        × (log ≡ [])
        × (t ≡ tt))
start_obd_single_pid-policy_example =
    start_obd_single_pid-policy transport current one engine_speed [] tt
