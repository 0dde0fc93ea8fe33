-- ===== src/Stack.antt =====
-- src/protocol/uds_service.h over src/protocol/read_only_guard.h and src/protocol/isotp_transport.h: the
-- service, its transport, and the frames that the owner of the CAN driver hands to it in between.
pub mod Permitted
pub mod Bus
pub mod Request
mod Tests
use esp32_vag_data_server.Prelude.{List, [], ◌∷◌}
use esp32_vag_data_server.Can.{CanFrame, CanHal, Clock}
use esp32_vag_data_server.IsoTp.State.{IsoTp}
use esp32_vag_data_server.IsoTp.Node.{iso_tp_transport, on_can_frame}
use esp32_vag_data_server.Uds.State.{Uds}
use esp32_vag_data_server.Uds.Safety.{UdsCall}
use esp32_vag_data_server.Uds.Safety

-- A clock as the service reads it, beside a transport.
abbrev pub beside_transport : {W : Type 0} → Clock W → Clock (IsoTp × W)
beside_transport clock = record { now_ms = λ t. let (now, w) = clock.now_ms t.1 in (now, (t.0, w)) }

-- What happens to the two: a call of the service, or a frame from the bus.
pub data Event : Type 0 where
  calls : UdsCall → Event
  hears : CanFrame → Event

module _ {W : Type 0} (can : CanHal W) (clock : Clock W) where
  unfoldable pub step : Event → Uds → IsoTp × W → Uds × (IsoTp × W)
  step (calls c) u t =
      let (status, u', t') =
        Safety.perform (iso_tp_transport can clock) (beside_transport clock) c u t in
      (u', t')
  step (hears frame) u t = let (status, s, w) = on_can_frame can clock t.0 frame t.1 in (u, (s, w))

  unfoldable pub run : List Event → Uds → IsoTp × W → Uds × (IsoTp × W)
  run [] u t = (u, t)
  run (e ∷ es) u t = let (u', t') = step e u t in run es u' t'
