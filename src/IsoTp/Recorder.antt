-- ===== src/IsoTp/Recorder.antt =====
-- A CAN driver with a record of the frames that it was given, and the clock beside it. The driver
-- itself (src/hal/can_hal.h) is a parameter.
use esp32_vag_data_server.Prelude.{List, [], ◌∷◌, ◌++◌}
use esp32_vag_data_server.Can.{CanFrame, CanHal, Clock}

abbrev pub recording : {W : Type 0} → CanHal W → CanHal (List CanFrame × W)
recording can = record {
  send = λ frame t. let (status, w) = can.send frame t.1 in (status, (t.0 ++ (frame ∷ []), w));
}

abbrev pub beside : {W : Type 0} → Clock W → Clock (List CanFrame × W)
beside clock = record { now_ms = λ t. let (now, w) = clock.now_ms t.1 in (now, (t.0, w)) }
