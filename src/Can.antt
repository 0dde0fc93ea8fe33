-- ===== src/Can.antt =====
-- src/core/can_types.h, src/core/clock.h and src/hal/can_hal.h: classic CAN frames, and the two
-- interfaces of the platform that the protocol code uses.
use esp32_vag_data_server.Prelude.{ℕ, Bool, true, false, not, List, [], ◌∷◌, leb, if◌then◌else◌}

-- `CanFrameFormat`.
pub data CanFrameFormat : Type 0 where
  standard extended : CanFrameFormat

-- `operator==` of the enumeration.
abbrev pub format_eq : CanFrameFormat → CanFrameFormat → Bool
format_eq standard standard = true
format_eq standard extended = false
format_eq extended standard = false
format_eq extended extended = true

-- `CanStatus`.
pub data CanStatus : Type 0 where
  ok not_initialized invalid_config no_data tx_busy tx_failed driver_error rx_overflow bus_off :
      CanStatus

abbrev pub classic_can_max_payload : ℕ
classic_can_max_payload = 8

-- `CanFrame`. The payload stands for an array of `classic_can_max_payload` bytes.
pub record CanFrame : Type 0 where
  pub id : ℕ
  pub format : CanFrameFormat
  pub length : ℕ
  pub payload : List ℕ
  pub timestamp : ℕ

abbrev pub id_limit : CanFrameFormat → ℕ
id_limit standard = 0x7FF
id_limit extended = 0x1FFFFFFF

-- `CanFrame::isValid`.
abbrev pub is_valid : CanFrame → Bool
is_valid frame =
    if not (leb frame.length classic_can_max_payload)
    then false
    else leb frame.id (id_limit frame.format)

-- The array that a frame is created with.
abbrev pub zero_payload : List ℕ
zero_payload = 0 ∷ 0 ∷ 0 ∷ 0 ∷ 0 ∷ 0 ∷ 0 ∷ 0 ∷ []

-- `CanHal`, of which the protocol code calls `send` alone. A call may change the world `W`.
pub record CanHal (W : Type 0) : Type 0 where
  pub send : CanFrame → W → CanStatus × W

-- `Clock::nowMs`. Two readings may differ.
pub record Clock (W : Type 0) : Type 0 where
  pub now_ms : W → ℕ × W
