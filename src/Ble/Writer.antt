-- ===== src/Ble/Writer.antt =====
-- src/application/ble_vehicle_data_payload.h: `Writer`, and the codes of the enumerators.
use esp32_vag_data_server.Prelude.{
  ℕ, zero, suc, ◌+◌, ◌-◌, ◌*◌, ◌/◌, ◌%◌, ◌^◌, Bool, true, false, ◌||◌, List, [], ◌∷◌, Option, none,
  some, ltb, if◌then◌else◌, length, write_at,
}
use esp32_vag_data_server.VehicleData.Sample.{
  VehicleValueType, numeric, boolean, text, VehicleAvailability, available, unsupported,
  unavailable, pending, VehicleQuality, valid_current, stale, invalid_or_unknown, VehicleSource,
  obd, uds, passive_can, derived,
}
use esp32_vag_data_server.Profiles.{
  ProfileSelectionState, ambiguous, manual_selection_required, selected, CapabilitySupport,
}

-- `Writer`: a null pointer is nothing.
pub record Writer : Type 0 where
  pub output_ : Option (List ℕ)
  pub capacity_ : ℕ
  pub size_ : ℕ

-- A call of a writer: whether it succeeds, and the writer behind it.
abbrev pub Action : Type 0
Action = Writer → Bool × Writer

-- `a && b` of two calls, and `true` and `false`.
infixr 4 ◌&>◌
unfoldable pub ◌&>◌ : Action → Action → Action
(a &> b) w = let (done, w') = a w in if done then b w' else (false, w')

unfoldable pub succeed : Action
succeed w = (true, w)

unfoldable pub refuse : Action
refuse w = (false, w)

-- `append` behind its first test.
unfoldable pub append_to : Option (List ℕ) → List ℕ → Action
append_to none bytes w = (true, record w { size_ = w.size_ + length bytes })
append_to (some output) bytes w =
    if ltb w.capacity_ w.size_ || ltb (w.capacity_ - w.size_) (length bytes) then (false, w) else (
      true,
      record w { output_ = some (write_at output w.size_ bytes); size_ = w.size_ + length bytes },
    )

-- `append`.
unfoldable pub append : List ℕ → Action
append bytes w =
    if ltb (2 ^ 64 - 1 - w.size_) (length bytes) then (false, w) else append_to w.output_ bytes w

-- `appendByte`.
unfoldable pub append_byte : ℕ → Action
append_byte value = append (value ∷ [])

-- The loops of `appendU32` and `appendU64`, with `left` bytes to go: the shift is eight times those
-- behind the next.
unfoldable pub append_shifted : ℕ → ℕ → Action
append_shifted zero value = succeed
append_shifted (suc left) value =
    append_byte (value / 2 ^ (left * 8) % 256) &> append_shifted left value

-- `appendU16`.
unfoldable pub append_u16 : ℕ → Action
append_u16 value = append_byte (value / 2 ^ 8 % 256) &> append_byte (value % 256)

-- `appendU32`.
unfoldable pub append_u32 : ℕ → Action
append_u32 value = append_shifted 4 value

-- `appendU64`, and `appendDouble` of a double's bits.
unfoldable pub append_u64 : ℕ → Action
append_u64 value = append_shifted 8 value

-- `appendHeader`.
unfoldable pub append_header : ℕ → Action
append_header type = append_byte 1 &> append_byte type

-- `appendString`, of the bytes behind the pointer as far as `length`.
unfoldable pub append_string : List ℕ → ℕ → Action
append_string bytes size = if ltb 255 size then refuse else append_byte (size % 256) &> append bytes

-- `code`.
abbrev pub state_code : ProfileSelectionState → ℕ
state_code ProfileSelectionState.unknown = 0
state_code ambiguous = 1
state_code manual_selection_required = 2
state_code selected = 3

abbrev pub type_code : VehicleValueType → ℕ
type_code VehicleValueType.none = 0
type_code numeric = 1
type_code boolean = 2
type_code text = 3

abbrev pub support_code : CapabilitySupport → ℕ
support_code CapabilitySupport.supported = 0
support_code CapabilitySupport.unsupported = 1
support_code CapabilitySupport.pending = 2
support_code CapabilitySupport.unknown = 3

abbrev pub availability_code : VehicleAvailability → ℕ
availability_code available = 0
availability_code unsupported = 1
availability_code unavailable = 2
availability_code pending = 3
availability_code VehicleAvailability.unknown = 4

abbrev pub quality_code : VehicleQuality → ℕ
quality_code valid_current = 0
quality_code stale = 1
quality_code invalid_or_unknown = 2

abbrev pub source_code : VehicleSource → ℕ
source_code obd = 0
source_code uds = 1
source_code passive_can = 2
source_code derived = 3
source_code VehicleSource.unknown = 4
