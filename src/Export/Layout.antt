-- ===== src/Export/Layout.antt =====
-- src/application/vehicle_data_export_record.h: the numbers, bytes and lengths of a record.
use esp32_vag_data_server.Prelude.{
  ℕ, zero, suc, ◌+◌, ◌*◌, ◌/◌, ◌%◌, ◌^◌, Bool, false, not, ◌&&◌, ◌||◌, List, [], ◌∷◌, Option, none,
  some, ltb, ◌==◌, if◌then◌else◌, get_or,
}
use esp32_vag_data_server.VehicleData.Text.{content}
use esp32_vag_data_server.VehicleData.Sample.{
  VehicleValueType, numeric, boolean, text, VehicleAvailability, available, unsupported,
  unavailable, pending, VehicleQuality, valid_current, stale, invalid_or_unknown, VehicleSource,
  obd, uds, passive_can, derived, NormalizedVehicleValue, NormalizedVehicleSample,
  k_max_text_length, k_max_signal_id_length, k_max_unit_length, is_available, has_value,
}

-- `VehicleDataExportStatus`.
pub data VehicleDataExportStatus : Type 0 where
  ok buffer_too_small invalid_argument invalid_sample malformed_record unsupported_version :
      VehicleDataExportStatus

abbrev pub k_version : ℕ
k_version = 1

abbrev pub k_header_size : ℕ
k_header_size = 23

-- The numbers of the enumerators, and the enumerators of numbers.
abbrev pub type_byte : VehicleValueType → ℕ
type_byte VehicleValueType.none = 0
type_byte numeric = 1
type_byte boolean = 2
type_byte text = 3

abbrev pub availability_byte : VehicleAvailability → ℕ
availability_byte available = 0
availability_byte unsupported = 1
availability_byte unavailable = 2
availability_byte pending = 3
availability_byte VehicleAvailability.unknown = 4

abbrev pub quality_byte : VehicleQuality → ℕ
quality_byte valid_current = 0
quality_byte stale = 1
quality_byte invalid_or_unknown = 2

abbrev pub source_byte : VehicleSource → ℕ
source_byte obd = 0
source_byte uds = 1
source_byte passive_can = 2
source_byte derived = 3
source_byte VehicleSource.unknown = 4

-- A conversion from a byte, and `isValidType`, which refuses what is no enumerator. The three below are
-- those of the other enumerations.
abbrev pub type_of : ℕ → Option VehicleValueType
type_of byte =
    if byte == 0
    then some VehicleValueType.none
    else if byte == 1
    then some numeric
    else if byte == 2
    then some boolean
    else if byte == 3
    then some text
    else none

abbrev pub availability_of : ℕ → Option VehicleAvailability
availability_of byte =
    if byte == 0
    then some available
    else if byte == 1
    then some unsupported
    else if byte == 2
    then some unavailable
    else if byte == 3
    then some pending
    else if byte == 4
    then some VehicleAvailability.unknown
    else none

abbrev pub quality_of : ℕ → Option VehicleQuality
quality_of byte =
    if byte == 0
    then some valid_current
    else if byte == 1
    then some stale
    else if byte == 2
    then some invalid_or_unknown
    else none

abbrev pub source_of : ℕ → Option VehicleSource
source_of byte =
    if byte == 0
    then some obd
    else if byte == 1
    then some uds
    else if byte == 2
    then some passive_can
    else if byte == 3
    then some derived
    else if byte == 4
    then some VehicleSource.unknown
    else none

-- `std::isfinite` of an IEC 60559 double by its bits: the exponent is not all ones.
unfoldable pub is_finite : ℕ → Bool
is_finite bits = not (bits / 2 ^ 52 % 2048 == 2047)

-- `writeU16`.
abbrev pub u16_bytes : ℕ → List ℕ
u16_bytes value = value % 256 ∷ value / 2 ^ 8 % 256 ∷ []

-- `readU16`. The bits that `|` puts together are disjoint, so it is `+`, here and below.
unfoldable pub read_u16 : List ℕ → ℕ
read_u16 input = get_or input 0 0 + get_or input 1 0 * 2 ^ 8

-- `writeU64`: the loop's bytes from `index` on.
unfoldable pub u64_bytes : ℕ → ℕ → ℕ → List ℕ
u64_bytes zero index value = []
u64_bytes (suc left) index value = value / 2 ^ (index * 8) % 256 ∷ u64_bytes left (suc index) value

-- `readU64`: the loop from `index` on, with the result so far.
unfoldable pub read_u64_loop : ℕ → ℕ → List ℕ → ℕ → ℕ
read_u64_loop zero index input result = result
read_u64_loop (suc left) index input result =
    read_u64_loop left (suc index) input (result + get_or input index 0 * 2 ^ (index * 8))

abbrev pub read_u64 : List ℕ → ℕ
read_u64 input = read_u64_loop 8 0 input 0

-- `containsNull`.
abbrev pub contains_null : List ℕ → Bool
contains_null [] = false
contains_null (b ∷ bytes) = (b == 0) || contains_null bytes

-- `payloadLength` and `writePayload`, by the type.
abbrev pub payload_length_of : VehicleValueType → NormalizedVehicleValue → ℕ
payload_length_of numeric value = 8
payload_length_of boolean value = 1
payload_length_of text value = value.text_.length_
payload_length_of VehicleValueType.none value = 0

abbrev pub payload_of : VehicleValueType → NormalizedVehicleValue → List ℕ
payload_of numeric value = u64_bytes 8 0 value.numeric_
payload_of boolean value = (if value.boolean_ then 1 else 0) ∷ []
payload_of text value = content value.text_
payload_of VehicleValueType.none value = []

-- `isValid`'s switch.
abbrev pub is_valid_value : VehicleValueType → NormalizedVehicleSample → Bool
is_valid_value numeric sample = is_available sample.availability && is_finite sample.value.numeric_
is_valid_value boolean sample = is_available sample.availability
is_valid_value text sample =
    is_available sample.availability && not (ltb k_max_text_length sample.value.text_.length_)
is_valid_value VehicleValueType.none sample =
    not (is_available sample.availability) && not (has_value sample)

-- `isValid`. The enumerators of a sample are valid as such.
unfoldable pub is_valid_sample : NormalizedVehicleSample → Bool
is_valid_sample sample =
    if ltb k_max_signal_id_length sample.signal_id.length_
      || ltb k_max_unit_length sample.unit.length_
    then false
    else is_valid_value sample.value.type_ sample

-- `requiredCapacity`: its status and what it stores in `required`.
unfoldable pub required_capacity : NormalizedVehicleSample → VehicleDataExportStatus × ℕ
required_capacity sample = if not (is_valid_sample sample) then (invalid_sample, 0) else (
  ok,
  k_header_size
      + sample.signal_id.length_
      + sample.unit.length_
      + payload_length_of sample.value.type_ sample.value,
)
