-- ===== src/Export/Decode.antt =====
-- src/application/vehicle_data_export_record.h: `decode`.
use esp32_vag_data_server.Prelude.{
  ℕ, suc, ◌+◌, Bool, true, false, not, ◌||◌, List, Option, none, some, ltb, ◌==◌, if◌then◌else◌,
  get_or, take, drop, replicate, copy_n,
}
use esp32_vag_data_server.VehicleData.Sample.{
  VehicleValueType, numeric, boolean, text, VehicleAvailability, VehicleQuality, VehicleSource,
  NormalizedVehicleSample, Origin, k_max_text_length, k_max_signal_id_length, k_max_unit_length,
  no_sample, is_available, has_value, try_numeric, try_boolean, try_text, try_status,
}
use esp32_vag_data_server.Export.Layout.{
  VehicleDataExportStatus, ok, invalid_argument, malformed_record, unsupported_version, k_version,
  k_header_size, type_of, availability_of, quality_of, source_of, availability_byte, is_finite,
  read_u16, read_u64, contains_null,
}

abbrev pub at : List ℕ → ℕ → ℕ
at input index = get_or input index 0

-- What `decode` reads of the header as enumerators.
pub record Enumerators : Type 0 where
  pub type : VehicleValueType
  pub availability : VehicleAvailability
  pub quality : VehicleQuality
  pub source : VehicleSource

infixl 5 ◌>>=◌
abbrev ◌>>=◌ : {A B : Type 0} → Option A → (A → Option B) → Option B
none >>= f = none
some a >>= f = f a

unfoldable pub enumerators_of : List ℕ → Option Enumerators
enumerators_of input = do
  type ← type_of (at input 7)
  availability ← availability_of (at input 9)
  quality ← quality_of (at input 10)
  source ← source_of (at input 11)
  some (record { type = type; availability = availability; quality = quality; source = source })

-- A buffer of zeros with the bytes of a text at its front.
abbrev pub text_buffer : ℕ → List ℕ → ℕ → List ℕ
text_buffer capacity bytes size = copy_n bytes size (replicate (suc capacity) 0) 0

-- The switch: nothing where `decode` returns from it.
unfoldable pub construct :
    VehicleValueType
    → VehicleAvailability
    → Origin
    → List ℕ
    → ℕ
    → Option (Bool × NormalizedVehicleSample)
construct numeric availability origin value value_length =
    if not (value_length == 8)
    then none
    else if not (is_finite (read_u64 value))
    then none
    else some (try_numeric origin (read_u64 value) no_sample)
construct boolean availability origin value value_length =
    if not (value_length == 1) || ltb 1 (at value 0)
    then none
    else some (try_boolean origin (not (at value 0 == 0)) no_sample)
construct text availability origin value value_length =
    if ltb k_max_text_length value_length || contains_null (take value_length value)
    then none
    else some (try_text origin (some (text_buffer k_max_text_length value value_length)) no_sample)
construct VehicleValueType.none availability origin value value_length =
    if is_available availability || not (value_length == 0)
    then none
    else some (try_status origin availability no_sample)

abbrev pub bool_eq : Bool → Bool → Bool
bool_eq true b = b
bool_eq false b = not b

-- What `decode` does behind the switch.
unfoldable pub accept :
    VehicleAvailability
    → ℕ
    → Option (Bool × NormalizedVehicleSample)
    → NormalizedVehicleSample
    → VehicleDataExportStatus × NormalizedVehicleSample
accept availability value_flag none output = (malformed_record, output)
accept availability value_flag (some (constructed, candidate)) output =
    if not constructed
      || not (availability_byte candidate.availability == availability_byte availability)
      || not (bool_eq (has_value candidate) (value_flag == 1))
    then (malformed_record, output)
    else (ok, candidate)

-- `decode` from the lengths on. The pointers `signal`, `unit` and `value` are the memory behind them.
unfoldable pub decode_body :
    Option Enumerators
    → List ℕ
    → ℕ
    → NormalizedVehicleSample
    → VehicleDataExportStatus × NormalizedVehicleSample
decode_body none input length_ output = (malformed_record, output)
decode_body (some e) input length_ output =
    let value_flag = at input 8 in
    let signal_length = at input 20 in
    let unit_length = at input 21 in
    let value_length = at input 22 in
    let expected_length = k_header_size + signal_length + unit_length + value_length in
    let signal = drop k_header_size input in
    let unit = drop signal_length signal in
    let value = drop unit_length unit in
    if ltb 1 value_flag
      || ltb k_max_signal_id_length signal_length
      || ltb k_max_unit_length unit_length
      || not (expected_length == length_)
    then (malformed_record, output)
    else if contains_null (take signal_length signal) || contains_null (take unit_length unit)
    then (malformed_record, output)
    else let origin : Origin = record {
      signal_id = some (text_buffer k_max_signal_id_length signal signal_length);
      unit = some (text_buffer k_max_unit_length unit unit_length);
      source = e.source;
      quality = e.quality;
      timestamp_ms = read_u64 (drop 12 input);
    } in
      accept e.availability value_flag (construct e.type e.availability origin value value_length)
        output

-- `decode`: nothing is a null pointer, and the memory behind another has `length_` bytes.
unfoldable pub decode :
    Option (List ℕ)
    → ℕ
    → NormalizedVehicleSample
    → VehicleDataExportStatus × NormalizedVehicleSample
decode none length_ output = (invalid_argument, output)
decode (some input) length_ output =
    if ltb length_ k_header_size
      || not (at input 0 == 0x56)
      || not (at input 1 == 0x44)
      || not (at input 2 == 0x45)
      || not (at input 3 == 0x52)
      || not (read_u16 (drop 5 input) == length_)
    then (malformed_record, output)
    else if not (at input 4 == k_version)
    then (unsupported_version, output)
    else decode_body (enumerators_of input) input length_ output
