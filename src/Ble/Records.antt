-- ===== src/Ble/Records.antt =====
-- src/application/ble_vehicle_data_payload.h: what is written, and `encode`. The enumerators of a record
-- are valid as such.
use esp32_vag_data_server.Prelude.{
  ℕ, Bool, true, false, not, ◌&&◌, ◌||◌, List, Option, none, some, ltb, ◌==◌, if◌then◌else◌,
}
use esp32_vag_data_server.VehicleData.Text.{BoundedText, content}
use esp32_vag_data_server.VehicleData.Sample.{
  VehicleValueType, numeric, boolean, text, NormalizedVehicleValue, NormalizedVehicleSample,
  is_none, is_available, has_value,
}
use esp32_vag_data_server.Profiles.{ProfileIdentity, NormalizedSignalDescriptor}
use esp32_vag_data_server.ReadModel.{VehicleDataReadSnapshot, is_selected, is_null}
use esp32_vag_data_server.Export.Layout.{is_finite}
use esp32_vag_data_server.Export.Decode.{bool_eq}
use esp32_vag_data_server.Ble.Writer.{
  Action, ◌&>◌, succeed, refuse, append_byte, append_u16, append_u32, append_u64, append_header,
  append_string, state_code, type_code, support_code, availability_code, quality_code, source_code,
}

-- `BlePayloadStatus`.
pub data BlePayloadStatus : Type 0 where
  encoded insufficient_capacity invalid_input : BlePayloadStatus

-- `BlePayloadResult`.
pub record BlePayloadResult : Type 0 where
  pub status : BlePayloadStatus
  pub required_capacity : ℕ

abbrev pub flag : Bool → ℕ
flag b = if b then 1 else 0

-- A text and its length.
abbrev pub append_bounded : BoundedText → Action
append_bounded t = append_string (content t) t.length_

-- `appendU32` of the identity, if there is one.
unfoldable pub append_identity : Option ProfileIdentity → Action
append_identity none = succeed
append_identity (some identity) = append_u32 identity.value_

-- The tests of the first `write`.
unfoldable pub is_valid_snapshot : VehicleDataReadSnapshot → Bool
is_valid_snapshot snapshot = not (
    not (bool_eq (is_selected snapshot.selection_state) (not (is_null snapshot.active_identity)))
    || (not snapshot.has_capability_registry && not (snapshot.capability_count == 0))
    || ltb 0xFFFF snapshot.capability_count
    || ltb 0xFFFF snapshot.sample_count)

-- `write` of a snapshot's metadata.
unfoldable pub write_snapshot : VehicleDataReadSnapshot → Action
write_snapshot snapshot =
    if not (is_valid_snapshot snapshot)
    then refuse
    else append_header 1
      &> append_byte (state_code snapshot.selection_state)
      &> append_byte (flag (not (is_null snapshot.active_identity)))
      &> append_identity snapshot.active_identity
      &> append_byte (flag snapshot.has_capability_registry)
      &> append_u16 snapshot.capability_count
      &> append_u16 snapshot.sample_count

-- `write` of a capability.
unfoldable pub write_capability : NormalizedSignalDescriptor → ℕ → Action
write_capability capability index =
    if ltb 0xFFFF index
    then refuse
    else append_header 2
      &> append_u16 index
      &> append_bounded capability.identity
      &> append_byte (type_code capability.expected_value_type)
      &> append_bounded capability.unit
      &> append_byte (support_code capability.support)

abbrev pub is_numeric : VehicleValueType → Bool
is_numeric VehicleValueType.none = false
is_numeric numeric = true
is_numeric boolean = false
is_numeric text = false

-- The switch over the type of a value.
unfoldable pub append_value : VehicleValueType → NormalizedVehicleValue → Action
append_value numeric value = append_u64 value.numeric_
append_value boolean value = append_byte (flag value.boolean_)
append_value text value = append_bounded value.text_
append_value VehicleValueType.none value = refuse

-- The tests of the last `write`.
unfoldable pub is_valid_record : NormalizedVehicleSample → ℕ → Bool
is_valid_record sample index =
    let type = sample.value.type_ in
    let present = has_value sample in
    not (
      ltb 0xFFFF index
      || (not (is_available sample.availability) && present)
      || (is_available sample.availability && is_none type)
      || (present && is_none type)
      || (present && is_numeric type && not (is_finite sample.value.numeric_)))

-- `write` of a sample.
unfoldable pub write_sample : NormalizedVehicleSample → ℕ → Action
write_sample sample index =
    if not (is_valid_record sample index)
    then refuse
    else append_header 3
      &> append_u16 index
      &> append_bounded sample.signal_id
      &> append_byte (type_code sample.value.type_)
      &> append_byte (flag (has_value sample))
      &> (if has_value sample then append_value sample.value.type_ sample.value else succeed)
      &> append_bounded sample.unit
      &> append_byte (source_code sample.source)
      &> append_byte (quality_code sample.quality)
      &> append_byte (availability_code sample.availability)
      &> append_u64 sample.timestamp_ms

-- `encode` behind the test of the capacity: the result, and the memory behind `output`.
unfoldable pub encode_to : Action → ℕ → Option (List ℕ) → ℕ → BlePayloadResult × Option (List ℕ)
encode_to write required none capacity =
    (record { status = invalid_input; required_capacity = required }, none)
encode_to write required (some output) capacity =
    let (written, writer) =
      write (record { output_ = some output; capacity_ = capacity; size_ = 0 }) in
    if not written || not (writer.size_ == required)
    then (record { status = invalid_input; required_capacity = required }, writer.output_)
    else (record { status = encoded; required_capacity = required }, writer.output_)

-- `encode`: a pass that counts, and one that writes.
unfoldable pub encode_payload : Action → Option (List ℕ) → ℕ → BlePayloadResult × Option (List ℕ)
encode_payload write output capacity =
    let (sized, sizing) = write (record { output_ = none; capacity_ = 0; size_ = 0 }) in
    let required = sizing.size_ in
    if not sized
    then (record { status = invalid_input; required_capacity = 0 }, output)
    else if ltb capacity required
    then (record { status = insufficient_capacity; required_capacity = required }, output)
    else encode_to write required output capacity

-- `encodeBleSnapshotMetadata`, `encodeBleCapabilityRecord` and `encodeBleSampleRecord`.
unfoldable pub encode_ble_snapshot_metadata :
    VehicleDataReadSnapshot → Option (List ℕ) → ℕ → BlePayloadResult × Option (List ℕ)
encode_ble_snapshot_metadata snapshot output capacity =
    encode_payload (write_snapshot snapshot) output capacity

unfoldable pub encode_ble_capability_record :
    NormalizedSignalDescriptor → ℕ → Option (List ℕ) → ℕ → BlePayloadResult × Option (List ℕ)
encode_ble_capability_record capability index output capacity =
    encode_payload (write_capability capability index) output capacity

unfoldable pub encode_ble_sample_record :
    NormalizedVehicleSample → ℕ → Option (List ℕ) → ℕ → BlePayloadResult × Option (List ℕ)
encode_ble_sample_record sample index output capacity =
    encode_payload (write_sample sample index) output capacity
