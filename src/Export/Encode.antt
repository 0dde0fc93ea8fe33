-- ===== src/Export/Encode.antt =====
-- src/application/vehicle_data_export_record.h: `encode`.
use esp32_vag_data_server.Prelude.{
  ℕ, ◌+◌, ◌%◌, List, [], ◌∷◌, ◌++◌, Option, none, some, ltb, if◌then◌else◌, write_at,
}
use esp32_vag_data_server.VehicleData.Text.{content}
use esp32_vag_data_server.VehicleData.Sample.{NormalizedVehicleSample, has_value}
use esp32_vag_data_server.Export.Layout.{
  VehicleDataExportStatus, ok, buffer_too_small, invalid_argument, k_version, k_header_size,
  type_byte, availability_byte, quality_byte, source_byte, u16_bytes, u64_bytes, payload_length_of,
  payload_of, required_capacity,
}

-- The 23 bytes that are stored first.
abbrev pub header : NormalizedVehicleSample → ℕ → List ℕ
header sample required =
    0x56
    ∷ 0x44
    ∷ 0x45
    ∷ 0x52
    ∷ k_version
    ∷ (u16_bytes required
        ++ (type_byte sample.value.type_
            ∷ (if has_value sample then 1 else 0)
            ∷ availability_byte sample.availability
            ∷ quality_byte sample.quality
            ∷ source_byte sample.source
            ∷ (u64_bytes 8 0 sample.timestamp_ms
                ++ (sample.signal_id.length_ % 256
                    ∷ sample.unit.length_ % 256
                    ∷ payload_length_of sample.value.type_ sample.value % 256
                    ∷ []))))

-- The stores to the output, in order.
unfoldable pub encode_into : NormalizedVehicleSample → ℕ → List ℕ → List ℕ
encode_into sample required output =
    let signal = k_header_size + sample.signal_id.length_ in
    let with_header = write_at output 0 (header sample required) in
    let with_signal = write_at with_header k_header_size (content sample.signal_id) in
    let with_unit = write_at with_signal signal (content sample.unit) in
    write_at with_unit (signal + sample.unit.length_) (payload_of sample.value.type_ sample.value)

-- `encode`: its status, the memory behind `output` (nothing for a null pointer) and `required`.
unfoldable pub encode_with :
    VehicleDataExportStatus × ℕ
    → NormalizedVehicleSample
    → Option (List ℕ)
    → ℕ
    → VehicleDataExportStatus × Option (List ℕ) × ℕ
encode_with (ok, required) sample none capacity =
    if ltb capacity required
    then (buffer_too_small, none, required)
    else (invalid_argument, none, required)
encode_with (ok, required) sample (some output) capacity =
    if ltb capacity required
    then (buffer_too_small, some output, required)
    else (ok, some (encode_into sample required output), required)
encode_with (status, required) sample output capacity = (status, output, required)

unfoldable pub encode :
    NormalizedVehicleSample → Option (List ℕ) → ℕ → VehicleDataExportStatus × Option (List ℕ) × ℕ
encode sample output capacity = encode_with (required_capacity sample) sample output capacity
