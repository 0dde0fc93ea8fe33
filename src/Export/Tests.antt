-- ===== src/Export/Tests.antt =====
-- src/application/vehicle_data_export_record.h: the record of a sample, 37 bytes long.
use esp32_vag_data_server.Prelude.{
  ℕ, ◌≤◌, ◌≡◌, ◌≢◌, ◌⊎◌, refl, List, [], ◌∷◌, some, arith, length, replicate,
}
use esp32_vag_data_server.VehicleData.Utf8.{is_well_formed_utf8, well_formed_loop, sequence_rest}
use esp32_vag_data_server.VehicleData.Text.{strlen, assign}
use esp32_vag_data_server.VehicleData.Sample.{
  no_sample, is_named, make_available, stamped, try_numeric, numeric_value, no_value,
}
use esp32_vag_data_server.VehicleData.Making.{make}
use esp32_vag_data_server.VehicleData.Example.{sample, sample-IsSample}
use esp32_vag_data_server.Export.Layout.{ok, is_finite}
use esp32_vag_data_server.Export.Encode.{encode}
use esp32_vag_data_server.Export.Decode.{decode}
use esp32_vag_data_server.Export.Written.{Exportable, record_length}
use esp32_vag_data_server.Export.RoundTrip.{decode-encode}
use esp32_vag_data_server.Export.Outcome.{decode-Outcome}

-- Memory of 40 bytes.
abbrev memory : List ℕ
memory = replicate 40 0xAA

sample-Exportable : Exportable (sample 20)
unfolding make try_numeric make_available is_named stamped assign strlen is_well_formed_utf8
    well_formed_loop sequence_rest numeric_value no_value is_finite
sample-Exportable = (sample-IsSample 20 (omega arith), refl)

sample-length : record_length (sample 20) ≡ 37
unfolding make try_numeric make_available is_named stamped assign strlen is_well_formed_utf8
    well_formed_loop sequence_rest numeric_value no_value
sample-length = refl

decode-encode_example :
    (record_length (sample 20) ≤ 136)
    × ((written : List ℕ) × (encode (sample 20) (some memory) (length memory)
          ≡ (ok, some written, record_length (sample 20)))
        × (decode (some written) (record_length (sample 20)) no_sample ≡ (ok, sample 20)))
decode-encode_example =
    decode-encode (sample 20) no_sample memory sample-Exportable (omega (arith, sample-length))

-- The start of a record that is cut off.
abbrev cut : List ℕ
cut = 0x56 ∷ 0x44 ∷ 0x45 ∷ []

decode-Outcome_example :
    let (status, out') = decode (some cut) 3 no_sample in
    ((status ≢ ok) × (out' ≡ no_sample)) ⊎ ((status ≡ ok) × Exportable out')
decode-Outcome_example =
    decode-Outcome cut 3 no_sample (omega arith, (omega arith, (omega arith, tt)))
