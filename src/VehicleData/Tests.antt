-- ===== src/VehicleData/Tests.antt =====
-- src/core/vehicle_data.h: concrete texts and samples.
use esp32_vag_data_server.Prelude.{
  ℕ, ◌<◌, ◌≤◌, ◌≡◌, ◌⊎◌, refl, true, false, List, [], ◌∷◌, some, arith, length, take,
}
use esp32_vag_data_server.VehicleData.Utf8.{is_well_formed_utf8}
use esp32_vag_data_server.VehicleData.CodePoints.{Encoded, is_well_formed_utf8-Encoded}
use esp32_vag_data_server.VehicleData.Rounds.{Returns, is_well_formed_utf8-Returns}
use esp32_vag_data_server.VehicleData.Text.{strlen, empty_text, assign, content}
use esp32_vag_data_server.VehicleData.Assign.{assign_lem}
use esp32_vag_data_server.VehicleData.Sample.{no_sample}
use esp32_vag_data_server.VehicleData.Example.{rpm, origin}
use esp32_vag_data_server.VehicleData.Making.{numeric, IsSample, make, make-Made}

-- "°C".
abbrev celsius : List ℕ
celsius = 0xC2 ∷ 0xB0 ∷ 67 ∷ []

is_well_formed_utf8-Encoded_example :
    ((is_well_formed_utf8 celsius ≡ true) × Encoded celsius)
    ⊎ ((is_well_formed_utf8 celsius ≡ false) × ¬ Encoded celsius)
is_well_formed_utf8-Encoded_example = is_well_formed_utf8-Encoded celsius

is_well_formed_utf8-Returns_example :
    (n : ℕ) × (n ≤ 3) × Returns n celsius (is_well_formed_utf8 celsius)
is_well_formed_utf8-Returns_example = is_well_formed_utf8-Returns celsius

assign_lem_example :
    let (accepted, text') = assign 2 (some rpm) (empty_text 2) in
    let bytes = take (strlen rpm) rpm in
    (length text'.data_ ≡ 3)
    × (strlen text'.data_ ≡ text'.length_)
    × (((accepted ≡ true)
          × (strlen rpm ≤ 2)
          × (is_well_formed_utf8 bytes ≡ true)
          × (content text' ≡ bytes))
        ⊎ ((accepted ≡ false)
            × ((2 < strlen rpm) ⊎ (is_well_formed_utf8 bytes ≡ false))
            × (content text' ≡ [])))
unfolding empty_text
assign_lem_example = assign_lem 2 rpm (empty_text 2) refl

make-Made_example :
    let (made, s') = make (numeric 0x3FF0000000000000) (origin 1000) no_sample in
    ((made ≡ false) × (s' ≡ no_sample)) ⊎ ((made ≡ true) × IsSample s')
make-Made_example =
    make-Made (numeric 0x3FF0000000000000) (origin 1000) no_sample (omega arith) (omega arith)
