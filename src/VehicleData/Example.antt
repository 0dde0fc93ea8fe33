-- ===== src/VehicleData/Example.antt =====
-- src/core/vehicle_data.h: a sample that the tests of several modules use.
use esp32_vag_data_server.Prelude.{ℕ, ◌^◌, ◌<◌, refl, List, [], ◌∷◌, some, arith}
use esp32_vag_data_server.VehicleData.Utf8.{is_well_formed_utf8, well_formed_loop, sequence_rest}
use esp32_vag_data_server.VehicleData.Text.{strlen, assign}
use esp32_vag_data_server.VehicleData.Sample.{
  obd, valid_current, Origin, NormalizedVehicleSample, no_sample, is_named, make_available,
  try_numeric, numeric_value, no_value,
}
use esp32_vag_data_server.VehicleData.Making.{numeric, IsSample, make, make-IsSample}

-- 1.0 rpm, as the signal "rpm", at a time.
abbrev pub rpm : List ℕ
rpm = 114 ∷ 112 ∷ 109 ∷ 0 ∷ []

abbrev pub origin : ℕ → Origin
origin time = record {
  signal_id = some rpm;
  unit = some rpm;
  source = obd;
  quality = valid_current;
  timestamp_ms = time;
}

abbrev pub sample : ℕ → NormalizedVehicleSample
sample time = (make (numeric 0x3FF0000000000000) (origin time) no_sample).1

pub sample-IsSample : (time : ℕ) → time < 2 ^ 64 → IsSample (sample time)
unfolding make try_numeric make_available is_named assign strlen is_well_formed_utf8
    well_formed_loop numeric_value no_value sequence_rest
sample-IsSample time l =
    make-IsSample (numeric 0x3FF0000000000000) (origin time) no_sample (omega arith) l refl
