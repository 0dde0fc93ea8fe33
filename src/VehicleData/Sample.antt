-- ===== src/VehicleData/Sample.antt =====
-- src/core/vehicle_data.h: `NormalizedVehicleValue` and `NormalizedVehicleSample`. A `double` is its 64
-- bits, as the encoders of the code take it.
use esp32_vag_data_server.Prelude.{
  ℕ, Bool, true, false, not, ◌&&◌, ◌||◌, List, Option, if◌then◌else◌,
}
use esp32_vag_data_server.VehicleData.Text.{BoundedText, empty_text, assign}

-- `VehicleValueType`.
pub data VehicleValueType : Type 0 where
  none numeric boolean text : VehicleValueType

-- `VehicleAvailability`.
pub data VehicleAvailability : Type 0 where
  available unsupported unavailable pending unknown : VehicleAvailability

-- `VehicleQuality`.
pub data VehicleQuality : Type 0 where
  valid_current stale invalid_or_unknown : VehicleQuality

-- `VehicleSource`.
pub data VehicleSource : Type 0 where
  obd uds passive_can derived unknown : VehicleSource

abbrev pub k_max_text_length : ℕ
k_max_text_length = 17

abbrev pub k_max_signal_id_length : ℕ
k_max_signal_id_length = 64

abbrev pub k_max_unit_length : ℕ
k_max_unit_length = 32

-- `NormalizedVehicleValue`.
pub record NormalizedVehicleValue : Type 0 where
  pub type_ : VehicleValueType
  pub numeric_ : ℕ
  pub boolean_ : Bool
  pub text_ : BoundedText

-- The default value.
unfoldable pub no_value : NormalizedVehicleValue
no_value = record {
  type_ = VehicleValueType.none;
  numeric_ = 0;
  boolean_ = false;
  text_ = empty_text k_max_text_length;
}

-- `NormalizedVehicleValue::numeric`, `boolean` and `tryText`, which writes its result only if it succeeds.
unfoldable pub numeric_value : ℕ → NormalizedVehicleValue
unfolding no_value
numeric_value value = record no_value { type_ = VehicleValueType.numeric; numeric_ = value }

unfoldable pub boolean_value : Bool → NormalizedVehicleValue
unfolding no_value
boolean_value value = record no_value { type_ = VehicleValueType.boolean; boolean_ = value }

unfoldable pub try_text_value :
    Option (List ℕ) → NormalizedVehicleValue → Bool × NormalizedVehicleValue
unfolding no_value
try_text_value value result =
    let (assigned, result_text) = assign k_max_text_length value (empty_text k_max_text_length) in
    if not assigned
    then (false, result)
    else (true, record no_value { type_ = VehicleValueType.text; text_ = result_text })

-- `NormalizedVehicleSample`.
pub record NormalizedVehicleSample : Type 0 where
  pub signal_id : BoundedText
  pub unit : BoundedText
  pub value : NormalizedVehicleValue
  pub source : VehicleSource
  pub quality : VehicleQuality
  pub availability : VehicleAvailability
  pub timestamp_ms : ℕ

-- The default sample.
unfoldable pub no_sample : NormalizedVehicleSample
no_sample = record {
  signal_id = empty_text k_max_signal_id_length;
  unit = empty_text k_max_unit_length;
  value = no_value;
  source = VehicleSource.unknown;
  quality = invalid_or_unknown;
  availability = VehicleAvailability.unknown;
  timestamp_ms = 0;
}

abbrev pub is_none : VehicleValueType → Bool
is_none VehicleValueType.none = true
is_none numeric = false
is_none boolean = false
is_none text = false

abbrev pub is_available : VehicleAvailability → Bool
is_available available = true
is_available unsupported = false
is_available unavailable = false
is_available pending = false
is_available VehicleAvailability.unknown = false

abbrev pub is_invalid : VehicleQuality → Bool
is_invalid valid_current = false
is_invalid stale = false
is_invalid invalid_or_unknown = true

abbrev pub is_valid_current : VehicleQuality → Bool
is_valid_current valid_current = true
is_valid_current stale = false
is_valid_current invalid_or_unknown = false

-- `hasValue`.
unfoldable pub has_value : NormalizedVehicleSample → Bool
has_value sample =
    is_available sample.availability
    && not (is_none sample.value.type_)
    && not (is_invalid sample.quality)

-- `isCurrent`.
unfoldable pub is_current : NormalizedVehicleSample → Bool
unfolding has_value
is_current sample = has_value sample && is_valid_current sample.quality

-- The arguments that the ways to make a sample share.
pub record Origin : Type 0 where
  pub signal_id : Option (List ℕ)
  pub unit : Option (List ℕ)
  pub source : VehicleSource
  pub quality : VehicleQuality
  pub timestamp_ms : ℕ

-- What the ways to make a sample end with, as far as the two texts are assigned.
unfoldable pub stamped :
    Origin → VehicleAvailability → NormalizedVehicleValue → NormalizedVehicleSample
stamped origin availability value = record {
  signal_id =
      (assign k_max_signal_id_length origin.signal_id (empty_text k_max_signal_id_length)).1;
  unit = (assign k_max_unit_length origin.unit (empty_text k_max_unit_length)).1;
  value = value;
  source = origin.source;
  quality = origin.quality;
  availability = availability;
  timestamp_ms = origin.timestamp_ms;
}

-- Whether both texts are accepted.
unfoldable pub is_named : Origin → Bool
is_named origin =
    (assign k_max_signal_id_length origin.signal_id (empty_text k_max_signal_id_length)).0
    && (assign k_max_unit_length origin.unit (empty_text k_max_unit_length)).0

-- `makeAvailable`: the result is written only if the call succeeds, here and below.
unfoldable pub make_available :
    Origin → NormalizedVehicleValue → NormalizedVehicleSample → Bool × NormalizedVehicleSample
make_available origin value result =
    if not (is_named origin) || is_none value.type_
    then (false, result)
    else (true, stamped origin available value)

-- `tryNumeric`.
unfoldable pub try_numeric : Origin → ℕ → NormalizedVehicleSample → Bool × NormalizedVehicleSample
try_numeric origin value result = make_available origin (numeric_value value) result

-- `tryBoolean`.
unfoldable pub try_boolean :
    Origin → Bool → NormalizedVehicleSample → Bool × NormalizedVehicleSample
try_boolean origin value result = make_available origin (boolean_value value) result

-- `NormalizedVehicleSample::tryText`.
unfoldable pub try_text :
    Origin → Option (List ℕ) → NormalizedVehicleSample → Bool × NormalizedVehicleSample
try_text origin value result =
    let (made, normalized) = try_text_value value no_value in
    if not made then (false, result) else make_available origin normalized result

-- `tryStatus`.
unfoldable pub try_status :
    Origin → VehicleAvailability → NormalizedVehicleSample → Bool × NormalizedVehicleSample
try_status origin availability result =
    if is_available availability
    then (false, result)
    else if not (is_named origin)
    then (false, result)
    else (true, stamped origin availability no_value)
