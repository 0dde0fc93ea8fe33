-- ===== src/VehicleData/Making.antt =====
-- src/core/vehicle_data.h: what every sample keeps, however it is made.
use esp32_vag_data_server.Prelude.{
  ℕ, ◌^◌, ◌<◌, ◌≡◌, ◌⊎◌, inl, inr, refl, Bool, true, false, not, ◌||◌, Bool-cases, List, [], Option,
  none, some, arith,
}
use esp32_vag_data_server.VehicleData.Utf8.{is_well_formed_utf8, well_formed_loop}
use esp32_vag_data_server.VehicleData.Text.{BoundedText, empty_text, assign}
use esp32_vag_data_server.VehicleData.Assign.{IsText, assign-IsText, text_of}
use esp32_vag_data_server.VehicleData.Sample.{
  VehicleValueType, VehicleAvailability, available, NormalizedVehicleValue, NormalizedVehicleSample,
  Origin, k_max_text_length, k_max_signal_id_length, k_max_unit_length, no_value, no_sample,
  numeric_value, boolean_value, try_text_value, is_none, is_available, stamped, is_named,
  make_available, try_numeric, try_boolean, try_text, try_status,
}

-- The value that `tryText` makes of a text.
abbrev pub text_value : BoundedText → NormalizedVehicleValue
text_value made = record {
  type_ = VehicleValueType.text;
  numeric_ = 0;
  boolean_ = false;
  text_ = made;
}

-- The values that a sample can have: each type's own field is set, and the others are the default's.
pub data IsValue : NormalizedVehicleValue → Type 0 where
  is_no_value : {v : NormalizedVehicleValue} → v ≡ no_value → IsValue v
  is_numeric_value :
      {v : NormalizedVehicleValue} (bits : ℕ) → bits < 2 ^ 64 → v ≡ numeric_value bits → IsValue v
  is_boolean_value : {v : NormalizedVehicleValue} (b : Bool) → v ≡ boolean_value b → IsValue v
  is_text_value :
      {v : NormalizedVehicleValue} (made : BoundedText)
      → IsText k_max_text_length made
      → v ≡ text_value made
      → IsValue v

-- What holds of every sample: its texts are texts, its value is one of those above, it has one exactly
-- if it is available, and its time fits 64 bits.
pub record IsSample (s : NormalizedVehicleSample) : Type 0 where
  pub signal_id : IsText k_max_signal_id_length s.signal_id
  pub unit : IsText k_max_unit_length s.unit
  pub value : IsValue s.value
  pub has_value : is_none s.value.type_ ≡ not (is_available s.availability)
  pub timestamp : s.timestamp_ms < 2 ^ 64

-- The ways to make a sample, and the value that each is given.
pub data Making : Type 0 where
  numeric : (bits : ℕ) → Making
  boolean : (b : Bool) → Making
  text : (value : Option (List ℕ)) → Making
  status : (availability : VehicleAvailability) → Making

unfoldable pub make : Making → Origin → NormalizedVehicleSample → Bool × NormalizedVehicleSample
make (numeric bits) origin result = try_numeric origin bits result
make (boolean b) origin result = try_boolean origin b result
make (text value) origin result = try_text origin value result
make (status availability) origin result = try_status origin availability result

abbrev pub IsDouble : Making → Type 0
IsDouble (numeric bits) = bits < 2 ^ 64
IsDouble (boolean b) = Unit
IsDouble (text value) = Unit
IsDouble (status availability) = Unit

empty-IsText : (capacity : ℕ) → IsText capacity (empty_text capacity)
unfolding empty_text text_of is_well_formed_utf8 well_formed_loop
empty-IsText capacity = record {
  bytes = [];
  made = refl;
  size = omega arith;
  formed = refl;
  non_zero = tt;
}

assigned-IsText :
    (capacity : ℕ) (value : Option (List ℕ))
    → (assign capacity value (empty_text capacity)).0 ≡ true
    → IsText capacity (assign capacity value (empty_text capacity)).1
assigned-IsText capacity none a = unfold assign in cc
assigned-IsText capacity (some value) a = assign-IsText capacity value a

-- The outcome of a call: it is refused and leaves the sample as it was, or it makes a sample.
abbrev Made : NormalizedVehicleSample → Bool × NormalizedVehicleSample → Type 0
Made s out = ((out.0 ≡ false) × (out.1 ≡ s)) ⊎ ((out.0 ≡ true) × IsSample out.1)

stamped-IsSample :
    (origin : Origin) (availability : VehicleAvailability) (value : NormalizedVehicleValue)
    → is_named origin ≡ true
    → IsValue value
    → is_none value.type_ ≡ not (is_available availability)
    → origin.timestamp_ms < 2 ^ 64
    → IsSample (stamped origin availability value)
unfolding is_named stamped
stamped-IsSample origin availability value n v h b = record {
  signal_id = assigned-IsText k_max_signal_id_length origin.signal_id (ground arith);
  unit = assigned-IsText k_max_unit_length origin.unit (ground arith);
  value = v;
  has_value = h;
  timestamp = b;
}

make_available-Made :
    (origin : Origin) (value : NormalizedVehicleValue) (s : NormalizedVehicleSample)
    → IsValue value
    → origin.timestamp_ms < 2 ^ 64
    → Made s (make_available origin value s)
unfolding make_available
make_available-Made origin value s v b =
    elim (Bool-cases (not (is_named origin) || is_none value.type_)) [
      | inl e ↦ rw e (inl (refl, refl))
      | inr e ↦
          rw e
            (inr (refl, stamped-IsSample origin available value (ground arith) v (ground arith) b))
    ]

-- The default sample is one too.
pub no_sample-IsSample : IsSample no_sample
unfolding no_sample no_value
no_sample-IsSample = record {
  signal_id = empty-IsText k_max_signal_id_length;
  unit = empty-IsText k_max_unit_length;
  value = is_no_value refl;
  has_value = refl;
  timestamp = omega arith;
}

pub try_text_value-cases :
    (value : Option (List ℕ)) (v : NormalizedVehicleValue)
    → (try_text_value value v ≡ (false, v))
      ⊎ ((made : BoundedText) × IsText k_max_text_length made
          × (try_text_value value v ≡ (true, text_value made)))
unfolding try_text_value no_value
try_text_value-cases value v =
    let assigned : Bool = (assign k_max_text_length value (empty_text k_max_text_length)).0 in
    elim (Bool-cases assigned) [
      | inl e ↦ inr (_, assigned-IsText k_max_text_length value e, rw e refl)
      | inr e ↦ inl (rw e refl)
    ]

-- Each way to make a sample, on every input, is refused and leaves the sample as it was, or makes a
-- sample as `IsSample` says.
pub make-Made :
    (making : Making) (origin : Origin) (s : NormalizedVehicleSample)
    → IsDouble making
    → origin.timestamp_ms < 2 ^ 64
    → let (made, s') = make making origin s in
      ((made ≡ false) × (s' ≡ s)) ⊎ ((made ≡ true) × IsSample s')
unfolding make try_numeric try_boolean try_text try_status numeric_value boolean_value no_value
make-Made (numeric bits) origin s d b =
    make_available-Made origin _ s (is_numeric_value bits d refl) b
make-Made (boolean value) origin s d b =
    make_available-Made origin _ s (is_boolean_value value refl) b
make-Made (text value) origin s d b = elim (try_text_value-cases value no_value) [
  | inl e ↦ rw e (inl (refl, refl))
  | inr (made, t, e) ↦
      rw e (make_available-Made origin (text_value made) s (is_text_value made t refl) b)
]
make-Made (status availability) origin s d b = elim (Bool-cases (is_available availability)) [
  | inl a ↦ rw a (inl (refl, refl))
  | inr a ↦ elim (Bool-cases (is_named origin)) [
    | inl n ↦
        rw (a, n)
          (inr (
            refl,
            stamped-IsSample origin availability no_value n (is_no_value refl) (rw a refl) b,
          ))
    | inr n ↦ rw (a, n) (inl (refl, refl))
  ]
]

-- The sample of a call that succeeds.
pub make-IsSample :
    (making : Making) (origin : Origin) (s : NormalizedVehicleSample)
    → IsDouble making
    → origin.timestamp_ms < 2 ^ 64
    → (make making origin s).0 ≡ true
    → IsSample (make making origin s).1
make-IsSample making origin s d b a = elim (make-Made making origin s d b) [
  | inl (refused, same) ↦ absurd (cc (refused, a))
  | inr (made, valid) ↦ valid
]
