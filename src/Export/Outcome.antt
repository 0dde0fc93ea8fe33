-- ===== src/Export/Outcome.antt =====
-- src/application/vehicle_data_export_record.h: the outcomes of `decode` on any bytes.
use esp32_vag_data_server.Prelude.{
  ℕ, zero, suc, ◌+◌, ◌^◌, ◌<◌, ◌≡◌, ◌≢◌, ◌⊎◌, inl, inr, refl, Bool, true, not, ◌||◌, List, [], ◌∷◌,
  Option, none, some, arith, ltb, ◌==◌, Bool-cases, get_or, take, drop, All,
}
use esp32_vag_data_server.VehicleData.Sample.{
  VehicleValueType, numeric, boolean, text, VehicleAvailability, NormalizedVehicleValue,
  NormalizedVehicleSample, Origin, no_sample, no_value, numeric_value, boolean_value, is_none,
  is_available, is_named, stamped, make_available, try_numeric, try_boolean, try_text, try_status,
  has_value, k_max_text_length, k_max_signal_id_length, k_max_unit_length,
}
use esp32_vag_data_server.VehicleData.Making.{
  Making, IsDouble, text_value, make, make-IsSample, try_text_value-cases,
}
use esp32_vag_data_server.Export.Layout.{
  VehicleDataExportStatus, ok, malformed_record, unsupported_version, contains_null,
  availability_byte, k_header_size, k_version, read_u16, read_u64, read_u64_loop, is_finite,
}
use esp32_vag_data_server.Export.Decode.{
  Enumerators, enumerators_of, bool_eq, text_buffer, at, accept, construct, decode_body, decode,
}
use esp32_vag_data_server.Export.Written.{IsFinite, Exportable}

abbrev pub IsByte : ℕ → Type 0
IsByte b = b < 256

get_or-IsByte : (bytes : List ℕ) (i : ℕ) → All IsByte bytes → get_or bytes i 0 < 256
get_or-IsByte [] i a = omega arith
get_or-IsByte (b ∷ bytes) zero a = a.0
get_or-IsByte (b ∷ bytes) (suc i) a = get_or-IsByte bytes i a.1

read_u64-less : (bytes : List ℕ) → All IsByte bytes → read_u64 bytes < 2 ^ 64
unfolding read_u64_loop
read_u64-less bytes a = omega (
  arith,
  get_or-IsByte bytes 0 a,
  get_or-IsByte bytes 1 a,
  get_or-IsByte bytes 2 a,
  get_or-IsByte bytes 3 a,
  get_or-IsByte bytes 4 a,
  get_or-IsByte bytes 5 a,
  get_or-IsByte bytes 6 a,
  get_or-IsByte bytes 7 a,
)

drop-All : (n : ℕ) (bytes : List ℕ) → All IsByte bytes → All IsByte (drop n bytes)
drop-All zero bytes a = a
drop-All (suc n) [] a = tt
drop-All (suc n) (b ∷ bytes) a = drop-All n bytes a.1

-- What the switch makes, if it makes a sample.
abbrev Candidate : Option (Bool × NormalizedVehicleSample) → Type 0
Candidate none = Unit
Candidate (some (constructed, candidate)) = constructed ≡ true → Exportable candidate

abbrev Finite : Bool × NormalizedVehicleSample → Type 0
Finite (constructed, candidate) =
    constructed ≡ true → IsFinite candidate.value.type_ candidate.value

make_available-Finite :
    (origin : Origin) (value : NormalizedVehicleValue) (s : NormalizedVehicleSample)
    → IsFinite value.type_ value
    → Finite (make_available origin value s)
unfolding make_available stamped
make_available-Finite origin value s f =
    elim (Bool-cases (not (is_named origin) || is_none value.type_)) [
      | inl e ↦ rw e (λ q. absurd cc)
      | inr e ↦ rw e (λ q. f)
    ]

try_text-Finite :
    (origin : Origin) (value : Option (List ℕ)) → Finite (try_text origin value no_sample)
unfolding try_text
try_text-Finite origin value = elim (try_text_value-cases value no_value) [
  | inl e ↦ rw e (λ q. absurd cc)
  | inr (made, t, e) ↦ rw e (make_available-Finite origin (text_value made) no_sample tt)
]

try_status-Finite :
    (origin : Origin) (a : VehicleAvailability) → Finite (try_status origin a no_sample)
unfolding try_status stamped no_value
try_status-Finite origin a = elim (Bool-cases (is_available a)) [
  | inl e ↦ rw e (λ q. absurd cc)
  | inr e ↦ elim (Bool-cases (is_named origin)) [
    | inl n ↦ rw (e, n) (λ q. tt)
    | inr n ↦ rw (e, n) (λ q. absurd cc)
  ]
]

make-Candidate :
    (making : Making) (origin : Origin)
    → IsDouble making
    → origin.timestamp_ms < 2 ^ 64
    → Finite (make making origin no_sample)
    → Candidate (some (make making origin no_sample))
make-Candidate making origin d l f = λ q. (make-IsSample making origin no_sample d l q, f q)

construct-Candidate :
    (t : VehicleValueType) (a : VehicleAvailability) (origin : Origin) (value : List ℕ) (n : ℕ)
    → All IsByte value
    → origin.timestamp_ms < 2 ^ 64
    → Candidate (construct t a origin value n)
unfolding construct make try_numeric try_boolean numeric_value boolean_value no_value
construct-Candidate numeric a origin value n b l = elim (Bool-cases (n == 8)) [
  | inr e ↦ rw e tt
  | inl e ↦ elim (Bool-cases (is_finite (read_u64 value))) [
    | inr f ↦ rw (e, f) tt
    | inl f ↦
        rw (e, f)
          (make-Candidate (Making.numeric (read_u64 value)) origin (read_u64-less value b) l
            (make_available-Finite origin (numeric_value (read_u64 value)) no_sample f))
  ]
]
construct-Candidate boolean a origin value n b l =
    elim (Bool-cases (not (n == 1) || ltb 1 (at value 0))) [
      | inl e ↦ rw e tt
      | inr e ↦ rw e (
          make-Candidate (Making.boolean (not (at value 0 == 0))) origin tt l
            (make_available-Finite origin (boolean_value (not (at value 0 == 0))) no_sample tt))
    ]
construct-Candidate text a origin value n b l =
    elim (Bool-cases (ltb k_max_text_length n || contains_null (take n value))) [
      | inl e ↦ rw e tt
      | inr e ↦ rw e (
          make-Candidate (Making.text (some (text_buffer k_max_text_length value n))) origin tt l
            (try_text-Finite origin (some (text_buffer k_max_text_length value n))))
    ]
construct-Candidate VehicleValueType.none a origin value n b l =
    elim (Bool-cases (is_available a || not (n == 0))) [
      | inl e ↦ rw e tt
      | inr e ↦ rw e (make-Candidate (Making.status a) origin tt l (try_status-Finite origin a))
    ]

-- Either the output is as it was, or it is a sample.
abbrev pub Outcome :
    NormalizedVehicleSample → VehicleDataExportStatus × NormalizedVehicleSample → Type 0
Outcome out (status, out') = ((status ≢ ok) × (out' ≡ out)) ⊎ ((status ≡ ok) × Exportable out')

refused :
    (status : VehicleDataExportStatus) (out : NormalizedVehicleSample)
    → status ≢ ok
    → Outcome out (status, out)
refused status out d = inl (d, refl)

malformed_differs : malformed_record ≢ ok
malformed_differs e = cc

unsupported_differs : unsupported_version ≢ ok
unsupported_differs e = cc

accept-Outcome :
    (a : VehicleAvailability) (flag : ℕ) (r : Option (Bool × NormalizedVehicleSample))
    (out : NormalizedVehicleSample)
    → Candidate r
    → Outcome out (accept a flag r out)
unfolding accept
accept-Outcome a flag none out c = refused malformed_record out malformed_differs
accept-Outcome a flag (some (constructed, candidate)) out c =
    let test : Bool =
      not constructed
      || not (availability_byte candidate.availability == availability_byte a)
      || not (bool_eq (has_value candidate) (flag == 1)) in
    elim (Bool-cases test) [
      | inl e ↦ rw e (refused malformed_record out malformed_differs)
      | inr e ↦ rw e (inr (refl, c (ground arith)))
    ]

decode_body-Outcome :
    (e : Option Enumerators) (input : List ℕ) (n : ℕ) (out : NormalizedVehicleSample)
    → All IsByte input
    → Outcome out (decode_body e input n out)
unfolding decode_body
decode_body-Outcome none input n out b = refused malformed_record out malformed_differs
decode_body-Outcome (some e) input n out b =
    let signal = drop k_header_size input in
    let unit = drop (at input 20) signal in
    let value = drop (at input 21) unit in
    let sizes : Bool =
      ltb 1 (at input 8)
      || ltb k_max_signal_id_length (at input 20)
      || ltb k_max_unit_length (at input 21)
      || not (k_header_size + at input 20 + at input 21 + at input 22 == n) in
    let nulls : Bool =
      contains_null (take (at input 20) signal) || contains_null (take (at input 21) unit) in
    let bytes =
      drop-All (at input 21) unit
        (drop-All (at input 20) signal (drop-All k_header_size input b)) in
    elim (Bool-cases sizes) [
      | inl s ↦ rw s (refused malformed_record out malformed_differs)
      | inr s ↦ elim (Bool-cases nulls) [
        | inl z ↦ rw (s, z) (refused malformed_record out malformed_differs)
        | inr z ↦
            rw (s, z)
              (accept-Outcome e.availability (at input 8) _ out (
                construct-Candidate e.type e.availability _ value (at input 22) bytes
                  (read_u64-less (drop 12 input) (drop-All 12 input b))))
      ]
    ]

-- `decode` of any bytes of any stated length either fails, and then the output is as it was, or gives a
-- sample as the ways to make one give it, whose number is finite if it is one.
pub decode-Outcome :
    (input : List ℕ) (n : ℕ) (out : NormalizedVehicleSample)
    → All IsByte input
    → let (status, out') = decode (some input) n out in
      ((status ≢ ok) × (out' ≡ out)) ⊎ ((status ≡ ok) × Exportable out')
unfolding decode
decode-Outcome input n out b =
    let header : Bool =
      ltb n k_header_size
      || not (at input 0 == 0x56)
      || not (at input 1 == 0x44)
      || not (at input 2 == 0x45)
      || not (at input 3 == 0x52)
      || not (read_u16 (drop 5 input) == n) in
    elim (Bool-cases header) [
      | inl h ↦ rw h (refused malformed_record out malformed_differs)
      | inr h ↦ elim (Bool-cases (at input 4 == k_version)) [
        | inr v ↦ rw (h, v) (refused unsupported_version out unsupported_differs)
        | inl v ↦ rw (h, v) (decode_body-Outcome (enumerators_of input) input n out b)
      ]
    ]
