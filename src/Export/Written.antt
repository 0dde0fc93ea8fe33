-- ===== src/Export/Written.antt =====
-- src/application/vehicle_data_export_record.h: the bytes that `encode` writes.
use esp32_vag_data_server.Prelude.{
  ℕ, ◌+◌, ◌<◌, ◌≤◌, ◌≡◌, ◌⊎◌, inl, inr, refl, sym, ap, true, false, not, List, ◌++◌, some, arith,
  ltb, Bool-cases, length, drop, length-append,
}
use esp32_vag_data_server.VehicleData.Text.{BoundedText, content}
use esp32_vag_data_server.VehicleData.Assign.{IsText, text_of, content-text_of}
use esp32_vag_data_server.VehicleData.Sample.{
  VehicleValueType, numeric, boolean, text, NormalizedVehicleValue, NormalizedVehicleSample,
  is_none, is_available, has_value, numeric_value, boolean_value, no_value, k_max_signal_id_length,
  k_max_unit_length,
}
use esp32_vag_data_server.VehicleData.Making.{
  IsValue, is_no_value, is_numeric_value, is_boolean_value, is_text_value, IsSample,
}
use esp32_vag_data_server.Export.Layout.{
  ok, buffer_too_small, k_header_size, is_finite, u64_bytes, payload_length_of, payload_of,
  is_valid_value, is_valid_sample, required_capacity,
}
use esp32_vag_data_server.Export.Encode.{header, encode_into, encode_with, encode}
use esp32_vag_data_server.Export.Bytes.{write_at-four}

-- A sample whose number, if it is one, is finite.
abbrev pub IsFinite : VehicleValueType → NormalizedVehicleValue → Type 0
IsFinite numeric value = is_finite value.numeric_ ≡ true
IsFinite boolean value = Unit
IsFinite text value = Unit
IsFinite VehicleValueType.none value = Unit

abbrev pub Exportable : NormalizedVehicleSample → Type 0
Exportable s = IsSample s × IsFinite s.value.type_ s.value

-- The length of a record, and its bytes.
abbrev pub record_length : NormalizedVehicleSample → ℕ
record_length s =
    k_header_size + s.signal_id.length_ + s.unit.length_ + payload_length_of s.value.type_ s.value

abbrev pub record_bytes : NormalizedVehicleSample → List ℕ
record_bytes s =
    header s (record_length s)
    ++ (content s.signal_id ++ (content s.unit ++ payload_of s.value.type_ s.value))

-- What the encoders use of a text.
pub IsText-facts :
    {capacity : ℕ} {t : BoundedText}
    → IsText capacity t
    → (t.length_ ≤ capacity) × (length (content t) ≡ t.length_)
unfolding text_of
IsText-facts {capacity} {t} w = rw w.made (w.size, ap length (content-text_of capacity w.bytes))

pub payload-length :
    (v : NormalizedVehicleValue)
    → IsValue v
    → (length (payload_of v.type_ v) ≡ payload_length_of v.type_ v)
      × (payload_length_of v.type_ v ≤ 17)
unfolding numeric_value boolean_value no_value u64_bytes
payload-length v (is_no_value e) = rw e (refl, omega arith)
payload-length v (is_numeric_value bits l e) = rw e (refl, omega arith)
payload-length v (is_boolean_value b e) = rw e (refl, omega arith)
payload-length v (is_text_value made t e) = rw e ((IsText-facts t).1, (IsText-facts t).0)

length-header : (s : NormalizedVehicleSample) (n : ℕ) → length (header s n) ≡ 23
unfolding u64_bytes
length-header s n = refl

abbrev TextFits : VehicleValueType → NormalizedVehicleValue → Type 0
TextFits numeric value = Unit
TextFits boolean value = Unit
TextFits text value = value.text_.length_ ≤ 17
TextFits VehicleValueType.none value = Unit

IsValue-TextFits : (v : NormalizedVehicleValue) → IsValue v → TextFits v.type_ v
unfolding numeric_value boolean_value no_value
IsValue-TextFits v (is_no_value e) = rw e tt
IsValue-TextFits v (is_numeric_value bits l e) = rw e tt
IsValue-TextFits v (is_boolean_value b e) = rw e tt
IsValue-TextFits v (is_text_value made t e) = rw e (IsText-facts t).0

-- A sample is refused by none of the tests, and its length is that of its bytes.
valid_type :
    (t : VehicleValueType) (s : NormalizedVehicleSample)
    → is_none t ≡ not (is_available s.availability)
    → IsFinite t s.value
    → TextFits t s.value
    → is_valid_value t s ≡ true
unfolding has_value
valid_type numeric s h f fits = ground arith
valid_type boolean s h f fits = ground arith
valid_type text s h f fits = ground arith
valid_type VehicleValueType.none s h f fits = ground arith

pub required_capacity-record :
    (s : NormalizedVehicleSample) → Exportable s → required_capacity s ≡ (ok, record_length s)
unfolding required_capacity is_valid_sample
required_capacity-record s (w, f) =
    let signal : ltb k_max_signal_id_length s.signal_id.length_ ≡ false =
      ground (arith, (IsText-facts w.signal_id).0) in
    let unit : ltb k_max_unit_length s.unit.length_ ≡ false =
      ground (arith, (IsText-facts w.unit).0) in
    rw (signal, unit, valid_type s.value.type_ s w.has_value f (IsValue-TextFits s.value w.value))
      refl

pub length-record_bytes :
    (s : NormalizedVehicleSample) → IsSample s → length (record_bytes s) ≡ record_length s
length-record_bytes s w =
    let body = content s.signal_id ++ (content s.unit ++ payload_of s.value.type_ s.value) in
    omega (
      arith,
      length-header s (record_length s),
      length-append {0} (header s (record_length s)) body,
      length-append {0} (content s.signal_id) (content s.unit ++ payload_of s.value.type_ s.value),
      length-append {0} (content s.unit) (payload_of s.value.type_ s.value),
      (IsText-facts w.signal_id).1,
      (IsText-facts w.unit).1,
      (payload-length s.value w.value).0,
    )

-- The four stores leave the record at the front of the output, and the rest as it was.
pub encode_into-record :
    (s : NormalizedVehicleSample) (output : List ℕ)
    → IsSample s
    → record_length s ≤ length output
    → encode_into s (record_length s) output ≡ record_bytes s ++ drop (record_length s) output
unfolding encode_into
encode_into-record s output w l =
    write_at-four (header s (record_length s)) (content s.signal_id) (content s.unit)
      (payload_of s.value.type_ s.value) output k_header_size (k_header_size + s.signal_id.length_)
      (k_header_size + s.signal_id.length_ + s.unit.length_) (record_length s)
      (sym (length-header s (record_length s))) (omega (arith, (IsText-facts w.signal_id).1))
      (omega (arith, (IsText-facts w.unit).1)) (omega (arith, (payload-length s.value w.value).0)) l

-- `encode` of a sample into memory of the stated capacity: either the record is at its front, behind
-- which it is as it was, or the capacity is less than the record's length and nothing is written. Both
-- ways `required` is the record's length.
pub encode-record_bytes :
    (s : NormalizedVehicleSample) (output : List ℕ)
    → Exportable s
    → let (status, written, required) = encode s (some output) (length output) in
      (length (record_bytes s) ≡ record_length s)
      × (required ≡ record_length s)
      × (((status ≡ ok)
            × (record_length s ≤ length output)
            × (written ≡ some (record_bytes s ++ drop (record_length s) output)))
          ⊎ ((status ≡ buffer_too_small)
              × (length output < record_length s)
              × (written ≡ some output)))
unfolding encode encode_with
encode-record_bytes s output (w, f) =
    let size : length (record_bytes s) ≡ record_length s = length-record_bytes s w in
    let r = required_capacity-record s (w, f) in
    elim (Bool-cases (ltb (length output) (record_length s))) [
      | inl e ↦ rw (r, e) (size, refl, inr (refl, ground arith, refl))
      | inr e ↦
          rw (r, e)
            (
              size,
              refl,
              inl (refl, ground arith, ap some (encode_into-record s output w (ground arith))),
            )
    ]
