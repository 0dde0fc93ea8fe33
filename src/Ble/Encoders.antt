-- ===== src/Ble/Encoders.antt =====
-- src/application/ble_vehicle_data_payload.h: the outcomes of the three encoders.
use esp32_vag_data_server.Prelude.{
  ℕ, suc, ◌+◌, ◌^◌, ◌<◌, ◌≤◌, ◌≡◌, ◌⊎◌, inl, inr, refl, ap, ◌∙◌, Bool, true, false, not, ◌&&◌, List,
  [], ◌∷◌, ◌++◌, Option, some, arith, ltb, ==_refl, Bool-cases, length, drop, write_at,
  length-append,
}
use esp32_vag_data_server.VehicleData.Text.{BoundedText}
use esp32_vag_data_server.VehicleData.Sample.{
  VehicleValueType, numeric, boolean, text, NormalizedVehicleValue, NormalizedVehicleSample,
  is_none, is_available, is_invalid, has_value, numeric_value, boolean_value, no_value,
}
use esp32_vag_data_server.VehicleData.Making.{
  IsSample, IsValue, is_no_value, is_numeric_value, is_boolean_value, is_text_value,
}
use esp32_vag_data_server.Export.Bytes.{write_at-next}
use esp32_vag_data_server.Export.Written.{IsText-facts}
use esp32_vag_data_server.Ble.Writer.{
  Action, refuse, type_code, availability_code, quality_code, source_code,
}
use esp32_vag_data_server.Ble.Records.{
  encoded, insufficient_capacity, invalid_input, BlePayloadResult, flag, is_valid_record,
  write_sample, encode_to, encode_payload, encode_ble_sample_record,
}
use esp32_vag_data_server.Ble.Emits.{Emits, counting, writing_to, big_endian, prefixed}
use esp32_vag_data_server.Export.Written.{IsFinite}
use esp32_vag_data_server.VehicleData.Assign.{IsText}
use esp32_vag_data_server.Export.Layout.{is_finite}
use esp32_vag_data_server.Ble.Records.{is_numeric}
use esp32_vag_data_server.Ble.Payloads.{present_bytes, sample_bytes, write_sample-Emits}

-- The outcome of an encoder for a payload: it is put at the front of the output, behind which that is as
-- it was; or the output is too small, and nothing is written. Both ways its length is given.
abbrev pub Encodes : List ℕ → List ℕ → BlePayloadResult × Option (List ℕ) → Type 0
Encodes bytes output (result, written) =
    (result.required_capacity ≡ length bytes)
    × (((result.status ≡ encoded)
          × (length bytes ≤ length output)
          × (written ≡ some (bytes ++ drop (length bytes) output)))
        ⊎ ((result.status ≡ insufficient_capacity)
            × (length output < length bytes)
            × (written ≡ some output)))

-- The outcome for what has no payload.
abbrev pub Refuses : List ℕ → BlePayloadResult × Option (List ℕ) → Type 0
Refuses output (result, written) =
    (result.status ≡ invalid_input) × (result.required_capacity ≡ 0) × (written ≡ some output)

-- The two passes of `encode` agree on a call that writes `bytes`.
pub encode_payload-Encodes :
    (a : Action) (bytes output : List ℕ)
    → Emits a bytes
    → length output < 2 ^ 64
    → length bytes < 2 ^ 64
    → Encodes bytes output (encode_payload a (some output) (length output))
unfolding encode_payload encode_to
encode_payload-Encodes a bytes output e l m =
    let zero_ : 0 + length bytes ≡ length bytes = omega arith in
    let counted : a (counting 0 0) ≡ (true, counting 0 (length bytes)) =
      e.counts 0 0 (omega arith) ∙ ap (λ k. (true, counting 0 k)) zero_ in
    elim (Bool-cases (ltb (length output) (length bytes))) [
      | inl small ↦ rw (counted, small) (refl, inr (refl, ground arith, refl))
      | inr room ↦
          let put : write_at output 0 bytes ≡ bytes ++ drop (length bytes) output =
            write_at-next [] output bytes 0 refl (ground arith) in
          let written : a (writing_to output (length output) 0) ≡ (
            true,
            writing_to (bytes ++ drop (length bytes) output) (length output) (length bytes),
          ) =
            e.writes output (length output) 0 (ground arith) l
            ∙ ap (λ k. (true, writing_to (write_at output 0 bytes) (length output) k)) zero_
            ∙ ap (λ o. (true, writing_to o (length output) (length bytes))) put in
          rw (counted, room, written, ==_refl (length bytes)) (refl, inl (refl, ground arith, refl))
    ]

pub refuse-Refuses :
    (output : List ℕ) → Refuses output (encode_payload refuse (some output) (length output))
unfolding encode_payload refuse
refuse-Refuses output = (refl, refl, refl)

pub prefixed-length :
    {capacity : ℕ} (t : BoundedText) → IsText capacity t → length (prefixed t) ≤ suc capacity
prefixed-length t w = omega (arith, (IsText-facts w).0, (IsText-facts w).1)

present_bytes-length :
    (v : NormalizedVehicleValue) (present : Bool)
    → IsValue v
    → length (present_bytes present v) ≤ 18
unfolding big_endian numeric_value boolean_value no_value
present_bytes-length v false w = omega arith
present_bytes-length v true (is_no_value e) = rw e (omega arith)
present_bytes-length v true (is_numeric_value bits l e) = rw e (omega arith)
present_bytes-length v true (is_boolean_value b e) = rw e (omega arith)
present_bytes-length v true (is_text_value made t e) = rw e (omega (arith, prefixed-length made t))

sample_bytes-length :
    (s : NormalizedVehicleSample) (index : ℕ) → IsSample s → length (sample_bytes s index) ≤ 133
unfolding big_endian
sample_bytes-length s index w =
    let rest =
      source_code s.source
      ∷ quality_code s.quality
      ∷ availability_code s.availability
      ∷ big_endian 8 s.timestamp_ms in
    let unit = prefixed s.unit ++ rest in
    let value = present_bytes (has_value s) s.value ++ unit in
    omega (
      arith,
      prefixed-length s.signal_id w.signal_id,
      prefixed-length s.unit w.unit,
      present_bytes-length s.value (has_value s) w.value,
      length-append {0} (prefixed s.signal_id)
          (type_code s.value.type_ ∷ flag (has_value s) ∷ value),
      length-append {0} (present_bytes (has_value s) s.value) unit,
      length-append {0} (prefixed s.unit) rest,
    )

-- What can be sent of a sample: its index fits 16 bits, and a number that counts as a value is finite.
abbrev pub Sendable : NormalizedVehicleSample → ℕ → Type 0
Sendable s index = (index < 2 ^ 16) × (has_value s ≡ true → IsFinite s.value.type_ s.value)

tested-Sendable :
    (t : VehicleValueType) (s : NormalizedVehicleSample)
    → has_value s && is_numeric t && not (is_finite s.value.numeric_) ≡ false
    → has_value s ≡ true
    → IsFinite t s.value
tested-Sendable numeric s e p = ground arith
tested-Sendable boolean s e p = tt
tested-Sendable text s e p = tt
tested-Sendable VehicleValueType.none s e p = tt

Sendable-tested :
    (t : VehicleValueType) (s : NormalizedVehicleSample)
    → (has_value s ≡ true → IsFinite t s.value)
    → has_value s && is_numeric t && not (is_finite s.value.numeric_) ≡ false
Sendable-tested t s f = elim (Bool-cases (has_value s)) [
  | inr e ↦ rw e refl
  | inl e ↦ rw e (finite t (f e))
]
  where
    finite :
        (x : VehicleValueType)
        → IsFinite x s.value
        → is_numeric x && not (is_finite s.value.numeric_) ≡ false
    finite numeric g = rw g refl
    finite boolean g = refl
    finite text g = refl
    finite VehicleValueType.none g = refl

valid-Sendable :
    (s : NormalizedVehicleSample) (index : ℕ) → is_valid_record s index ≡ true → Sendable s index
unfolding is_valid_record
valid-Sendable s index v = (ground arith, tested-Sendable s.value.type_ s (ground arith))

Sendable-valid :
    (s : NormalizedVehicleSample) (index : ℕ)
    → IsSample s
    → Sendable s index
    → is_valid_record s index ≡ true
unfolding is_valid_record has_value
Sendable-valid s index w (l, f) =
    let small : ltb 0xFFFF index ≡ false = ground arith in
    let finite = Sendable-tested s.value.type_ s f in
    let none_ : is_none s.value.type_ ≡ not (is_available s.availability) = w.has_value in
    elim (Bool-cases (is_available s.availability)) [
      | inr a ↦ rw (small, none_, a) refl
      | inl a ↦ elim (Bool-cases (is_invalid s.quality)) [
        | inl q ↦ rw (small, none_, a, q) refl
        | inr q ↦
            let number : is_numeric s.value.type_ && not (is_finite s.value.numeric_) ≡ false =
              ground arith in
            rw (small, none_, a, q, number) refl
      ]
    ]

-- The encoder of a sample, for any index and any output: if the index fits 16 bits, and the number is
-- finite where the sample has one as its value, the payload of at most 133 bytes is put at the front of
-- the output, behind which that is as it was, or the output is too small and as it was; its length is
-- given both ways. Otherwise the input is refused, and the output is as it was.
pub encode_ble_sample_record-Encodes :
    (s : NormalizedVehicleSample) (index : ℕ) (output : List ℕ)
    → IsSample s
    → length output < 2 ^ 64
    → let outcome = encode_ble_sample_record s index (some output) (length output) in
      (Sendable s index
        × (length (sample_bytes s index) ≤ 133)
        × Encodes (sample_bytes s index) output outcome)
      ⊎ (¬ Sendable s index × Refuses output outcome)
unfolding encode_ble_sample_record write_sample
encode_ble_sample_record-Encodes s index output w l =
    let size = sample_bytes-length s index w in
    elim (Bool-cases (is_valid_record s index)) [
      | inl v ↦ inl (
        valid-Sendable s index v,
        size,
        encode_payload-Encodes (write_sample s index) (sample_bytes s index) output
            (write_sample-Emits s index w v) l (omega (arith, size)),
      )
      | inr v ↦ inr (
        λ f. let valid = Sendable-valid s index w f in cc (valid, v),
        rw v (refuse-Refuses output),
      )
    ]
