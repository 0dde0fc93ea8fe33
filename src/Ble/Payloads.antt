-- ===== src/Ble/Payloads.antt =====
-- src/application/ble_vehicle_data_payload.h: the payloads, byte for byte.
use esp32_vag_data_server.Prelude.{
  ℕ, ◌^◌, ◌<◌, ◌≤◌, ◌≡◌, refl, ap, Bool, true, false, not, List, [], ◌∷◌, ◌++◌, Option, none, some,
  arith, ltb, if◌then◌else◌,
}
use esp32_vag_data_server.VehicleData.Sample.{
  VehicleValueType, numeric, boolean, text, NormalizedVehicleValue, NormalizedVehicleSample,
  is_none, has_value, numeric_value, boolean_value, no_value,
}
use esp32_vag_data_server.VehicleData.Making.{
  IsSample, IsValue, is_no_value, is_numeric_value, is_boolean_value, is_text_value,
}
use esp32_vag_data_server.Profiles.{ProfileIdentity, NormalizedSignalDescriptor}
use esp32_vag_data_server.ReadModel.{VehicleDataReadSnapshot, is_null}
use esp32_vag_data_server.Export.Written.{IsText-facts}
use esp32_vag_data_server.Ble.Writer.{
  succeed, state_code, type_code, support_code, availability_code, quality_code, source_code,
}
use esp32_vag_data_server.Ble.Records.{
  flag, append_identity, append_value, is_valid_snapshot, is_valid_record, write_snapshot,
  write_capability, write_sample,
}
use esp32_vag_data_server.Ble.Emits.{
  Emits, &>-Emits, succeed-Emits, append_byte-Emits, append_u16-Emits, append_u32-Emits,
  append_u64-Emits, append_header-Emits, append_string-Emits, big_endian, prefixed,
}

-- The payload of a snapshot's metadata.
abbrev pub identity_bytes : Option ProfileIdentity → List ℕ
identity_bytes none = []
identity_bytes (some identity) = big_endian 4 identity.value_

abbrev pub snapshot_bytes : VehicleDataReadSnapshot → List ℕ
snapshot_bytes s =
    1
    ∷ 1
    ∷ state_code s.selection_state
    ∷ flag (not (is_null s.active_identity))
    ∷ (identity_bytes s.active_identity
        ++ (flag s.has_capability_registry
            ∷ (big_endian 2 s.capability_count ++ big_endian 2 s.sample_count)))

append_identity-Emits : (i : Option ProfileIdentity) → Emits (append_identity i) (identity_bytes i)
unfolding append_identity
append_identity-Emits none = succeed-Emits
append_identity-Emits (some identity) = append_u32-Emits identity.value_

pub write_snapshot-Emits :
    (s : VehicleDataReadSnapshot)
    → is_valid_snapshot s ≡ true
    → Emits (write_snapshot s) (snapshot_bytes s)
unfolding write_snapshot
write_snapshot-Emits s v = rw v (
    &>-Emits (append_header-Emits 1) (
      &>-Emits (append_byte-Emits _) (
        &>-Emits (append_byte-Emits _) (
          &>-Emits (append_identity-Emits s.active_identity) (
            &>-Emits (append_byte-Emits _) (
              &>-Emits (append_u16-Emits s.capability_count) (append_u16-Emits s.sample_count)))))))

-- The payload of a capability.
abbrev pub capability_bytes : NormalizedSignalDescriptor → ℕ → List ℕ
capability_bytes c index =
    1
    ∷ 2
    ∷ (big_endian 2 index
        ++ (prefixed c.identity
            ++ (type_code c.expected_value_type
                ∷ (prefixed c.unit ++ (support_code c.support ∷ [])))))

pub write_capability-Emits :
    (c : NormalizedSignalDescriptor) (index : ℕ)
    → c.identity.length_ ≤ 255
    → c.unit.length_ ≤ 255
    → index < 2 ^ 16
    → Emits (write_capability c index) (capability_bytes c index)
unfolding write_capability
write_capability-Emits c index l m i =
    let fits : ltb 0xFFFF index ≡ false = ground arith in
    rw fits (
      &>-Emits (append_header-Emits 2) (
        &>-Emits (append_u16-Emits index) (
          &>-Emits (append_string-Emits c.identity l) (
            &>-Emits (append_byte-Emits _)
              (&>-Emits (append_string-Emits c.unit m) (append_byte-Emits _))))))

-- The payload of a sample.
abbrev pub value_bytes : VehicleValueType → NormalizedVehicleValue → List ℕ
value_bytes numeric value = big_endian 8 value.numeric_
value_bytes boolean value = flag value.boolean_ ∷ []
value_bytes text value = prefixed value.text_
value_bytes VehicleValueType.none value = []

abbrev pub present_bytes : Bool → NormalizedVehicleValue → List ℕ
present_bytes present value = if present then value_bytes value.type_ value else []

abbrev pub sample_bytes : NormalizedVehicleSample → ℕ → List ℕ
sample_bytes s index =
    1
    ∷ 3
    ∷ (big_endian 2 index
        ++ (prefixed s.signal_id
            ++ (type_code s.value.type_
                ∷ flag (has_value s)
                ∷ (present_bytes (has_value s) s.value
                    ++ (prefixed s.unit
                        ++ (source_code s.source
                            ∷ quality_code s.quality
                            ∷ availability_code s.availability
                            ∷ big_endian 8 s.timestamp_ms))))))

append_value-Emits :
    (v : NormalizedVehicleValue)
    → IsValue v
    → is_none v.type_ ≡ false
    → Emits (append_value v.type_ v) (value_bytes v.type_ v)
unfolding append_value numeric_value boolean_value no_value
append_value-Emits v (is_no_value e) n =
    let nothing : is_none v.type_ ≡ true = ap (λ (x : NormalizedVehicleValue). is_none x.type_) e in
    absurd (cc (nothing, n))
append_value-Emits v (is_numeric_value bits l e) n = rw e (append_u64-Emits bits)
append_value-Emits v (is_boolean_value b e) n = rw e (append_byte-Emits (flag b))
append_value-Emits v (is_text_value made t e) n =
    rw e (append_string-Emits made (omega (arith, (IsText-facts t).0)))

present-Emits :
    (v : NormalizedVehicleValue) (present : Bool)
    → IsValue v
    → (present ≡ true → is_none v.type_ ≡ false)
    → Emits (if present then append_value v.type_ v else succeed) (present_bytes present v)
present-Emits v true w n = append_value-Emits v w (n refl)
present-Emits v false w n = succeed-Emits

pub write_sample-Emits :
    (s : NormalizedVehicleSample) (index : ℕ)
    → IsSample s
    → is_valid_record s index ≡ true
    → Emits (write_sample s index) (sample_bytes s index)
unfolding write_sample has_value
write_sample-Emits s index w v =
    let id = append_string-Emits s.signal_id (omega (arith, (IsText-facts w.signal_id).0)) in
    let unit = append_string-Emits s.unit (omega (arith, (IsText-facts w.unit).0)) in
    let value = present-Emits s.value (has_value s) w.value (λ q. ground arith) in
    rw v (
      &>-Emits (append_header-Emits 3) (
        &>-Emits (append_u16-Emits index) (
          &>-Emits id (
            &>-Emits (append_byte-Emits _) (
              &>-Emits (append_byte-Emits _) (
                &>-Emits value (
                  &>-Emits unit (
                    &>-Emits (append_byte-Emits _) (
                      &>-Emits (append_byte-Emits _)
                        (&>-Emits (append_byte-Emits _) (append_u64-Emits s.timestamp_ms)))))))))))
