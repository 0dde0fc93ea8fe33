-- ===== src/Ble/Metadata.antt =====
-- src/application/ble_vehicle_data_payload.h: the payloads of a snapshot's metadata and of a capability.
use esp32_vag_data_server.Prelude.{
  ℕ, ◌^◌, ◌<◌, ◌≤◌, ◌≡◌, ◌⊎◌, inl, inr, refl, ap, ◌∙◌, Bool, true, false, not, List, [], ◌∷◌, ◌++◌,
  Option, none, some, arith, ltb, Bool-cases, length, length-append,
}
use esp32_vag_data_server.VehicleData.Assign.{IsText}
use esp32_vag_data_server.VehicleData.Sample.{k_max_signal_id_length, k_max_unit_length}
use esp32_vag_data_server.Export.Decode.{bool_eq}
use esp32_vag_data_server.Export.Written.{IsText-facts}
use esp32_vag_data_server.Profiles.{ProfileIdentity, NormalizedSignalDescriptor}
use esp32_vag_data_server.ReadModel.{VehicleDataReadSnapshot, is_null, is_selected}
use esp32_vag_data_server.Ble.Writer.{support_code, type_code}
use esp32_vag_data_server.Ble.Records.{
  flag, is_valid_snapshot, write_snapshot, write_capability, encode_ble_snapshot_metadata,
  encode_ble_capability_record,
}
use esp32_vag_data_server.Ble.Emits.{big_endian, prefixed}
use esp32_vag_data_server.Ble.Payloads.{
  identity_bytes, snapshot_bytes, write_snapshot-Emits, capability_bytes, write_capability-Emits,
}
use esp32_vag_data_server.Ble.Encoders.{
  Encodes, Refuses, encode_payload-Encodes, refuse-Refuses, prefixed-length,
}

-- What the payload of a snapshot can hold: an identity exactly if one is selected, capabilities only with
-- a registry, and two counts of 16 bits.
abbrev pub Countable : VehicleDataReadSnapshot → Type 0
Countable s =
    (is_null s.active_identity ≡ not (is_selected s.selection_state))
    × (s.has_capability_registry ≡ false → s.capability_count ≡ 0)
    × (s.capability_count < 2 ^ 16)
    × (s.sample_count < 2 ^ 16)

identity_bytes-length : (i : Option ProfileIdentity) → length (identity_bytes i) ≤ 4
unfolding big_endian
identity_bytes-length none = omega arith
identity_bytes-length (some identity) = omega arith

snapshot_bytes-length : (s : VehicleDataReadSnapshot) → length (snapshot_bytes s) ≤ 13
unfolding big_endian
snapshot_bytes-length s =
    let rest =
      flag s.has_capability_registry
      ∷ (big_endian 2 s.capability_count ++ big_endian 2 s.sample_count) in
    omega (
      arith,
      identity_bytes-length s.active_identity,
      length-append {0} (identity_bytes s.active_identity) rest,
    )

valid-Countable : (s : VehicleDataReadSnapshot) → is_valid_snapshot s ≡ true → Countable s
unfolding is_valid_snapshot
valid-Countable s v = (
  agree (is_selected s.selection_state) (is_null s.active_identity) (ground arith),
  λ e. ground arith,
  ground arith,
  ground arith,
)
  where
    agree : (a b : Bool) → bool_eq a (not b) ≡ true → b ≡ not a
    agree true true e = cc
    agree true false e = refl
    agree false true e = refl
    agree false false e = cc

Countable-valid : (s : VehicleDataReadSnapshot) → Countable s → is_valid_snapshot s ≡ true
unfolding is_valid_snapshot
Countable-valid s (same, none_, few, fewer) =
    let agrees : bool_eq (is_selected s.selection_state) (not (is_null s.active_identity)) ≡ true =
      ap (λ b. bool_eq (is_selected s.selection_state) (not b)) same
      ∙ agree (is_selected s.selection_state) in
    let small : ltb 0xFFFF s.capability_count ≡ false = ground arith in
    let short : ltb 0xFFFF s.sample_count ≡ false = ground arith in
    elim (Bool-cases s.has_capability_registry) [
      | inl e ↦ rw (agrees, e, small, short) refl
      | inr e ↦ rw (agrees, e, none_ e, short) refl
    ]
  where
    agree : (a : Bool) → bool_eq a (not (not a)) ≡ true
    agree true = refl
    agree false = refl

-- The encoder of a snapshot's metadata, for any snapshot and any output: what the payload can hold is put
-- at the front of the output, in at most 13 bytes, or the output is too small and as it was. Anything
-- else is refused, and the output is as it was.
pub encode_ble_snapshot_metadata-Encodes :
    (s : VehicleDataReadSnapshot) (output : List ℕ)
    → length output < 2 ^ 64
    → let outcome = encode_ble_snapshot_metadata s (some output) (length output) in
      (Countable s × (length (snapshot_bytes s) ≤ 13) × Encodes (snapshot_bytes s) output outcome)
      ⊎ (¬ Countable s × Refuses output outcome)
unfolding encode_ble_snapshot_metadata write_snapshot
encode_ble_snapshot_metadata-Encodes s output l =
    let size = snapshot_bytes-length s in
    elim (Bool-cases (is_valid_snapshot s)) [
      | inl v ↦ inl (
        valid-Countable s v,
        size,
        encode_payload-Encodes (write_snapshot s) (snapshot_bytes s) output
            (write_snapshot-Emits s v) l (omega (arith, size)),
      )
      | inr v ↦
          inr (λ f. let valid = Countable-valid s f in cc (valid, v), rw v (refuse-Refuses output))
    ]

capability_bytes-length :
    (c : NormalizedSignalDescriptor) (index : ℕ)
    → IsText k_max_signal_id_length c.identity
    → IsText k_max_unit_length c.unit
    → length (capability_bytes c index) ≤ 104
unfolding big_endian
capability_bytes-length c index w u =
    let rest = support_code c.support ∷ [] in
    omega (
      arith,
      prefixed-length c.identity w,
      prefixed-length c.unit u,
      length-append {0} (prefixed c.identity)
          (type_code c.expected_value_type ∷ (prefixed c.unit ++ rest)),
      length-append {0} (prefixed c.unit) rest,
    )

-- The encoder of a capability whose texts are texts, for any index and any output: if the
-- index fits 16 bits, the payload of at most 104 bytes is put at the front of the output, or that is too
-- small and as it was. Otherwise the input is refused, and the output is as it was.
pub encode_ble_capability_record-Encodes :
    (c : NormalizedSignalDescriptor) (index : ℕ) (output : List ℕ)
    → IsText k_max_signal_id_length c.identity
    → IsText k_max_unit_length c.unit
    → length output < 2 ^ 64
    → let outcome = encode_ble_capability_record c index (some output) (length output) in
      ((index < 2 ^ 16)
        × (length (capability_bytes c index) ≤ 104)
        × Encodes (capability_bytes c index) output outcome)
      ⊎ ((2 ^ 16 ≤ index) × Refuses output outcome)
unfolding encode_ble_capability_record write_capability
encode_ble_capability_record-Encodes c index output w u l =
    let size = capability_bytes-length c index w u in
    elim (Bool-cases (ltb 0xFFFF index)) [
      | inl big ↦ inr (ground arith, rw big (refuse-Refuses output))
      | inr small ↦
          let emits =
            write_capability-Emits c index (omega (arith, (IsText-facts w).0))
              (omega (arith, (IsText-facts u).0)) (ground arith) in
          inl (
            ground arith,
            size,
            encode_payload-Encodes (write_capability c index) (capability_bytes c index) output
                emits l (omega (arith, size)),
          )
    ]
