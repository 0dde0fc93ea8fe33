-- ===== src/Ble/Published.antt =====
-- src/application/vehicle_data_read_model.h and src/application/ble_vehicle_data_payload.h: the metadata
-- of a read, sent over BLE.
use esp32_vag_data_server.Prelude.{
  ℕ, ◌^◌, ◌<◌, ◌≡◌, ◌≢◌, ◌↔◌, inl, inr, refl, sym, subst, Bool, not, List, Option, none, some,
  arith, if◌then◌else◌, Bool-cases, length,
}
use esp32_vag_data_server.Store.{VehicleDataStore}
use esp32_vag_data_server.Profiles.{
  ProfileIdentity, ProfileSelectionState, selected, unknown, ambiguous, manual_selection_required,
  FixedSignalRegistry, new_profile,
}
use esp32_vag_data_server.Profiles.Selection.{
  ProfileOperation, perform_profiles, perform_profiles-selection_of,
}
use esp32_vag_data_server.ReadModel.{
  complete, ReadOutput, read_snapshot, VehicleDataReadSnapshot, VehicleDataReadModel, projection,
  registered, is_null, is_selected,
}
use esp32_vag_data_server.ReadModel.Read.{Sized, read_snapshot_lem}
use esp32_vag_data_server.Ble.Records.{encode_ble_snapshot_metadata}
use esp32_vag_data_server.Ble.Payloads.{snapshot_bytes}
use esp32_vag_data_server.Ble.Encoders.{Encodes}
use esp32_vag_data_server.Ble.Metadata.{Countable, encode_ble_snapshot_metadata-Encodes}

-- The identity that a read shows of a profile with one exactly in the state `selected`.
shown_identity :
    (state : ProfileSelectionState) (active : Option ProfileIdentity)
    → (active ≡ none) ↔ (state ≢ selected)
    → is_null (if is_selected state then active else none) ≡ not (is_selected state)
shown_identity unknown active w = refl
shown_identity ambiguous active w = refl
shown_identity manual_selection_required active w = refl
shown_identity selected none w = absurd (w.0 refl refl)
shown_identity selected (some identity) w = refl

projection-Countable :
    (model : VehicleDataReadModel)
    → (model.profile_.active_ ≡ none) ↔ (model.profile_.state_ ≢ selected)
    → length (registered model.registry_) < 2 ^ 16
    → model.store_.size_ < 2 ^ 16
    → Countable (record (projection model) { sample_count = model.store_.size_ })
unfolding projection
projection-Countable model w r s =
    let registry : Bool = (projection model).has_capability_registry in
    (
      shown_identity model.profile_.state_ model.profile_.active_ w,
      λ e. rw e refl,
      elim (Bool-cases registry) [ inl e ↦ rw e r | inr e ↦ rw e (omega arith) ],
      s,
    )

-- The read model of a new profile behind operations.
abbrev pub reader :
    List ProfileIdentity
    → List ProfileOperation
    → VehicleDataStore
    → Option ProfileIdentity
    → Option FixedSignalRegistry
    → VehicleDataReadModel
reader admitted operations store owner registry = record {
  profile_ = perform_profiles operations (new_profile admitted);
  store_ = store;
  registry_profile_ = owner;
  registry_ = registry;
}

-- A read of a profile after any operations, of a store and a registry with fewer than 65536 entries each:
-- the metadata that it publishes if it completes is never refused by the encoder for BLE, which puts it
-- at the front of the output, or finds that too small.
pub read_snapshot-encoded :
    (admitted : List ProfileIdentity) (operations : List ProfileOperation)
    (store : VehicleDataStore) (owner : Option ProfileIdentity)
    (registry : Option FixedSignalRegistry) (sample_capacity capability_capacity : ℕ)
    (caller : ReadOutput) (output : List ℕ)
    → Sized caller.samples sample_capacity
    → Sized caller.capabilities capability_capacity
    → length (registered registry) < 2 ^ 16
    → store.size_ < 2 ^ 16
    → length output < 2 ^ 64
    → (read_snapshot
        (reader admitted operations store owner registry)
        sample_capacity
        capability_capacity
        caller).0.status
      ≡ complete
    → let published =
        (read_snapshot
          (reader admitted operations store owner registry)
          sample_capacity
          capability_capacity
          caller).1 in
      Encodes
        (snapshot_bytes published.metadata)
        output
        (encode_ble_snapshot_metadata published.metadata (some output) (length output))
read_snapshot-encoded admitted operations store owner registry sample_capacity capability_capacity
      caller output s c r n l q =
    let model : VehicleDataReadModel = reader admitted operations store owner registry in
    let next : VehicleDataReadSnapshot = record (projection model) { sample_count = store.size_ } in
    let (state, active, admitted_, selection) = perform_profiles-selection_of admitted operations in
    let (sized, counted, outcome) =
      read_snapshot_lem model sample_capacity capability_capacity caller s c in
    let countable : Countable next = projection-Countable model selection r n in
    let encoded : Encodes (snapshot_bytes next) output
        (encode_ble_snapshot_metadata next (some output) (length output)) =
      elim (encode_ble_snapshot_metadata-Encodes next output l) [
        | inl (fits, size, e) ↦ e
        | inr (refused, e) ↦ absurd (refused countable)
      ] in
    elim outcome [
      | inl (failed, both, same) ↦ absurd (cc (failed, q))
      | inr (done, both, published, samples, capabilities) ↦
          subst
            (λ (m : VehicleDataReadSnapshot).
              Encodes (snapshot_bytes m) output
                (encode_ble_snapshot_metadata m (some output) (length output)))
            (sym published) encoded
    ]
