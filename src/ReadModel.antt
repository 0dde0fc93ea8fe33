-- ===== src/ReadModel.antt =====
-- src/application/vehicle_data_read_model.h: `VehicleDataReadModel`. The profile, the store and the
-- registry that it refers to are their values at the time of a call, which changes none of them.
use esp32_vag_data_server.Prelude.{
  ℕ, Bool, true, false, not, ◌&&◌, ◌||◌, List, [], Option, none, some, ltb, ◌==◌, if◌then◌else◌,
  length,
}
use esp32_vag_data_server.VehicleData.Sample.{NormalizedVehicleSample}
use esp32_vag_data_server.VehicleData.Text.{empty_text}
use esp32_vag_data_server.VehicleData.Sample.{
  VehicleValueType, k_max_signal_id_length, k_max_unit_length,
}
use esp32_vag_data_server.Store.{VehicleDataStore, is_complete_snapshot, snapshot, copy_elements}
use esp32_vag_data_server.Profiles.{
  ProfileIdentity, identity_eq, ProfileSelectionState, unknown, ambiguous,
  manual_selection_required, selected, ActiveVehicleProfile, NormalizedSignalDescriptor,
  CapabilitySupport, FixedSignalRegistry,
}
pub mod Read
pub mod Association
mod Tests

-- `VehicleDataReadStatus`.
pub data VehicleDataReadStatus : Type 0 where
  complete insufficient_capacity : VehicleDataReadStatus

-- `VehicleDataReadResult`.
pub record VehicleDataReadResult : Type 0 where
  pub status : VehicleDataReadStatus
  pub required_sample_capacity : ℕ
  pub required_capability_capacity : ℕ

-- `VehicleDataReadSnapshot`.
pub record VehicleDataReadSnapshot : Type 0 where
  pub selection_state : ProfileSelectionState
  pub active_identity : Option ProfileIdentity
  pub has_capability_registry : Bool
  pub capability_count : ℕ
  pub sample_count : ℕ

-- `VehicleDataReadModel`.
pub record VehicleDataReadModel : Type 0 where
  pub profile_ : ActiveVehicleProfile
  pub store_ : VehicleDataStore
  pub registry_profile_ : Option ProfileIdentity
  pub registry_ : Option FixedSignalRegistry

-- What the caller owns: the two buffers, nothing for a null pointer, and the metadata.
pub record ReadOutput : Type 0 where
  pub samples : Option (List NormalizedVehicleSample)
  pub capabilities : Option (List NormalizedSignalDescriptor)
  pub metadata : VehicleDataReadSnapshot

abbrev pub is_selected : ProfileSelectionState → Bool
is_selected unknown = false
is_selected ambiguous = false
is_selected manual_selection_required = false
is_selected selected = true

abbrev pub is_null : {A : Type 0} → Option A → Bool
is_null none = true
is_null (some a) = false

-- `==` of two `std::optional`.
abbrev pub optional_eq : Option ProfileIdentity → Option ProfileIdentity → Bool
optional_eq none none = true
optional_eq none (some b) = false
optional_eq (some a) none = false
optional_eq (some a) (some b) = identity_eq a b

-- The descriptors behind the pointer to the registry, which is read only if it is not null.
abbrev pub registered : Option FixedSignalRegistry → List NormalizedSignalDescriptor
registered none = []
registered (some registry) = registry.descriptors_

-- `next`, before the store sets its count of samples.
unfoldable pub projection : VehicleDataReadModel → VehicleDataReadSnapshot
projection model =
    let state = model.profile_.state_ in
    let active = if is_selected state then model.profile_.active_ else none in
    let has_registry =
      not (is_null model.registry_)
      && not (is_null active)
      && optional_eq active model.registry_profile_ in
    record {
      selection_state = state;
      active_identity = active;
      has_capability_registry = has_registry;
      capability_count = if has_registry then length (registered model.registry_) else 0;
      sample_count = 0;
    }

-- An element of an array behind its end, which is never read.
abbrev pub no_descriptor : NormalizedSignalDescriptor
no_descriptor = record {
  identity = empty_text k_max_signal_id_length;
  expected_value_type = VehicleValueType.none;
  unit = empty_text k_max_unit_length;
  support = CapabilitySupport.unknown;
}

-- The loop over the descriptors.
abbrev pub copy_descriptors :
    ℕ
    → List NormalizedSignalDescriptor
    → Option (List NormalizedSignalDescriptor)
    → Option (List NormalizedSignalDescriptor)
copy_descriptors count descriptors none = none
copy_descriptors count descriptors (some output) =
    some (copy_elements count 0 descriptors no_descriptor output)

-- `VehicleDataReadModel::snapshot`.
unfoldable pub read_snapshot :
    VehicleDataReadModel → ℕ → ℕ → ReadOutput → VehicleDataReadResult × ReadOutput
read_snapshot model sample_capacity capability_capacity output =
    let next = projection model in
    let (stored, samples, count) = snapshot model.store_ output.samples sample_capacity in
    if ltb capability_capacity next.capability_count
      || (not (next.capability_count == 0) && is_null output.capabilities)
    then (
      record {
        status = VehicleDataReadStatus.insufficient_capacity;
        required_sample_capacity = model.store_.size_;
        required_capability_capacity = next.capability_count;
      },
      output,
    )
    else if not (is_complete_snapshot stored)
    then (
      record {
        status = VehicleDataReadStatus.insufficient_capacity;
        required_sample_capacity = count;
        required_capability_capacity = next.capability_count;
      },
      record output { samples = samples },
    )
    else (
      record {
        status = VehicleDataReadStatus.complete;
        required_sample_capacity = count;
        required_capability_capacity = next.capability_count;
      },
      record {
        samples = samples;
        capabilities =
            copy_descriptors next.capability_count (registered model.registry_) output.capabilities;
        metadata = record next { sample_count = count };
      },
    )
