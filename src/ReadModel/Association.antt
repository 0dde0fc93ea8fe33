-- ===== src/ReadModel/Association.antt =====
-- src/application/vehicle_data_read_model.h: when a read shows the registry.
use esp32_vag_data_server.Prelude.{
  ◌≡◌, ◌⊎◌, inl, inr, refl, true, false, List, Option, none, some, arith, Bool-cases, length,
}
use esp32_vag_data_server.Store.{VehicleDataStore}
use esp32_vag_data_server.Profiles.{
  ProfileIdentity, identity_eq, ProfileSelectionState, selected, unknown, ambiguous,
  manual_selection_required, FixedSignalRegistry,
}
use esp32_vag_data_server.ReadModel.{VehicleDataReadModel, VehicleDataReadSnapshot, projection}

-- What the projection shows of the registry.
abbrev pub Shown : VehicleDataReadModel → VehicleDataReadSnapshot → Type 0
Shown model next =
    ((next.has_capability_registry ≡ true)
      × ((active : ProfileIdentity) × (owner : ProfileIdentity) × (registry : FixedSignalRegistry)
          × (model.profile_.state_ ≡ selected)
          × (model.profile_.active_ ≡ some active)
          × (model.registry_profile_ ≡ some owner)
          × (model.registry_ ≡ some registry)
          × (active.value_ ≡ owner.value_)
          × (next.active_identity ≡ some active)
          × (next.capability_count ≡ length registry.descriptors_)))
    ⊎ ((next.has_capability_registry ≡ false) × (next.capability_count ≡ 0))

hidden :
    (model : VehicleDataReadModel)
    → (projection model).has_capability_registry ≡ false
    → Shown model (projection model)
unfolding projection
hidden model e = inr (e, rw e refl)

abbrev model_of :
    List ProfileIdentity
    → ProfileSelectionState
    → Option ProfileIdentity
    → VehicleDataStore
    → Option ProfileIdentity
    → Option FixedSignalRegistry
    → VehicleDataReadModel
model_of admitted state active store owner registry = record {
  profile_ = record { admitted_ = admitted; state_ = state; active_ = active };
  store_ = store;
  registry_profile_ = owner;
  registry_ = registry;
}

shown :
    (admitted : List ProfileIdentity) (state : ProfileSelectionState)
    (active : Option ProfileIdentity) (store : VehicleDataStore) (owner : Option ProfileIdentity)
    (registry : Option FixedSignalRegistry)
    → let model = model_of admitted state active store owner registry in
      Shown model (projection model)
unfolding projection
shown admitted unknown active store owner none =
    hidden (model_of admitted unknown active store owner none) refl
shown admitted unknown active store owner (some registry) =
    hidden (model_of admitted unknown active store owner (some registry)) refl
shown admitted ambiguous active store owner none =
    hidden (model_of admitted ambiguous active store owner none) refl
shown admitted ambiguous active store owner (some registry) =
    hidden (model_of admitted ambiguous active store owner (some registry)) refl
shown admitted manual_selection_required active store owner none =
    hidden (model_of admitted manual_selection_required active store owner none) refl
shown admitted manual_selection_required active store owner (some registry) =
    hidden (model_of admitted manual_selection_required active store owner (some registry)) refl
shown admitted selected active store owner none =
    hidden (model_of admitted selected active store owner none) refl
shown admitted selected none store owner (some registry) =
    hidden (model_of admitted selected none store owner (some registry)) refl
shown admitted selected (some identity) store none (some registry) =
    hidden (model_of admitted selected (some identity) store none (some registry)) refl
shown admitted selected (some identity) store (some other) (some registry) =
    elim (Bool-cases (identity_eq identity other)) [
      | inl e ↦
          inl
            (e, (identity, other, registry, refl, refl, refl, refl, ground arith, refl, rw e refl))
      | inr e ↦
          hidden (model_of admitted selected (some identity) store (some other) (some registry)) e
    ]

-- The capabilities of a registry are shown only if there is one and the profile has selected the
-- identity that it is associated with. Otherwise none are counted.
pub projection-Shown : (model : VehicleDataReadModel) → Shown model (projection model)
unfolding projection
projection-Shown model =
    shown model.profile_.admitted_ model.profile_.state_ model.profile_.active_ model.store_
      model.registry_profile_ model.registry_
