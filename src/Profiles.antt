-- ===== src/Profiles.antt =====
-- src/profiles/active_vehicle_profile.h, src/profiles/signal_registry.h, src/vag/profile_set.h and
-- src/vag/kamiq_nw4_capabilities.h.
use esp32_vag_data_server.Prelude.{
  ℕ, Bool, true, false, List, [], ◌∷◌, Option, none, some, map, ◌==◌, if◌then◌else◌, get_or,
}
use esp32_vag_data_server.VehicleData.Text.{BoundedText, text_from, text_eq}
use esp32_vag_data_server.VehicleData.Sample.{
  VehicleValueType, numeric, k_max_signal_id_length, k_max_unit_length,
}
pub mod Selection
pub mod Registry
mod Tests

-- `ProfileIdentity`.
pub record ProfileIdentity : Type 0 where
  pub value_ : ℕ

-- `ProfileIdentity::operator==`.
abbrev pub identity_eq : ProfileIdentity → ProfileIdentity → Bool
identity_eq a b = a.value_ == b.value_

-- `ProfileSelectionState`.
pub data ProfileSelectionState : Type 0 where
  unknown ambiguous manual_selection_required selected : ProfileSelectionState

-- `ActiveVehicleProfile`.
pub record ActiveVehicleProfile : Type 0 where
  pub admitted_ : List ProfileIdentity
  pub state_ : ProfileSelectionState
  pub active_ : Option ProfileIdentity

-- The constructor.
unfoldable pub new_profile : List ProfileIdentity → ActiveVehicleProfile
new_profile admitted = record { admitted_ = admitted; state_ = unknown; active_ = none }

-- `selectManually`'s loop over the candidates.
unfoldable pub select_loop :
    List ProfileIdentity → ProfileIdentity → ActiveVehicleProfile → Bool × ActiveVehicleProfile
select_loop [] identity profile = (false, profile)
select_loop (candidate ∷ candidates) identity profile =
    let rest = select_loop candidates identity profile in
    if identity_eq candidate identity
    then (true, record profile { active_ = some identity; state_ = selected })
    else rest

-- `selectManually`.
unfoldable pub select_manually :
    ProfileIdentity → ActiveVehicleProfile → Bool × ActiveVehicleProfile
select_manually identity profile = select_loop profile.admitted_ identity profile

-- `ActiveVehicleProfile::clear`, and the three calls of it.
unfoldable pub clear_selection : ProfileSelectionState → ActiveVehicleProfile → ActiveVehicleProfile
clear_selection state profile = record profile { active_ = none; state_ = state }

unfoldable pub set_unknown : ActiveVehicleProfile → ActiveVehicleProfile
set_unknown profile = clear_selection unknown profile

unfoldable pub set_ambiguous : ActiveVehicleProfile → ActiveVehicleProfile
set_ambiguous profile = clear_selection ambiguous profile

unfoldable pub require_manual_selection : ActiveVehicleProfile → ActiveVehicleProfile
require_manual_selection profile = clear_selection manual_selection_required profile

-- `CapabilitySupport`.
pub data CapabilitySupport : Type 0 where
  supported unsupported pending unknown : CapabilitySupport

-- `NormalizedSignalDescriptor`.
pub record NormalizedSignalDescriptor : Type 0 where
  pub identity : BoundedText
  pub expected_value_type : VehicleValueType
  pub unit : BoundedText
  pub support : CapabilitySupport

-- `FixedSignalRegistry`.
pub record FixedSignalRegistry : Type 0 where
  pub descriptors_ : List NormalizedSignalDescriptor

-- `FixedSignalRegistry::lookup`: a pointer to the descriptor found is the descriptor.
unfoldable pub lookup_descriptor :
    List NormalizedSignalDescriptor → BoundedText → Option NormalizedSignalDescriptor
lookup_descriptor [] identity = none
lookup_descriptor (descriptor ∷ descriptors) identity =
    let rest = lookup_descriptor descriptors identity in
    if text_eq descriptor.identity identity then some descriptor else rest

-- `ProfileValidationState` and `ProfileDescriptor`.
pub data ProfileValidationState : Type 0 where
  pending vehicle_confirmed : ProfileValidationState

pub record ProfileDescriptor : Type 0 where
  pub identity : ProfileIdentity
  pub model_reference : List ℕ
  pub validation : ProfileValidationState

-- `kProfileSet`: its model reference is "Kamiq_NW4".
abbrev pub k_profile_set : List ProfileDescriptor
k_profile_set =
    record {
      identity = record { value_ = 1 };
      model_reference = 75 ∷ 97 ∷ 109 ∷ 105 ∷ 113 ∷ 95 ∷ 78 ∷ 87 ∷ 52 ∷ 0 ∷ [];
      validation = ProfileValidationState.pending;
    }
    ∷ []

-- `kAdmittedProfileIdentities`.
unfoldable pub k_admitted_profile_identities : List ProfileIdentity
k_admitted_profile_identities = map (λ descriptor. descriptor.identity) k_profile_set

-- A candidate of `kKamiqNw4Capabilities`, from the names of its signal and its unit.
abbrev numeric_signal : List ℕ → List ℕ → NormalizedSignalDescriptor
numeric_signal name unit = record {
  identity = text_from k_max_signal_id_length (some name);
  expected_value_type = numeric;
  unit = text_from k_max_unit_length (some unit);
  support = CapabilitySupport.pending;
}

-- "vehicle.speed", "km/h", "vehicle.rpm", "rpm", "vehicle.coolantTemp", "degC", "vehicle.voltage" and "V".
abbrev pub vehicle_speed : List ℕ
vehicle_speed = 118 ∷ 101 ∷ 104 ∷ 105 ∷ 99 ∷ 108 ∷ 101 ∷ 46 ∷ 115 ∷ 112 ∷ 101 ∷ 101 ∷ 100 ∷ 0 ∷ []

abbrev pub km_h : List ℕ
km_h = 107 ∷ 109 ∷ 47 ∷ 104 ∷ 0 ∷ []

abbrev pub vehicle_rpm : List ℕ
vehicle_rpm = 118 ∷ 101 ∷ 104 ∷ 105 ∷ 99 ∷ 108 ∷ 101 ∷ 46 ∷ 114 ∷ 112 ∷ 109 ∷ 0 ∷ []

abbrev pub rpm : List ℕ
rpm = 114 ∷ 112 ∷ 109 ∷ 0 ∷ []

abbrev pub vehicle_coolant_temp : List ℕ
vehicle_coolant_temp =
    118 ∷ 101 ∷ 104 ∷ 105 ∷ 99 ∷ 108 ∷ 101 ∷ 46 ∷ 99 ∷ 111 ∷ 111 ∷ 108 ∷ 97 ∷ 110 ∷ 116 ∷ 84 ∷ 101
    ∷ 109 ∷ 112 ∷ 0 ∷ []

abbrev pub deg_c : List ℕ
deg_c = 100 ∷ 101 ∷ 103 ∷ 67 ∷ 0 ∷ []

abbrev pub vehicle_voltage : List ℕ
vehicle_voltage =
    118 ∷ 101 ∷ 104 ∷ 105 ∷ 99 ∷ 108 ∷ 101 ∷ 46 ∷ 118 ∷ 111 ∷ 108 ∷ 116 ∷ 97 ∷ 103 ∷ 101 ∷ 0 ∷ []

abbrev pub volt : List ℕ
volt = 86 ∷ 0 ∷ []

-- `kKamiqNw4Capabilities`.
unfoldable pub k_kamiq_nw4_capabilities : FixedSignalRegistry
k_kamiq_nw4_capabilities = record {
  descriptors_ =
      numeric_signal vehicle_speed km_h
      ∷ numeric_signal vehicle_rpm rpm
      ∷ numeric_signal vehicle_coolant_temp deg_c
      ∷ numeric_signal vehicle_voltage volt
      ∷ [];
}

-- `signalRegistryFor`: the registry, or nothing for the null pointer.
unfoldable pub signal_registry_for : ProfileIdentity → Option FixedSignalRegistry
signal_registry_for identity =
    if identity_eq identity
      (get_or k_profile_set 0 (record {
        identity = record { value_ = 1 };
        model_reference = [];
        validation = ProfileValidationState.pending;
      })).identity
    then some k_kamiq_nw4_capabilities
    else none
