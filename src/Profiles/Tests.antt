-- ===== src/Profiles/Tests.antt =====
-- src/profiles/active_vehicle_profile.h and src/vag/kamiq_nw4_capabilities.h: concrete selections.
use esp32_vag_data_server.Prelude.{◌≡◌, ◌≢◌, ◌↔◌, ◌⊎◌, true, false, List, [], ◌∷◌, none, some}
use esp32_vag_data_server.Profiles.{
  ProfileIdentity, selected, new_profile, signal_registry_for, k_kamiq_nw4_capabilities,
  k_admitted_profile_identities,
}
use esp32_vag_data_server.Profiles.Selection.{
  select, set_to_ambiguous, perform_profiles, ProfileOperation, selection_of, not_known, state_of,
  active_of, is_admitted, perform_profiles-selection_of,
}
use esp32_vag_data_server.Prelude.{All}
use esp32_vag_data_server.Profiles.Registry.{Registered, signal_registry_for-admitted}

abbrev kamiq : ProfileIdentity
kamiq = record { value_ = 1 }

abbrev other : ProfileIdentity
other = record { value_ = 2 }

-- The last one is refused.
abbrev choices : List ProfileOperation
choices = set_to_ambiguous ∷ select kamiq ∷ select other ∷ []

perform_profiles-selection_of_example :
    let p = perform_profiles choices (new_profile (kamiq ∷ [])) in
    let s = selection_of (kamiq ∷ []) choices not_known in
    (p.state_ ≡ state_of s)
    × (p.active_ ≡ active_of s)
    × ((identity : ProfileIdentity)
        → p.active_ ≡ some identity
        → is_admitted identity (kamiq ∷ []) ≡ true)
    × ((p.active_ ≡ none) ↔ (p.state_ ≢ selected))
perform_profiles-selection_of_example = perform_profiles-selection_of (kamiq ∷ []) choices

signal_registry_for-admitted_example :
    ((is_admitted kamiq k_admitted_profile_identities ≡ true)
      × (signal_registry_for kamiq ≡ some k_kamiq_nw4_capabilities)
      × All Registered k_kamiq_nw4_capabilities.descriptors_)
    ⊎ ((is_admitted kamiq k_admitted_profile_identities ≡ false)
        × (signal_registry_for kamiq ≡ none))
signal_registry_for-admitted_example = signal_registry_for-admitted kamiq
