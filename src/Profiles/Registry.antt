-- ===== src/Profiles/Registry.antt =====
-- src/profiles/signal_registry.h and src/vag/kamiq_nw4_capabilities.h: what the registries give.
use esp32_vag_data_server.Prelude.{
  ℕ, ◌≤◌, ◌≡◌, ◌≢◌, ◌⊎◌, inl, inr, refl, ap, true, false, List, [], ◌∷◌, none, some, arith, ◌==◌,
  ◌++◌, Bool-cases, All, length,
}
use esp32_vag_data_server.VehicleData.Text.{
  BoundedText, assign, strlen, empty_text, same_bytes, content, text_eq, text_from,
}
use esp32_vag_data_server.VehicleData.Utf8.{is_well_formed_utf8, well_formed_loop, sequence_rest}
use esp32_vag_data_server.VehicleData.Assign.{text_eq-content}
use esp32_vag_data_server.Profiles.Selection.{is_admitted}
use esp32_vag_data_server.Profiles.{
  ProfileIdentity, identity_eq, NormalizedSignalDescriptor, lookup_descriptor,
  k_kamiq_nw4_capabilities, signal_registry_for, k_admitted_profile_identities,
}

-- A descriptor whose identity is within its array.
abbrev pub Fits : NormalizedSignalDescriptor → Type 0
Fits descriptor = descriptor.identity.length_ ≤ length descriptor.identity.data_

-- No descriptor before an index has an identity.
abbrev pub Differ : List ℕ → NormalizedSignalDescriptor → Type 0
Differ k descriptor = content descriptor.identity ≢ k

-- `lookup` gives the first descriptor of the identity: there is one behind descriptors of others, or
-- every descriptor is another's.
pub lookup_descriptor_lem :
    (descriptors : List NormalizedSignalDescriptor) (identity : BoundedText)
    → All Fits descriptors
    → identity.length_ ≤ length identity.data_
    → ((lookup_descriptor descriptors identity ≡ none)
        × All (Differ (content identity)) descriptors)
      ⊎ ((before : List NormalizedSignalDescriptor) × (after : List NormalizedSignalDescriptor)
          × (found : NormalizedSignalDescriptor) × (lookup_descriptor descriptors identity
              ≡ some found)
          × (descriptors ≡ before ++ (found ∷ after))
          × (content found.identity ≡ content identity)
          × All (Differ (content identity)) before)
unfolding lookup_descriptor
lookup_descriptor_lem [] identity f l = inl (refl, tt)
lookup_descriptor_lem (descriptor ∷ descriptors) identity f l =
    elim (text_eq-content descriptor.identity identity f.0 l) [
      | inl (e, same) ↦ inr ([], descriptors, descriptor, rw e refl, refl, same, tt)
      | inr (e, differs) ↦ elim (lookup_descriptor_lem descriptors identity f.1 l) [
        | inl (missing, others) ↦ inl (rw (e, missing) refl, (differs, others))
        | inr (before, after, found, q, split, same, others) ↦ inr (
          descriptor ∷ before,
          after,
          found,
          rw (e, q) refl,
          ap (λ t. descriptor ∷ t) split,
          same,
          (differs, others),
        )
      ]
    ]

-- A descriptor that the lookup of its own identity finds.
abbrev pub Registered : NormalizedSignalDescriptor → Type 0
Registered descriptor =
    Fits descriptor
    × (lookup_descriptor k_kamiq_nw4_capabilities.descriptors_ descriptor.identity
        ≡ some descriptor)

capabilities-Registered : All Registered k_kamiq_nw4_capabilities.descriptors_
unfolding k_kamiq_nw4_capabilities lookup_descriptor text_from assign strlen is_well_formed_utf8
    well_formed_loop sequence_rest empty_text text_eq same_bytes
capabilities-Registered =
    ((omega arith, refl), ((omega arith, refl), ((omega arith, refl), ((omega arith, refl), tt))))

-- `signalRegistryFor` has a registry for exactly the admitted identities of the profile set, and every
-- identity in it is a text that its array holds, so that `lookup` finds it.
pub signal_registry_for-admitted :
    (identity : ProfileIdentity)
    → ((is_admitted identity k_admitted_profile_identities ≡ true)
        × (signal_registry_for identity ≡ some k_kamiq_nw4_capabilities)
        × All Registered k_kamiq_nw4_capabilities.descriptors_)
      ⊎ ((is_admitted identity k_admitted_profile_identities ≡ false)
          × (signal_registry_for identity ≡ none))
unfolding signal_registry_for k_admitted_profile_identities
signal_registry_for-admitted identity =
    elim (Bool-cases (identity_eq identity (record { value_ = 1 }))) [
      | inl e ↦
          let same : (1 == identity.value_) ≡ true = ground arith in
          inl (rw same refl, rw e refl, capabilities-Registered)
      | inr e ↦
          let other : (1 == identity.value_) ≡ false = ground arith in
          inr (rw other refl, rw e refl)
    ]
