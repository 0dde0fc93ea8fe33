-- ===== src/Profiles/Selection.antt =====
-- src/profiles/active_vehicle_profile.h: what the selection keeps.
use esp32_vag_data_server.Prelude.{
  ◌≡◌, ◌≢◌, ◌↔◌, inl, inr, refl, sym, ap, ◌∙◌, Bool, true, false, List, [], ◌∷◌, Option, none, some,
  if◌then◌else◌, Bool-cases,
}
use esp32_vag_data_server.Profiles.{
  ProfileIdentity, identity_eq, ProfileSelectionState, unknown, ambiguous,
  manual_selection_required, selected, ActiveVehicleProfile, new_profile, select_loop,
  select_manually, clear_selection, set_unknown, set_ambiguous, require_manual_selection,
}

-- Whether an identity is among those admitted.
abbrev pub is_admitted : ProfileIdentity → List ProfileIdentity → Bool
is_admitted identity [] = false
is_admitted identity (candidate ∷ candidates) =
    if identity_eq candidate identity then true else is_admitted identity candidates

pub select_loop-cases :
    (candidates : List ProfileIdentity) (identity : ProfileIdentity) (p : ActiveVehicleProfile)
    → select_loop candidates identity p ≡ (
        if is_admitted identity candidates
        then (true, record p { active_ = some identity; state_ = selected })
        else (false, p))
unfolding select_loop
select_loop-cases [] identity p = refl
select_loop-cases (candidate ∷ candidates) identity p =
    elim (Bool-cases (identity_eq candidate identity)) [
      | inl e ↦ rw e refl
      | inr e ↦ rw e (select_loop-cases candidates identity p)
    ]

-- The operations that change a profile.
pub data ProfileOperation : Type 0 where
  select : (identity : ProfileIdentity) → ProfileOperation
  set_to_unknown set_to_ambiguous require_selection : ProfileOperation

unfoldable pub perform_profile : ProfileOperation → ActiveVehicleProfile → ActiveVehicleProfile
perform_profile (select identity) p = (select_manually identity p).1
perform_profile set_to_unknown p = set_unknown p
perform_profile set_to_ambiguous p = set_ambiguous p
perform_profile require_selection p = require_manual_selection p

unfoldable pub perform_profiles :
    List ProfileOperation → ActiveVehicleProfile → ActiveVehicleProfile
perform_profiles [] p = p
perform_profiles (o ∷ operations) p = perform_profiles operations (perform_profile o p)

-- The reference: one of three reasons for no identity, or an identity.
pub data Selection : Type 0 where
  not_known not_unique not_chosen : Selection
  chosen : ProfileIdentity → Selection

-- The last operation counts, but for a choice of an identity that is not admitted.
unfoldable pub selection_after : List ProfileIdentity → ProfileOperation → Selection → Selection
selection_after admitted (select identity) s =
    if is_admitted identity admitted then chosen identity else s
selection_after admitted set_to_unknown s = not_known
selection_after admitted set_to_ambiguous s = not_unique
selection_after admitted require_selection s = not_chosen

unfoldable pub selection_of : List ProfileIdentity → List ProfileOperation → Selection → Selection
selection_of admitted [] s = s
selection_of admitted (o ∷ operations) s =
    selection_of admitted operations (selection_after admitted o s)

unfoldable pub state_of : Selection → ProfileSelectionState
state_of not_known = unknown
state_of not_unique = ambiguous
state_of not_chosen = manual_selection_required
state_of (chosen identity) = selected

unfoldable pub active_of : Selection → Option ProfileIdentity
active_of not_known = none
active_of not_unique = none
active_of not_chosen = none
active_of (chosen identity) = some identity

-- The profile of a selection.
abbrev pub profile_of : List ProfileIdentity → Selection → ActiveVehicleProfile
profile_of admitted s = record { admitted_ = admitted; state_ = state_of s; active_ = active_of s }

perform_profile-profile_of :
    (admitted : List ProfileIdentity) (o : ProfileOperation) (s : Selection)
    → perform_profile o (profile_of admitted s) ≡ profile_of admitted (selection_after admitted o s)
unfolding perform_profile selection_after state_of active_of select_manually set_unknown
    set_ambiguous require_manual_selection clear_selection select_loop
perform_profile-profile_of admitted (select identity) s =
    let steps = select_loop-cases admitted identity (profile_of admitted s) in
    elim (Bool-cases (is_admitted identity admitted)) [
      | inl e ↦ rw (steps, e) refl
      | inr e ↦ rw (steps, e) refl
    ]
perform_profile-profile_of admitted set_to_unknown s = refl
perform_profile-profile_of admitted set_to_ambiguous s = refl
perform_profile-profile_of admitted require_selection s = refl

perform_profiles-profile_of :
    (admitted : List ProfileIdentity) (operations : List ProfileOperation) (s : Selection)
    → perform_profiles operations (profile_of admitted s)
      ≡ profile_of admitted (selection_of admitted operations s)
unfolding perform_profiles selection_of
perform_profiles-profile_of admitted [] s = refl
perform_profiles-profile_of admitted (o ∷ operations) s =
    ap (perform_profiles operations) (perform_profile-profile_of admitted o s)
    ∙ perform_profiles-profile_of admitted operations (selection_after admitted o s)

-- An identity that is chosen is admitted.
abbrev Chosen : List ProfileIdentity → Selection → Type 0
Chosen admitted s =
    (identity : ProfileIdentity)
    → active_of s ≡ some identity
    → is_admitted identity admitted ≡ true

selection_after-Chosen :
    (admitted : List ProfileIdentity) (o : ProfileOperation) (s : Selection)
    → Chosen admitted s
    → Chosen admitted (selection_after admitted o s)
unfolding selection_after active_of
selection_after-Chosen admitted (select identity) s c =
    elim (Bool-cases (is_admitted identity admitted)) [
      | inl e ↦
          rw e
            (λ i q. let same : identity ≡ i = cc in ap (λ x. is_admitted x admitted) (sym same) ∙ e)
      | inr e ↦ rw e c
    ]
selection_after-Chosen admitted set_to_unknown s c = λ i q. absurd cc
selection_after-Chosen admitted set_to_ambiguous s c = λ i q. absurd cc
selection_after-Chosen admitted require_selection s c = λ i q. absurd cc

selection_of-Chosen :
    (admitted : List ProfileIdentity) (operations : List ProfileOperation) (s : Selection)
    → Chosen admitted s
    → Chosen admitted (selection_of admitted operations s)
unfolding selection_of
selection_of-Chosen admitted [] s c = c
selection_of-Chosen admitted (o ∷ operations) s c =
    selection_of-Chosen admitted operations _ (selection_after-Chosen admitted o s c)

state_of-selected : (s : Selection) → (active_of s ≡ none) ↔ (state_of s ≢ selected)
unfolding state_of active_of
state_of-selected not_known = (λ _ e. cc, λ _. refl)
state_of-selected not_unique = (λ _ e. cc, λ _. refl)
state_of-selected not_chosen = (λ _ e. cc, λ _. refl)
state_of-selected (chosen identity) = (λ e. absurd cc, λ d. absurd (d refl))

-- Any sequence of operations leaves a new profile in the state, and with the identity, of the reference,
-- where the last operation counts that is no choice of an identity not admitted. There is an identity
-- exactly in the state `selected`, and it is one of those admitted.
pub perform_profiles-selection_of :
    (admitted : List ProfileIdentity) (operations : List ProfileOperation)
    → let p = perform_profiles operations (new_profile admitted) in
      let s = selection_of admitted operations not_known in
      (p.state_ ≡ state_of s)
      × (p.active_ ≡ active_of s)
      × ((identity : ProfileIdentity)
          → p.active_ ≡ some identity
          → is_admitted identity admitted ≡ true)
      × ((p.active_ ≡ none) ↔ (p.state_ ≢ selected))
unfolding new_profile state_of active_of
perform_profiles-selection_of admitted operations =
    let steps = perform_profiles-profile_of admitted operations not_known in
    let s = selection_of admitted operations not_known in
    rw steps (
      refl,
      refl,
      selection_of-Chosen admitted operations not_known (λ i q. absurd cc),
      state_of-selected s,
    )
