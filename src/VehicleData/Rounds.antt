-- ===== src/VehicleData/Rounds.antt =====
-- src/core/vehicle_data.h: the rounds of the loop of `isWellFormedUtf8`, as the code has it, with no bound on
-- their number.
use esp32_vag_data_server.Prelude.{
  ℕ, zero, suc, ◌≤◌, ◌≡◌, refl, Bool, true, false, List, [], ◌∷◌, Option, none, some, arith, length,
}
use esp32_vag_data_server.VehicleData.Utf8.{
  sequence_rest, sequence_rest-le, well_formed_loop, is_well_formed_utf8,
}

-- The loop, begun with these bytes, ends behind this many rounds and returns this.
pub data Returns : ℕ → List ℕ → Bool → Type 0 where
  at_end : Returns 0 [] true
  refuses :
      (lead : ℕ) (rest : List ℕ) → sequence_rest lead rest ≡ none → Returns 1 (lead ∷ rest) false
  goes_on :
      (lead : ℕ) (rest : List ℕ) {rest' : List ℕ} {n : ℕ} {b : Bool}
      → sequence_rest lead rest ≡ some rest'
      → Returns n rest' b
      → Returns (suc n) (lead ∷ rest) b

-- A run of no more than so many rounds.
abbrev pub Within : ℕ → List ℕ → Bool → Type 0
Within limit bytes b = (n : ℕ) × (n ≤ limit) × Returns n bytes b

round-Within :
    (fuel lead : ℕ) (rest : List ℕ) (r : Option (List ℕ))
    → ((bytes : List ℕ)
        → length bytes ≤ fuel
        → Within (length bytes) bytes (well_formed_loop fuel bytes))
    → sequence_rest lead rest ≡ r
    → length rest ≤ fuel
    → Within
        (suc (length rest))
        (lead ∷ rest)
        (elim r [ none ↦ false | some rest' ↦ well_formed_loop fuel rest' ])
round-Within fuel lead rest none ih q l = (1, omega arith, refuses lead rest q)
round-Within fuel lead rest (some rest') ih q l =
    let shorter : length rest' ≤ length rest = sequence_rest-le lead rest q in
    let (n, m, run) = ih rest' (omega (arith, shorter)) in
    (suc n, omega (arith, shorter), goes_on lead rest q run)

well_formed_loop-Within :
    (fuel : ℕ) (bytes : List ℕ)
    → length bytes ≤ fuel
    → Within (length bytes) bytes (well_formed_loop fuel bytes)
unfolding well_formed_loop
well_formed_loop-Within fuel [] l = (0, omega arith, at_end)
well_formed_loop-Within zero (lead ∷ rest) l = absurd (omega arith)
well_formed_loop-Within (suc fuel) (lead ∷ rest) l =
    round-Within fuel lead rest (sequence_rest lead rest) (well_formed_loop-Within fuel) refl
      (omega arith)

-- The loop of the check, with no bound on its rounds, ends for every list of bytes, behind no more rounds
-- than there are bytes, and returns what the check returns.
pub is_well_formed_utf8-Returns :
    (bytes : List ℕ) → (n : ℕ) × (n ≤ length bytes) × Returns n bytes (is_well_formed_utf8 bytes)
unfolding is_well_formed_utf8
is_well_formed_utf8-Returns bytes = well_formed_loop-Within (length bytes) bytes (omega arith)
