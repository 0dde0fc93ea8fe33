-- ===== src/Store/Find.antt =====
-- src/core/vehicle_data_store.h: the index at which the loops of `upsert` and `lookup` stop.
use esp32_vag_data_server.Prelude.{
  ℕ, zero, suc, ◌+◌, ◌<◌, ◌≤◌, ◌≡◌, ◌≢◌, ◌⊎◌, inl, inr, refl, subst, Bool, true, false, List,
  Option, none, some, arith, ltb, if◌then◌else◌, Bool-cases, set, length, length-append,
}
use native.Mathlib.Decide.{dec_lt}
use esp32_vag_data_server.VehicleData.Text.{BoundedText, text_eq, content}
use esp32_vag_data_server.VehicleData.Assign.{IsText, text_of, text_eq-content}
use esp32_vag_data_server.VehicleData.Sample.{NormalizedVehicleSample}
use esp32_vag_data_server.VehicleData.Making.{IsSample}
use esp32_vag_data_server.Store.{
  VehicleDataStoreUpsertResult, updated, ignored_older, VehicleDataStore, sample_at, append_sample,
  upsert_loop, lookup_loop,
}

-- The content of the identity of a sample.
abbrev pub key : NormalizedVehicleSample → List ℕ
key sample = content sample.signal_id

-- The first index from `index` on, out of `left`, whose sample has an identity.
unfoldable pub find : ℕ → ℕ → List NormalizedVehicleSample → BoundedText → Option ℕ
find zero index samples signal_id = none
find (suc left) index samples signal_id =
    let rest = find left (suc index) samples signal_id in
    if text_eq (sample_at samples index).signal_id signal_id then some index else rest

-- What `upsert` does at the index that it finds.
abbrev pub replace_at :
    ℕ
    → VehicleDataStore
    → NormalizedVehicleSample
    → Option ℕ
    → VehicleDataStoreUpsertResult × VehicleDataStore
replace_at capacity store incoming none = append_sample capacity store incoming
replace_at capacity store incoming (some index) =
    if ltb incoming.timestamp_ms (sample_at store.samples_ index).timestamp_ms
    then (ignored_older, store)
    else (updated, record store { samples_ = set store.samples_ index incoming })

pub upsert_loop-find :
    (capacity left index : ℕ) (store : VehicleDataStore) (incoming : NormalizedVehicleSample)
    → upsert_loop capacity left index store incoming
      ≡ replace_at capacity store incoming (find left index store.samples_ incoming.signal_id)
unfolding upsert_loop find
upsert_loop-find capacity zero index store incoming = refl
upsert_loop-find capacity (suc left) index store incoming =
    elim (Bool-cases (text_eq (sample_at store.samples_ index).signal_id incoming.signal_id)) [
      | inl e ↦ rw e refl
      | inr e ↦ rw e (upsert_loop-find capacity left (suc index) store incoming)
    ]

abbrev pub read_at :
    List NormalizedVehicleSample
    → NormalizedVehicleSample
    → Option ℕ
    → Bool × NormalizedVehicleSample
read_at samples result none = (false, result)
read_at samples result (some index) = (true, sample_at samples index)

pub lookup_loop-find :
    (left index : ℕ) (samples : List NormalizedVehicleSample) (signal_id : BoundedText)
    (result : NormalizedVehicleSample)
    → lookup_loop left index samples signal_id result
      ≡ read_at samples result (find left index samples signal_id)
unfolding lookup_loop find
lookup_loop-find zero index samples signal_id result = refl
lookup_loop-find (suc left) index samples signal_id result =
    elim (Bool-cases (text_eq (sample_at samples index).signal_id signal_id)) [
      | inl e ↦ rw e refl
      | inr e ↦ rw e (lookup_loop-find left (suc index) samples signal_id result)
    ]

-- A text's length fits its array.
pub IsText-length :
    {capacity : ℕ} {text : BoundedText} → IsText capacity text → text.length_ ≤ length text.data_
unfolding text_of
IsText-length {capacity} t = rw t.made (omega (arith, length-append {0} t.bytes _))

-- The two outcomes of the search among samples.
pub find-cases :
    (left index : ℕ) (samples : List NormalizedVehicleSample) (signal_id : BoundedText)
    → signal_id.length_ ≤ length signal_id.data_
    → ((i : ℕ) → index ≤ i → i < index + left → IsSample (sample_at samples i))
    → ((find left index samples signal_id ≡ none)
        × ((i : ℕ) → index ≤ i → i < index + left → key (sample_at samples i) ≢ content signal_id))
      ⊎ ((j : ℕ) × (find left index samples signal_id ≡ some j)
          × (index ≤ j)
          × (j < index + left)
          × (key (sample_at samples j) ≡ content signal_id)
          × ((i : ℕ) → index ≤ i → i < j → key (sample_at samples i) ≢ content signal_id))
unfolding find
find-cases zero index samples signal_id l valid = inl (refl, λ i a b. absurd (omega arith))
find-cases (suc left) index samples signal_id l valid =
    let here : IsSample (sample_at samples index) = valid index (omega arith) (omega arith) in
    elim (text_eq-content (sample_at samples index).signal_id signal_id
      (IsText-length here.signal_id) l) [
        | inl (e, same) ↦
            inr (index, rw e refl, omega arith, omega arith, same, λ i a b. absurd (omega arith))
        | inr (e, differs) ↦
            let later : (P : ℕ → Type 0) (n : ℕ)
                → P index
                → ((i : ℕ) → suc index ≤ i → i < n → P i)
                → (i : ℕ) → index ≤ i
                → i < n
                → P i =
              λ P n p ps i a b. elim (dec_lt index i) [
                | yes q ↦ ps i (omega arith) b
                | no q ↦ let same : index ≡ i = omega arith in subst P same p
              ] in
            elim (find-cases left (suc index) samples signal_id l
              (λ i a b. valid i (omega arith) (omega arith))) [
                | inl (missing, none_) ↦ inl (
                  rw (e, missing) refl,
                  λ i a b.
                      later (λ k. key (sample_at samples k) ≢ content signal_id) (suc index + left)
                        differs none_ i a (omega arith),
                )
                | inr (j, found, a, b, same, before) ↦ inr (
                  j,
                  rw (e, found) refl,
                  omega arith,
                  omega arith,
                  same,
                  λ i.
                      later (λ k. key (sample_at samples k) ≢ content signal_id) j differs before i,
                )
              ]
      ]
