-- ===== src/Store/Snapshot.antt =====
-- src/core/vehicle_data_store.h: what `snapshot` writes, and what a sequence of updates keeps.
use esp32_vag_data_server.Prelude.{
  ℕ, zero, suc, ◌+◌, ◌<◌, ◌≤◌, ◌≡◌, ◌⊎◌, inl, inr, refl, ◌∙◌, subst, List, some, arith, ltb,
  Bool-cases, get_or, set, length, length-set,
}
use native.Mathlib.Decide.{dec_lt}
use esp32_vag_data_server.VehicleData.Sample.{NormalizedVehicleSample, no_sample}
use esp32_vag_data_server.Store.{
  complete, insufficient_capacity, VehicleDataStore, sample_at, snapshot, copy_elements,
}
use esp32_vag_data_server.Store.View.{get_or-set-same, get_or-set-other}

-- A loop that copies `left` elements from `index` on keeps the output's length and what is not in its
-- range.
pub copy_elements_lem :
    {A : Type 0} (left index : ℕ) (source : List A) (d : A) (output : List A)
    → index + left ≤ length output
    → let copied = copy_elements left index source d output in
      (length copied ≡ length output)
      × ((i : ℕ) → index ≤ i → i < index + left → get_or copied i d ≡ get_or source i d)
      × ((i : ℕ) → i < index → get_or copied i d ≡ get_or output i d)
      × ((i : ℕ) → index + left ≤ i → get_or copied i d ≡ get_or output i d)
unfolding copy_elements
copy_elements_lem zero index source d output l =
    (refl, λ i a b. absurd (omega arith), λ i a. refl, λ i a. refl)
copy_elements_lem (suc left) index source d output l =
    let next = set output index (get_or source index d) in
    let size : length next ≡ length output = length-set output index (get_or source index d) in
    let (kept, inside, before, behind) =
      copy_elements_lem left (suc index) source d next (omega (arith, size)) in
    (
      kept ∙ size,
      λ i a b. elim (dec_lt index i) [
        | yes m ↦ inside i (omega arith) (omega arith)
        | no m ↦
            let e : index ≡ i = omega arith in
            subst
              (λ n. get_or (copy_elements left (suc index) source d next) n d ≡ get_or source n d) e
              (before index (omega arith)
                ∙ get_or-set-same output index (get_or source index d) d (omega arith))
      ],
      λ i a.
          before i (omega arith)
          ∙ get_or-set-other output index i (get_or source index d) d (omega arith),
      λ i a.
          behind i (omega arith)
          ∙ get_or-set-other output index i (get_or source index d) d (omega arith),
    )

-- `snapshot` into memory of the stated capacity either succeeds, and then the first samples of the
-- output are the store's, in order, and the others are as they were, or the capacity is too small and
-- nothing is written. Both ways the count is the store's size.
pub snapshot_lem :
    (store : VehicleDataStore) (output : List NormalizedVehicleSample)
    → let (result, written, count) = snapshot store (some output) (length output) in
      (count ≡ store.size_)
      × (((result ≡ insufficient_capacity)
            × (length output < store.size_)
            × (written ≡ some output))
          ⊎ ((result ≡ complete)
              × ((copied : List NormalizedVehicleSample) × (written ≡ some copied)
                  × (length copied ≡ length output)
                  × ((i : ℕ) → i < store.size_ → sample_at copied i ≡ sample_at store.samples_ i)
                  × ((i : ℕ) → store.size_ ≤ i → sample_at copied i ≡ sample_at output i))))
unfolding snapshot
snapshot_lem store output = elim (Bool-cases (ltb (length output) store.size_)) [
  | inl e ↦ rw e (refl, inl (refl, ground arith, refl))
  | inr e ↦
      let (kept, inside, before, behind) =
        copy_elements_lem store.size_ 0 store.samples_ no_sample output (ground arith) in
      rw e (
        refl,
        inr (
          refl,
          (
            _,
            refl,
            kept,
            λ i l. inside i (omega arith) (omega arith),
            λ i l. behind i (omega arith),
          ),
        ),
      )
]
