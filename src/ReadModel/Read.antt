-- ===== src/ReadModel/Read.antt =====
-- src/application/vehicle_data_read_model.h: a read publishes everything or nothing.
use esp32_vag_data_server.Prelude.{
  ℕ, ◌<◌, ◌≤◌, ◌≡◌, ◌⊎◌, inl, inr, refl, Bool, true, false, not, ◌&&◌, ◌||◌, List, Option, none,
  some, arith, ltb, ◌==◌, Bool-cases, length, get_or,
}
use esp32_vag_data_server.VehicleData.Sample.{NormalizedVehicleSample, no_sample}
use esp32_vag_data_server.Store.{VehicleDataStore, is_complete_snapshot, snapshot, copy_elements}
use esp32_vag_data_server.Store.Snapshot.{copy_elements_lem}
use esp32_vag_data_server.Profiles.{NormalizedSignalDescriptor}
use esp32_vag_data_server.ReadModel.{
  complete, insufficient_capacity, VehicleDataReadModel, ReadOutput, is_null, registered,
  projection, no_descriptor, copy_descriptors, read_snapshot,
}

-- The memory behind a pointer has the capacity that is stated with it.
abbrev pub Sized : {A : Type 0} → Option (List A) → ℕ → Type 0
Sized none capacity = Unit
Sized (some buffer) capacity = length buffer ≡ capacity

-- Whether a buffer takes a number of elements: a null pointer takes none.
abbrev pub takes : {A : Type 0} → Option (List A) → ℕ → ℕ → Bool
takes buffer capacity count = not (ltb capacity count) && (count == 0 || not (is_null buffer))

-- The buffer starts with elements of `source` and is as before behind them.
abbrev pub Copied : {A : Type 0} → List A → A → ℕ → Option (List A) → Option (List A) → Type 0
Copied source d count none none = count ≡ 0
Copied source d count none (some after) = ⊥
Copied source d count (some before) none = ⊥
Copied source d count (some before) (some after) =
    (length after ≡ length before)
    × ((i : ℕ) → i < count → get_or after i d ≡ get_or source i d)
    × ((i : ℕ) → count ≤ i → get_or after i d ≡ get_or before i d)

copy_elements-Copied :
    {A : Type 0} (source : List A) (d : A) (count : ℕ) (before : List A)
    → count ≤ length before
    → Copied source d count (some before) (some (copy_elements count 0 source d before))
copy_elements-Copied source d count before l =
    let (kept, inside, front, behind) = copy_elements_lem count 0 source d before (omega arith) in
    (kept, λ i m. inside i (omega arith) (omega arith), λ i m. behind i (omega arith))

-- The store's part: it is complete exactly if the buffer takes its samples, and else writes nothing.
snapshot-Copied :
    (store : VehicleDataStore) (buffer : Option (List NormalizedVehicleSample)) (capacity : ℕ)
    → Sized buffer capacity
    → let (result, written, count) = snapshot store buffer capacity in
      (count ≡ store.size_)
      × (((is_complete_snapshot result ≡ true)
            × (takes buffer capacity store.size_ ≡ true)
            × Copied store.samples_ no_sample store.size_ buffer written)
          ⊎ ((is_complete_snapshot result ≡ false)
              × (takes buffer capacity store.size_ ≡ false)
              × (written ≡ buffer)))
unfolding snapshot
snapshot-Copied store none capacity h = elim (Bool-cases (ltb capacity store.size_)) [
  | inl e ↦ rw e (refl, inr (refl, refl, refl))
  | inr e ↦ elim (Bool-cases (store.size_ == 0)) [
    | inl z ↦ rw (e, z) (refl, inl (refl, refl, ground arith))
    | inr z ↦ rw (e, z) (refl, inr (refl, refl, refl))
  ]
]
snapshot-Copied store (some buffer) capacity h = elim (Bool-cases (ltb capacity store.size_)) [
  | inl e ↦ rw e (refl, inr (refl, refl, refl))
  | inr e ↦
      let copied =
        copy_elements-Copied store.samples_ no_sample store.size_ buffer (ground arith) in
      elim (Bool-cases (store.size_ == 0)) [
        | inl z ↦ rw (e, z) (refl, inl (refl, refl, copied))
        | inr z ↦ rw (e, z) (refl, inl (refl, refl, copied))
      ]
]

copy_descriptors-Copied :
    (descriptors : List NormalizedSignalDescriptor)
    (buffer : Option (List NormalizedSignalDescriptor)) (capacity count : ℕ)
    → Sized buffer capacity
    → takes buffer capacity count ≡ true
    → Copied descriptors no_descriptor count buffer (copy_descriptors count descriptors buffer)
copy_descriptors-Copied descriptors none capacity count h t = ground arith
copy_descriptors-Copied descriptors (some buffer) capacity count h t =
    copy_elements-Copied descriptors no_descriptor count buffer (ground arith)

-- The test that refuses a buffer.
refused-takes :
    (small zero_ null : Bool)
    → (small || (not zero_ && null)) ≡ not (not small && (zero_ || not null))
refused-takes true zero_ null = refl
refused-takes false true null = refl
refused-takes false false true = refl
refused-takes false false false = refl

and_false : (b : Bool) → (b && false) ≡ false
and_false true = refl
and_false false = refl

-- `snapshot` succeeds exactly if both buffers take what there is to copy. Then the metadata is the
-- profile's and the registry's projection with the store's size, and the buffers start with the store's
-- samples and the registry's descriptors. Otherwise nothing of the caller's changes. Both ways the
-- required capacities are the store's size and the number of descriptors.
pub read_snapshot_lem :
    (model : VehicleDataReadModel) (sample_capacity capability_capacity : ℕ) (output : ReadOutput)
    → Sized output.samples sample_capacity
    → Sized output.capabilities capability_capacity
    → let (result, output') = read_snapshot model sample_capacity capability_capacity output in
      let next = projection model in
      let both =
        takes output.samples sample_capacity model.store_.size_
        && takes output.capabilities capability_capacity next.capability_count in
      (result.required_sample_capacity ≡ model.store_.size_)
      × (result.required_capability_capacity ≡ next.capability_count)
      × (((result.status ≡ insufficient_capacity) × (both ≡ false) × (output' ≡ output))
          ⊎ ((result.status ≡ complete)
              × (both ≡ true)
              × (output'.metadata ≡ record next { sample_count = model.store_.size_ })
              × Copied model.store_.samples_ no_sample model.store_.size_ output.samples
                  output'.samples
              × Copied
                  (registered model.registry_)
                  no_descriptor
                  next.capability_count
                  output.capabilities
                  output'.capabilities))
unfolding read_snapshot
read_snapshot_lem model sample_capacity capability_capacity output s c =
    let n : ℕ = (projection model).capability_count in
    let t : Bool = takes output.capabilities capability_capacity n in
    let test : (ltb capability_capacity n || (not (n == 0) && is_null output.capabilities))
        ≡ not t =
      refused-takes (ltb capability_capacity n) (n == 0) (is_null output.capabilities) in
    let (counted, outcome) = snapshot-Copied model.store_ output.samples sample_capacity s in
    elim (Bool-cases t) [
      | inr small ↦
          rw (test, small)
            (
              refl,
              refl,
              inl (refl, and_false (takes output.samples sample_capacity model.store_.size_), refl),
            )
      | inl room ↦ elim outcome [
        | inr (stored, few, same) ↦
            rw (test, room, stored) (counted, refl, inl (refl, rw few refl, rw same refl))
        | inl (stored, enough, copied) ↦
            rw (test, room, stored)
              (
                counted,
                refl,
                inr (
                  refl,
                  rw enough refl,
                  rw counted refl,
                  copied,
                  copy_descriptors-Copied (registered model.registry_) output.capabilities
                      capability_capacity n c room,
                ),
              )
      ]
    ]
