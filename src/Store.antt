-- ===== src/Store.antt =====
-- src/core/vehicle_data_store.h: `VehicleDataStore`. The children prove what its operations do.
use esp32_vag_data_server.Prelude.{
  ℕ, zero, suc, ◌+◌, Bool, true, false, not, ◌&&◌, ◌||◌, List, [], ◌∷◌, Option, none, some, ltb,
  ◌==◌, if◌then◌else◌, get_or, set, replicate,
}
use esp32_vag_data_server.VehicleData.Text.{BoundedText, text_eq}
use esp32_vag_data_server.VehicleData.Sample.{NormalizedVehicleSample, no_sample}
pub mod Find
pub mod View
pub mod Upsert
pub mod Snapshot
pub mod History
mod Tests

-- `VehicleDataStoreUpsertResult`.
pub data VehicleDataStoreUpsertResult : Type 0 where
  inserted updated ignored_older full : VehicleDataStoreUpsertResult

-- `VehicleDataStoreSnapshotResult`.
pub data VehicleDataStoreSnapshotResult : Type 0 where
  complete insufficient_capacity : VehicleDataStoreSnapshotResult

abbrev pub is_complete_snapshot : VehicleDataStoreSnapshotResult → Bool
is_complete_snapshot complete = true
is_complete_snapshot insufficient_capacity = false

-- `VehicleDataStore`: the array has as many samples as the capacity.
pub record VehicleDataStore : Type 0 where
  pub samples_ : List NormalizedVehicleSample
  pub size_ : ℕ

-- The store of a capacity, without samples.
unfoldable pub empty_store : ℕ → VehicleDataStore
empty_store capacity = record { samples_ = replicate capacity no_sample; size_ = 0 }

abbrev pub sample_at : List NormalizedVehicleSample → ℕ → NormalizedVehicleSample
sample_at samples index = get_or samples index no_sample

-- What `upsert` does behind its loop.
unfoldable pub append_sample :
    ℕ → VehicleDataStore → NormalizedVehicleSample → VehicleDataStoreUpsertResult × VehicleDataStore
append_sample capacity store incoming = if store.size_ == capacity then (full, store) else (
  inserted,
  record { samples_ = set store.samples_ store.size_ incoming; size_ = suc store.size_ },
)

-- `upsert`'s loop, from `index` on, and what follows it.
unfoldable pub upsert_loop :
    ℕ
    → ℕ
    → ℕ
    → VehicleDataStore
    → NormalizedVehicleSample
    → VehicleDataStoreUpsertResult × VehicleDataStore
upsert_loop capacity zero index store incoming = append_sample capacity store incoming
upsert_loop capacity (suc left) index store incoming =
    let rest = upsert_loop capacity left (suc index) store incoming in
    let sample = sample_at store.samples_ index in
    if not (text_eq sample.signal_id incoming.signal_id)
    then rest
    else if ltb incoming.timestamp_ms sample.timestamp_ms
    then (ignored_older, store)
    else (updated, record store { samples_ = set store.samples_ index incoming })

-- `upsert`.
unfoldable pub upsert :
    ℕ → VehicleDataStore → NormalizedVehicleSample → VehicleDataStoreUpsertResult × VehicleDataStore
upsert capacity store incoming = upsert_loop capacity store.size_ 0 store incoming

-- `lookup`'s loop, from `index` on.
unfoldable pub lookup_loop :
    ℕ
    → ℕ
    → List NormalizedVehicleSample
    → BoundedText
    → NormalizedVehicleSample
    → Bool × NormalizedVehicleSample
lookup_loop zero index samples signal_id result = (false, result)
lookup_loop (suc left) index samples signal_id result =
    let rest = lookup_loop left (suc index) samples signal_id result in
    let sample = sample_at samples index in
    if text_eq sample.signal_id signal_id then (true, sample) else rest

-- `lookup`: the result is written only if the sample is found.
unfoldable pub lookup :
    VehicleDataStore → BoundedText → NormalizedVehicleSample → Bool × NormalizedVehicleSample
lookup store signal_id result = lookup_loop store.size_ 0 store.samples_ signal_id result

-- A loop that copies elements by their index.
unfoldable pub copy_elements : {A : Type 0} → ℕ → ℕ → List A → A → List A → List A
copy_elements zero index source default output = output
copy_elements (suc left) index source default output =
    copy_elements left (suc index) source default (set output index (get_or source index default))

-- `snapshot`: its outcome, the memory behind `output` (nothing for a null pointer) and the count.
unfoldable pub snapshot :
    VehicleDataStore
    → Option (List NormalizedVehicleSample)
    → ℕ
    → VehicleDataStoreSnapshotResult × Option (List NormalizedVehicleSample) × ℕ
snapshot store none output_capacity =
    if ltb output_capacity store.size_ || not (store.size_ == 0)
    then (insufficient_capacity, none, store.size_)
    else (complete, none, store.size_)
snapshot store (some output) output_capacity =
    if ltb output_capacity store.size_
    then (insufficient_capacity, some output, store.size_)
    else (complete, some (copy_elements store.size_ 0 store.samples_ no_sample output), store.size_)
