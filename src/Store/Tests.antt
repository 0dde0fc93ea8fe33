-- ===== src/Store/Tests.antt =====
-- src/core/vehicle_data_store.h: a store of two samples.
use esp32_vag_data_server.Prelude.{
  ℕ, suc, ◌<◌, ◌≤◌, ◌≡◌, ◌⊎◌, true, false, List, [], ◌∷◌, none, some, arith, length,
}
use esp32_vag_data_server.VehicleData.Utf8.{is_well_formed_utf8, well_formed_loop, sequence_rest}
use esp32_vag_data_server.VehicleData.Text.{BoundedText, strlen, empty_text, assign, content}
use esp32_vag_data_server.VehicleData.Sample.{NormalizedVehicleSample, no_sample}
use esp32_vag_data_server.VehicleData.Example.{rpm, sample, sample-IsSample}
use esp32_vag_data_server.Store.{
  inserted, updated, ignored_older, full, complete, insufficient_capacity, VehicleDataStore,
  empty_store, sample_at, upsert, lookup, snapshot,
}
use esp32_vag_data_server.Store.Find.{key}
use esp32_vag_data_server.Store.View.{view}
use esp32_vag_data_server.Store.Upsert.{
  IsStore, Puts, empty_store-IsStore, upsert-refines, lookup-view,
}
use esp32_vag_data_server.Store.Snapshot.{snapshot_lem}
use esp32_vag_data_server.Store.History.{Keeps, upsert_all, upsert_all-Keeps}

-- One entry, at 20.
abbrev one : VehicleDataStore
one = (upsert 1 (empty_store 1) (sample 20)).1

one-IsStore : IsStore 1 one
one-IsStore =
    (upsert-refines 1 (empty_store 1) (sample 20) (empty_store-IsStore 1)
      (sample-IsSample 20 (omega arith))).0

upsert-refines_example :
    let (r, new) = upsert 1 one (sample 30) in
    IsStore 1 new
    × (((r ≡ inserted)
          × (view one (key (sample 30)) ≡ none)
          × (new.size_ ≡ suc one.size_)
          × Puts one (sample 30) new)
        ⊎ (((r ≡ updated)
              × (new.size_ ≡ one.size_)
              × ((old : NormalizedVehicleSample) × (view one (key (sample 30)) ≡ some old)
                  × (old.timestamp_ms ≤ (sample 30).timestamp_ms))
              × Puts one (sample 30) new)
            ⊎ (((r ≡ ignored_older)
                  × (new ≡ one)
                  × ((old : NormalizedVehicleSample) × (view one (key (sample 30)) ≡ some old)
                      × ((sample 30).timestamp_ms < old.timestamp_ms)))
                ⊎ ((r ≡ full)
                    × (new ≡ one)
                    × (view one (key (sample 30)) ≡ none)
                    × (one.size_ ≡ 1)))))
upsert-refines_example =
    upsert-refines 1 one (sample 30) one-IsStore (sample-IsSample 30 (omega arith))

upsert_all-Keeps_example :
    let new = upsert_all 1 one (sample 30 ∷ sample 25 ∷ []) in
    IsStore 1 new
    × ((k : List ℕ) (old : NormalizedVehicleSample) → view one k ≡ some old → Keeps new k old)
upsert_all-Keeps_example =
    upsert_all-Keeps 1 one (sample 30 ∷ sample 25 ∷ []) one-IsStore
      (sample-IsSample 30 (omega arith), (sample-IsSample 25 (omega arith), tt))

-- The identity of the sample, to look up.
abbrev signal : BoundedText
signal = (assign 64 (some rpm) (empty_text 64)).1

lookup-view_example :
    ((lookup one signal no_sample ≡ (false, no_sample)) × (view one (content signal) ≡ none))
    ⊎ ((found : NormalizedVehicleSample) × (lookup one signal no_sample ≡ (true, found))
        × (view one (content signal) ≡ some found))
unfolding assign strlen empty_text is_well_formed_utf8 well_formed_loop sequence_rest
lookup-view_example = lookup-view 1 one signal no_sample one-IsStore (omega arith)

-- Room for two samples.
abbrev two : List NormalizedVehicleSample
two = no_sample ∷ no_sample ∷ []

snapshot_lem_example :
    let (result, written, count) = snapshot one (some two) (length two) in
    (count ≡ one.size_)
    × (((result ≡ insufficient_capacity) × (length two < one.size_) × (written ≡ some two))
        ⊎ ((result ≡ complete)
            × ((copied : List NormalizedVehicleSample) × (written ≡ some copied)
                × (length copied ≡ length two)
                × ((i : ℕ) → i < one.size_ → sample_at copied i ≡ sample_at one.samples_ i)
                × ((i : ℕ) → one.size_ ≤ i → sample_at copied i ≡ sample_at two i))))
snapshot_lem_example = snapshot_lem one two
