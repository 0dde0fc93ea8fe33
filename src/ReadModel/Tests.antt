-- ===== src/ReadModel/Tests.antt =====
-- src/application/vehicle_data_read_model.h: a read of a store of one sample.
use esp32_vag_data_server.Prelude.{◌≡◌, ◌⊎◌, ◌&&◌, refl, true, false, [], ◌∷◌, some}
use esp32_vag_data_server.VehicleData.Sample.{no_sample}
use esp32_vag_data_server.Store.{empty_store, upsert}
use esp32_vag_data_server.Profiles.{
  ProfileIdentity, new_profile, select_manually, signal_registry_for,
}
use esp32_vag_data_server.ReadModel.{
  complete, insufficient_capacity, VehicleDataReadModel, ReadOutput, registered, projection,
  no_descriptor, read_snapshot,
}
use esp32_vag_data_server.ReadModel.Read.{takes, Copied, read_snapshot_lem}
use esp32_vag_data_server.ReadModel.Association.{Shown, projection-Shown}

abbrev kamiq : ProfileIdentity
kamiq = record { value_ = 1 }

abbrev model : VehicleDataReadModel
model = record {
  profile_ = (select_manually kamiq (new_profile (kamiq ∷ []))).1;
  store_ = (upsert 2 (empty_store 2) no_sample).1;
  registry_profile_ = some kamiq;
  registry_ = signal_registry_for kamiq;
}

-- Room for one sample and for the four descriptors.
abbrev output : ReadOutput
output = record {
  samples = some (no_sample ∷ []);
  capabilities = some (no_descriptor ∷ no_descriptor ∷ no_descriptor ∷ no_descriptor ∷ []);
  metadata = projection model;
}

read_snapshot_lem_example :
    let (result, output') = read_snapshot model 1 4 output in
    let next = projection model in
    let both =
      takes output.samples 1 model.store_.size_
      && takes output.capabilities 4 next.capability_count in
    (result.required_sample_capacity ≡ model.store_.size_)
    × (result.required_capability_capacity ≡ next.capability_count)
    × (((result.status ≡ insufficient_capacity) × (both ≡ false) × (output' ≡ output))
        ⊎ ((result.status ≡ complete)
            × (both ≡ true)
            × (output'.metadata ≡ record next { sample_count = model.store_.size_ })
            × Copied model.store_.samples_ no_sample model.store_.size_ output.samples
                output'.samples
            × Copied
                (registered model.registry_)
                no_descriptor
                next.capability_count
                output.capabilities
                output'.capabilities))
read_snapshot_lem_example = read_snapshot_lem model 1 4 output refl refl

projection-Shown_example : Shown model (projection model)
projection-Shown_example = projection-Shown model
