-- ===== src/Ble/Tests.antt =====
-- src/application/ble_vehicle_data_payload.h: payloads of a sample and of the metadata of a read.
use esp32_vag_data_server.Prelude.{
  ℕ, ◌≤◌, ◌≡◌, ◌⊎◌, refl, List, [], ◌∷◌, none, some, arith, length, replicate,
}
use esp32_vag_data_server.VehicleData.Sample.{no_sample}
use esp32_vag_data_server.VehicleData.Example.{sample, sample-IsSample}
use esp32_vag_data_server.Store.{VehicleDataStore, snapshot}
use esp32_vag_data_server.Profiles.{ProfileIdentity}
use esp32_vag_data_server.Profiles.Selection.{ProfileOperation, select}
use esp32_vag_data_server.ReadModel.{complete, ReadOutput, read_snapshot, projection}
use esp32_vag_data_server.Ble.Records.{encode_ble_sample_record, encode_ble_snapshot_metadata}
use esp32_vag_data_server.Ble.Payloads.{sample_bytes, snapshot_bytes}
use esp32_vag_data_server.Ble.Encoders.{
  Encodes, Refuses, Sendable, encode_ble_sample_record-Encodes,
}
use esp32_vag_data_server.Ble.Published.{reader, read_snapshot-encoded}

-- Memory of 60 bytes.
abbrev memory : List ℕ
memory = replicate 60 0xAA

encode_ble_sample_record-Encodes_example :
    let outcome = encode_ble_sample_record (sample 20) 3 (some memory) (length memory) in
    (Sendable (sample 20) 3
      × (length (sample_bytes (sample 20) 3) ≤ 133)
      × Encodes (sample_bytes (sample 20) 3) memory outcome)
    ⊎ (¬ Sendable (sample 20) 3 × Refuses memory outcome)
encode_ble_sample_record-Encodes_example =
    encode_ble_sample_record-Encodes (sample 20) 3 memory (sample-IsSample 20 (omega arith))
      (omega arith)

abbrev kamiq : ProfileIdentity
kamiq = record { value_ = 1 }

abbrev choice : List ProfileOperation
choice = select kamiq ∷ []

-- A store of one sample, and a caller with room for it and for no capabilities.
abbrev store : VehicleDataStore
store = record { samples_ = no_sample ∷ []; size_ = 1 }

abbrev caller : ReadOutput
caller = record {
  samples = some (no_sample ∷ []);
  capabilities = none;
  metadata = projection (reader (kamiq ∷ []) choice store none none);
}

completes :
    (read_snapshot (reader (kamiq ∷ []) choice store none none) 1 0 caller).0.status ≡ complete
unfolding read_snapshot projection snapshot
completes = refl

read_snapshot-encoded_example :
    let published = (read_snapshot (reader (kamiq ∷ []) choice store none none) 1 0 caller).1 in
    Encodes
      (snapshot_bytes published.metadata)
      memory
      (encode_ble_snapshot_metadata published.metadata (some memory) (length memory))
read_snapshot-encoded_example =
    read_snapshot-encoded (kamiq ∷ []) choice store none none 1 0 caller memory refl tt
      (omega arith) (omega arith) (omega arith) completes
