-- ===== src/Ble.antt =====
-- src/application/ble_vehicle_data_payload.h: the records of a snapshot, a capability and a sample.
pub mod Writer
pub mod Records
pub mod Emits
pub mod Payloads
pub mod Encoders
pub mod Metadata
pub mod Published
mod Tests
