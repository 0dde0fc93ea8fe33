-- ===== src/Export.antt =====
-- src/application/vehicle_data_export_record.h: the names that the children pass on.
pub mod Layout
pub mod Encode
pub mod Decode
pub mod Bytes
pub mod Written
pub mod Rebuild
pub mod RoundTrip
pub mod Outcome
mod Tests
