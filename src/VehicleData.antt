-- ===== src/VehicleData.antt =====
-- src/core/vehicle_data.h: texts, values and samples.
pub mod Utf8
pub mod Sequences
pub mod CodePoints
pub mod Rounds
pub mod Text
pub mod Assign
pub mod Sample
pub mod Making
pub mod Example
mod Tests
