-- ===== src/Uds.antt =====
-- src/protocol/uds_service.h: a client of the read-only UDS services, one request at a time.
pub mod State
pub mod Service
pub mod Safety
pub mod Reports
pub mod Answers
pub mod Progress
mod Tests
