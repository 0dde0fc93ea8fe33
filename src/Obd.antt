-- ===== src/Obd.antt =====
-- src/protocol/obd_service.h: a client of the read-only OBD services, one request at a time.
pub mod State
pub mod Service
pub mod Safety
pub mod Results
pub mod StoredDtcs
mod Tests
