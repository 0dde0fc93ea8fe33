-- ===== src/IsoTp/Invariant.antt =====
-- src/protocol/isotp_transport.h: what holds of a transport between two calls.
mod Receiving
mod Sending
mod Operations
pub use Receiving.*
pub use Sending.*
pub use Operations.*
