-- ===== src/IsoTp.antt =====
-- src/protocol/isotp_transport.h: segmentation and reassembly of diagnostic messages over CAN.
pub mod State
pub mod Frames
pub mod Receiver
pub mod Sender
pub mod Node
pub mod Invariant
pub mod Calls
pub mod Bounds
pub mod Segments
pub mod Assembly
pub mod Reassembly
pub mod Ends
pub mod Delivery
pub mod Recorder
pub mod Transmission
pub mod Opening
pub mod Transfer
pub mod FlowControl
pub mod Refusals
mod Tests
