-- ===== src/Proto.antt =====
-- src/xrd/proto: the wire protocol.
pub mod Constants
pub mod Buffer
pub mod Requests
pub mod Frames
pub mod Builders
pub mod Text
pub mod Responses
pub mod Machine
