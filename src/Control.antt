-- ===== src/Control.antt =====
-- src/config/protocol.rs and src/control/server.rs: control requests, their frames, and what one
-- control connection does.
pub mod Protocol
pub mod Frame
pub mod Connection
pub mod Answers
pub mod Leases
pub mod Effects
pub mod Requests
