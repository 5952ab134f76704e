-- ===== src/Connect.antt =====
-- src/proxy_runtime/rama/connect.rs: admission of CONNECT requests and explicit tunnels.
pub mod Head
pub mod Receive
pub mod Buffered
pub mod Tunnel
pub mod Position
pub mod Framing
pub mod Ends
pub mod Relay
pub mod Network
pub mod Handle
pub mod Admission
pub mod Calls
pub mod Dialing
pub mod Refused
pub mod Printed
pub mod RoundTrip
