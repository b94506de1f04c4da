-- ===== src/Tests.antt =====
-- Concrete inputs for the theorems: small rings, links, streams and guests.
pub mod Queues
pub mod Links
pub mod Streams
pub mod Bridges
pub mod Guests
pub mod Receive
pub mod Regions
pub mod Messages
pub mod Devices
pub mod Sockets
pub mod Functions
pub mod Simulator
pub mod Turns
