-- ===== src/Packets.antt =====
-- The package `packets`: reason codes, the byte codec, fixed headers and packets.
pub mod Codes
pub mod Codec
pub mod Header
pub mod Types
pub mod Properties
pub mod Packet
pub mod Reasons
mod Tests
