-- ===== src/Sessions.antt =====
-- clients.go and server.go: what a client's session does with its in-flight messages.
pub mod PacketId
pub mod Resume
pub mod Acks
pub mod Clear
pub mod Outgoing
pub mod Receive
pub mod Deliver
pub mod Unsubscribe
mod Tests
