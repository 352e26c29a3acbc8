-- ===== src/Complete.antt =====
-- The client of src/handshake/client.c and the server of src/handshake/server.c against each other:
-- a network that delivers takes both to the end of the handshake.
mod Tests
pub mod Bytes
pub mod Hello
pub mod Identity
pub mod Finished
pub mod Phases
pub mod Run
pub mod Handshake
