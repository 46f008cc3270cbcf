-- ===== src/Connection.antt =====
-- pygridgain/connection.
pub mod Receive
pub mod Protocol
pub mod Handshake
pub mod Aio
