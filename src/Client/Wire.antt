-- ===== src/Client/Wire.antt =====
-- client/dbclient.py, the wire formats: what the client writes to a socket and reads from it.
pub mod Batch
pub mod Request
pub mod Response
pub mod Stream
mod Tests
