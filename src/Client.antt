-- ===== src/Client.antt =====
-- The package client/: the data that travels, routing, the wire formats, and the client itself.
pub mod Datatypes
pub mod Registry
pub mod Struct
pub mod Wire
pub mod Db
pub mod Write
pub mod Send
pub mod Query
pub mod BatchQuery
pub mod WorkQueue
pub mod Sockets
pub mod Pages
pub mod Read
pub mod ReadBatch
pub mod Routing
