-- ===== src/Connection.antt =====
-- server/connection.cc and server/connection.h: one client's connection.
pub mod Direct
pub mod Parse
pub mod Bucket
pub mod State
pub mod Handlers
pub mod Sasl
pub mod Bootstrap
pub mod Loop
