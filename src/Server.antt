-- ===== src/Server.antt =====
-- server/server.cc: the pool of IO threads, which spreads connections over event loops.
pub mod Pool
pub mod Best
pub mod Level
