-- ===== src/Host.antt =====
-- The host of a daemon, of src/rv_host.cpp and include/sassrv/rv_host.h.
pub mod Session
pub mod Refs
pub mod Services
pub mod Clients
pub mod Mcast
