-- ===== src/Ft.antt =====
-- The fault-tolerant group of src/ft.cpp and include/sassrv/ft.h.
pub mod Peer
pub mod Pool
pub mod Queue
pub mod Group
