-- ===== src/Trdp.antt =====
-- The reliable multicast receiver of src/mc.cpp and include/sassrv/mc.h.
pub mod Header
pub mod Window
pub mod Output
pub mod Db
