-- ===== src/Monitor.antt =====
-- The subscription monitor: `RvSubscriptionDB` of src/submgr.cpp and include/sassrv/submgr.h.
pub mod Wildcard
pub mod Ids
pub mod Entry
pub mod Db
pub mod Sessions
pub mod Listen
pub mod Sass3
pub mod Events
pub mod Filters
pub mod Process
pub mod Counting
mod Tests
