-- ===== src/Darwin.antt =====
-- lib/darwin.
pub mod Read
pub mod Interpose
mod Tests
