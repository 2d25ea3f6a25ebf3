-- ===== src/Cbit.antt =====
-- lib/cbit: the containers.
pub mod Vec
mod Tests
