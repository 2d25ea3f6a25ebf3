-- ===== src/Arm.antt =====
-- lib/arm: what assembles ARM and Thumb code.
pub mod Assemble
pub mod JumpPatch
pub mod Switch
pub mod Context
pub mod Dis
pub mod Transform
mod Tests
