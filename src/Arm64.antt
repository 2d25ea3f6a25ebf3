-- ===== src/Arm64.antt =====
-- lib/arm64: what the AArch64 files share.
pub mod Assemble
pub mod Machine
pub mod JumpPatch
pub mod Tree
pub mod Decode
mod Tests
