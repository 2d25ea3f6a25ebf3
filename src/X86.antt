-- ===== src/X86.antt =====
-- lib/x86, for x86-64.
pub mod JumpPatch
pub mod Flags
pub mod Onebyte
pub mod Twobyte
pub mod Decode
pub mod Tests
pub mod RoundTrip
pub mod Newop
pub mod Transform
