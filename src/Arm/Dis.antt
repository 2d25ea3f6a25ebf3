-- ===== src/Arm/Dis.antt =====
-- lib/arm/dis-main.inc.h: the disassembler of ARM and Thumb code.
pub mod ArmMode
pub mod Thumb
pub mod Thumb2
pub mod Ends
pub mod Modes
pub mod It
pub mod Branches
mod Tests
pub mod Adr
pub mod Wide
pub mod Settles
use substitute.Common.{ℕ, Bool, ◌&&◌, not, bit_and, ◌>>>◌, if◌then◌else◌, ◌==◌}
use substitute.Arm.Context.{ArchDisCtx, DisCtx, Outcome, unaligned_r16}
use substitute.Arm.Dis.ArmMode.{dis_arm}
use substitute.Arm.Dis.Thumb.{dis_thumb}
use substitute.Arm.Dis.Thumb2.{dis_thumb2}

unfoldable pub is_32 : ℕ → Bool
is_32 op = (bit_and (op >>> 13) 7 == 7) && not (bit_and (op >>> 11) 3 == 0)

unfoldable pub dis : DisCtx → Outcome
unfolding is_32
dis ctx =
    if ctx.arch.pc_low_bit
    then (if is_32 (unaligned_r16 ctx.code) then dis_thumb2 ctx else dis_thumb ctx)
    else dis_arm ctx
