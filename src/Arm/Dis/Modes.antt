-- ===== src/Arm/Dis/Modes.antt =====
-- Which of its three parts the disassembler goes to, and the numbers that it reads.
use substitute.Common.{ℕ, ◌+◌, ◌*◌, ◌^◌, ◌/◌, ◌%◌, ◌<◌, ◌≡◌, u32, arith, true, false}
use substitute.Arm.Context.{DisCtx, unaligned_r16, unaligned_r32}
use substitute.Arm.Dis.ArmMode.{dis_arm}
use substitute.Arm.Dis.Thumb.{dis_thumb}
use substitute.Arm.Dis.Thumb2.{dis_thumb2}
use substitute.Common.Bits.{bit_or_field}
use substitute.Arm.Dis.Thumb2.Handlers.{flip16}
use substitute.Arm.Dis.{dis, is_32}

abbrev pub IsBytes : (ℕ → ℕ) → Type 0
IsBytes code = (i : ℕ) → code i < 256

pub r16_fits : (code : ℕ → ℕ) → IsBytes code → unaligned_r16 code < 2 ^ 16
unfolding unaligned_r16
r16_fits code h = omega (arith, h 0, h 1)

pub r32_fits : (code : ℕ → ℕ) → IsBytes code → unaligned_r32 code < 2 ^ 32
unfolding unaligned_r32
r32_fits code h = omega (arith, h 0, h 1, h 2, h 3)

pub flip16_lem : (op : ℕ) → op < 2 ^ 32 → flip16 op ≡ op / 2 ^ 16 + op % 2 ^ 16 * 2 ^ 16
unfolding flip16
flip16_lem op h =
    let low : u32 (op * 2 ^ 16) ≡ op % 2 ^ 16 * 2 ^ 16 = omega arith in
    rw low (bit_or_field 16 16 (op / 2 ^ 16) (op % 2 ^ 16) (omega arith) (omega arith))

module _ (ctx : DisCtx) where
  pub dis-arm_mode : ctx.arch.pc_low_bit ≡ false → dis ctx ≡ dis_arm ctx
  unfolding dis
  dis-arm_mode arm = ground arith

  pub dis-thumb_mode :
      ctx.arch.pc_low_bit ≡ true → is_32 (unaligned_r16 ctx.code) ≡ false → dis ctx ≡ dis_thumb ctx
  unfolding dis
  dis-thumb_mode thumb narrow = ground arith

  pub dis-thumb2_mode :
      ctx.arch.pc_low_bit ≡ true → is_32 (unaligned_r16 ctx.code) ≡ true → dis ctx ≡ dis_thumb2 ctx
  unfolding dis
  dis-thumb2_mode thumb wide = ground arith
