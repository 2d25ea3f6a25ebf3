-- ===== src/Arm/Dis/Tests.antt =====
-- The theorems of the disassembler of ARM and Thumb at concrete code.
use substitute.Common.{
  ℕ, ◌+◌, ◌/◌, ◌%◌, ◌^◌, ◌<◌, ◌≡◌, ◌⊎◌, ◌↔◌, refl, arith, true, false, some, if◌then◌else◌, ◌==◌,
  u32, replicate,
}
use substitute.Dis.{cc_call}
use substitute.Arm.Context.{DisCtx, unaligned_r16, unaligned_r32}
use substitute.Arm.Dis.{dis}
use substitute.Arm.Dis.Thumb.Handlers.{it_cc}
use substitute.Arm.Dis.Modes.{IsBytes}
use substitute.Arm.Dis.Branches.{branch_of, arm_branch, is_blx, blx_as, signed32, dis-arm_branch}
use substitute.Arm.Dis.Settles.{Settled, is_long_it, dis-Settled}
use substitute.Arm.Dis.It.{it_conds_of, expected, dis-it_conds}
use substitute.Arm.Dis.Wide.{second, dis-bl, dis-b_iff}
use substitute.Arm.Dis.Wide.Offset.{imm_24}
use substitute.Arm.Dis.Adr.{pcrel_of, dis-adr}

abbrev four_bytes : ℕ → ℕ → ℕ → ℕ → ℕ → ℕ
four_bytes a b c d i =
    if i == 0 then a else if i == 1 then b else if i == 2 then c else if i == 3 then d else 0

four_bytes-IsBytes :
    (a b c d : ℕ) → a < 256 → b < 256 → c < 256 → d < 256 → IsBytes (four_bytes a b c d)
four_bytes-IsBytes a b c d ha hb hc hd i = ground arith

abbrev thumb_at : (ℕ → ℕ) → DisCtx
thumb_at code = record {
  pc = 0x8000;
  code = code;
  op = 0;
  op_size = 0;
  newop_size = 0;
  arch = record { pc_low_bit = true; it_conds = replicate 5 14 };
}

abbrev arm_at : (ℕ → ℕ) → DisCtx
arm_at code = record {
  pc = 0x8000;
  code = code;
  op = 0;
  op_size = 0;
  newop_size = 0;
  arch = record { pc_low_bit = false; it_conds = replicate 5 14 };
}

-- ITTTT EQ, ITT EQ, BL 0x8204, B.W 0x8204, BNE 0x8010 and ADR r0, 0x8014.
abbrev itttt_eq : ℕ → ℕ
itttt_eq = four_bytes 0x01 0xbf 0x00 0xbf

abbrev itt_eq : ℕ → ℕ
itt_eq = four_bytes 0x04 0xbf 0x00 0xbf

abbrev bl_code : ℕ → ℕ
bl_code = four_bytes 0x00 0xf0 0x00 0xf9

abbrev b_wide : ℕ → ℕ
b_wide = four_bytes 0x00 0xf0 0x00 0xb9

abbrev bne_code : ℕ → ℕ
bne_code = four_bytes 0x02 0x00 0x00 0x1a

abbrev adr_code : ℕ → ℕ
adr_code = four_bytes 0x0c 0x00 0x8f 0xe2

dis-Settled_example : Settled (is_long_it (thumb_at itttt_eq)) (dis (thumb_at itttt_eq))
dis-Settled_example =
    dis-Settled (thumb_at itttt_eq) refl (
      four_bytes-IsBytes 0x01 0xbf 0x00 0xbf (omega arith) (omega arith) (omega arith)
        (omega arith))

dis-arm_branch_example :
    ((is_blx (unaligned_r32 bne_code) ≡ false)
      × (branch_of (dis (arm_at bne_code)) ≡ arm_branch 0x8000 (unaligned_r32 bne_code)))
    ⊎ ((is_blx (unaligned_r32 bne_code) ≡ true)
        × (branch_of (dis (arm_at bne_code)) ≡ some (blx_as 0x8000 (unaligned_r32 bne_code))))
dis-arm_branch_example =
    dis-arm_branch (arm_at bne_code) refl (
      four_bytes-IsBytes 0x02 0x00 0x00 0x1a (omega arith) (omega arith) (omega arith)
        (omega arith))

dis-it_conds_example : it_conds_of (dis (thumb_at itt_eq)) ≡ some (expected 4)
unfolding unaligned_r16
dis-it_conds_example =
    dis-it_conds (thumb_at itt_eq) 4 refl refl (omega arith) (omega arith) (omega arith) refl

dis-bl_example :
    branch_of (dis (thumb_at bl_code))
    ≡ some (
      u32 (0x8000 + 4 + signed32 24 2 (imm_24 (unaligned_r16 bl_code) (second bl_code))),
      cc_call,
    )
unfolding unaligned_r16
dis-bl_example =
    dis-bl (thumb_at bl_code) refl
      (four_bytes-IsBytes 0x00 0xf0 0x00 0xf9 (omega arith) (omega arith) (omega arith)
        (omega arith))
      refl refl refl

dis-b_iff_example :
    (branch_of (dis (thumb_at b_wide))
      ≡ some (
        u32 (0x8000 + 4 + signed32 24 2 (imm_24 (unaligned_r16 b_wide) (second b_wide))),
        it_cc (thumb_at b_wide).arch,
      ))
    ↔ (unaligned_r16 b_wide / 2 ^ 10 % 2 ≡ 1)
unfolding unaligned_r16
dis-b_iff_example =
    dis-b_iff (thumb_at b_wide) refl
      (four_bytes-IsBytes 0x00 0xf0 0x00 0xb9 (omega arith) (omega arith) (omega arith)
        (omega arith))
      refl refl refl

dis-adr_example :
    pcrel_of (dis (arm_at adr_code))
    ≡ some (
      u32 (0x8000 + 8 + unaligned_r32 adr_code % 2 ^ 8 + 0x2000),
      unaligned_r32 adr_code / 2 ^ 12 % 16,
    )
unfolding unaligned_r32
dis-adr_example = dis-adr (arm_at adr_code) refl refl (omega arith)
