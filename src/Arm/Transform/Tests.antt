-- ===== src/Arm/Transform/Tests.antt =====
-- The theorem on branches at the CBNZ of a Thumb function.
use substitute.Common.{ℕ, ◌≡◌, refl, [], ◌∷◌, List, true, false, Option, none, some, replicate}
use substitute.Dis.{op16, op32}
use substitute.Arm.Assemble.{bcc_rel, movw_movt, blx_r, divide_int, mov_half}
use substitute.Arm.Transform.State.{Ctx, invert_arm_cond, put, branch_top, tdctx_to_actx}
use substitute.Arm.Transform.{on_branch, put_jump}
use substitute.Arm.Transform.Branch.{Outcome, on_branch-Outcome}

abbrev at_cbnz : Ctx
at_cbnz = record {
  err = 0;
  pc = 0x8000;
  op = 0xb908;
  op_size = 2;
  modify = false;
  newval = 0 ∷ 0 ∷ 0 ∷ 0 ∷ [];
  pc_patch_start = 0x8000;
  pc_patch_end = 0x8008;
  force_keep_transforming = false;
  ban_calls = true;
  start = 0x20000;
  rewritten = [];
  write_newop_here = none;
  arch = record { pc_low_bit = true; it_conds = replicate 5 14 };
  bccrel_bits = 0;
  bccrel_p = none;
}

abbrev bytes_of : Option Ctx → List ℕ
bytes_of none = []
bytes_of (some ctx) = ctx.rewritten

-- BNE over the rest, MOVW and MOVT of 0x9001 to LR, and BLX LR.
cbnz_bytes :
    bytes_of (on_branch at_cbnz 0x9000 0xd00)
    ≡ 0x04 ∷ 0xd1 ∷ 0x49 ∷ 0xf2 ∷ 0x01 ∷ 0x0e ∷ 0xc0 ∷ 0xf2 ∷ 0x00 ∷ 0x0e ∷ 0xf0 ∷ 0x47 ∷ []
unfolding on_branch invert_arm_cond put_jump put branch_top bcc_rel tdctx_to_actx op16 movw_movt
    op32 blx_r divide_int mov_half
cbnz_bytes = refl

on_branch-Outcome_example : Outcome at_cbnz 0x9000 0xd00
on_branch-Outcome_example = on_branch-Outcome at_cbnz 0x9000 0xd00
