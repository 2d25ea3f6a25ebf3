-- ===== src/Arm/JumpPatch.antt =====
-- lib/arm/jump-patch.h. The initialiser of `struct assemble_ctx` there has four values for five
-- members: `code_base` is `pc`, `pc_of_code_base` is `pc_low_bit`, `thumb` is 0xe, and `cond` is 0.
pub mod Sizes
use substitute.Common.{ℕ, List, Bool, true, false, if◌then◌else◌, ◌==◌, bit_and}
use substitute.Arm.Assemble.{AssembleCtx, ldr_pc}

abbrev pub max_jump_patch_size : ℕ
max_jump_patch_size = 8

unfoldable pub jump_patch_size : ℕ → ℕ
jump_patch_size pc = if bit_and pc 2 == 0 then 8 else 10

abbrev pub patch_ctx : ℕ → ℕ → Bool → AssembleCtx
patch_ctx at pc pc_low_bit = record {
  at = at;
  code_base = pc;
  pc_of_code_base = if pc_low_bit then 1 else 0;
  thumb = true;
  cond = 0;
}

-- `at` is `*codep`.
unfoldable pub make_jump_patch : ℕ → ℕ → ℕ → Bool → List ℕ
make_jump_patch at pc dpc pc_low_bit = ldr_pc (patch_ctx at pc pc_low_bit) dpc
