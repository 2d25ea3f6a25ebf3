-- ===== src/Arm64/JumpPatch.antt =====
-- lib/arm64/jump-patch.h. `intptr_t diff` is a pattern of 64 bits, read as a signed number by its
-- range.
pub mod Adrp
pub mod Jumps
use substitute.Common.{
  ℕ, ◌+◌, ◌-◌, ◌^◌, ◌++◌, List, Option, none, some, Bool, true, false, ◌||◌, bit_and, if◌then◌else◌,
  ◌==◌, ltb, leb,
}
use substitute.Arm64.Assemble.{
  size_of_mov_i64, mov_i64, adrp_add, br, page_diff, get_unwritten_temp_reg,
}

abbrev pub max_jump_patch_size : ℕ
max_jump_patch_size = 20

-- `diff >= -0x100000000 && diff < 0x100000000`
unfoldable pub in_range : ℕ → Bool
in_range diff = ltb diff 0x100000000 || leb (2 ^ 64 - 0x100000000) diff

-- `none` is the -1.
unfoldable pub jump_patch_size : ℕ → ℕ → Bool → Option ℕ
jump_patch_size pc dpc force =
    if in_range (page_diff pc dpc)
    then (if bit_and dpc 0xfff == 0 then some 8 else some 12)
    else (if force then some (size_of_mov_i64 dpc + 4) else none)

-- `none` is the abort for want of a register.
unfoldable pub make_jump_patch : ℕ → ℕ → ℕ → Option (List ℕ)
make_jump_patch pc dpc regs_possibly_written = elim (get_unwritten_temp_reg regs_possibly_written) [
  | none ↦ none
  | some reg ↦ some (
      (if in_range (page_diff pc dpc) then adrp_add reg pc dpc else mov_i64 reg dpc)
      ++ br reg false)
]
