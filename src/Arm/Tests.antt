-- ===== src/Arm/Tests.antt =====
-- The theorems of lib/arm at concrete values.
use substitute.Common.{◌≡◌, arith, true}
use substitute.Arm.Assemble.{AssembleCtx, movw_movt}
use substitute.Arm.Assemble.MoveWide.{Loads, movw_movt-Loads}
use substitute.Common.{◌⊎◌, ◌≢◌, ◌==◌, bit_and, length}
use substitute.Arm.JumpPatch.{jump_patch_size, make_jump_patch}
use substitute.Arm.JumpPatch.Sizes.{shift, make_jump_patch-size_or_not}

abbrev thumb_ctx : AssembleCtx
thumb_ctx = record {
  at = 0x1000;
  code_base = 0x1000;
  pc_of_code_base = 0x1000;
  thumb = true;
  cond = 14;
}

movw_movt-Loads_example : Loads true 14 5 0x12345678 (movw_movt thumb_ctx 5 0x12345678)
movw_movt-Loads_example =
    movw_movt-Loads thumb_ctx 5 0x12345678 (omega arith) (omega arith) (omega arith)

make_jump_patch-size_or_not_example :
    (((bit_and (shift 0x8000 0x1002 true) 2 == 0) ≡ (bit_and 0x1002 2 == 0))
      × (length (make_jump_patch 0x8000 0x1002 0x2000 true) ≡ jump_patch_size 0x1002))
    ⊎ (((bit_and (shift 0x8000 0x1002 true) 2 == 0) ≢ (bit_and 0x1002 2 == 0))
        × (length (make_jump_patch 0x8000 0x1002 0x2000 true) ≢ jump_patch_size 0x1002))
make_jump_patch-size_or_not_example =
    make_jump_patch-size_or_not 0x8000 0x1002 0x2000 true (omega arith) (omega arith)
