-- ===== src/TransformDis/Tests.antt =====
-- The rewriting of lib/transform-dis.c on a small patch.
use substitute.Common.{ℕ, ◌^◌, ◌<◌, arith, [], true, false, some, if◌then◌else◌, ◌==◌}
use substitute.Arm64.Machine.{Machine}
use substitute.TransformDis.{Ctx, transform_dis_main}
use substitute.TransformDis.Table.{Ends, transform_dis_main-Ends}
use substitute.TransformDis.Branch.{Jump, on_branch-JumpsTo}

-- `cbz x0`, eight bytes on, and instructions that are copied.
abbrev program : ℕ → ℕ
program offset = if offset == 0 then 0xb4000040 else 0x91000400

program-lt : (a : ℕ) → program a < 2 ^ 32
program-lt a = ground arith

transform_dis_main-Ends_example :
    Ends program 0x1000 0x100c (transform_dis_main program 0x8000 0x1000 0x100c 0 true)
transform_dis_main-Ends_example =
    transform_dis_main-Ends program 0x8000 0x1000 0x100c program-lt (omega arith) 0 true
      (omega arith)

abbrev under_patch : Ctx
under_patch = record {
  err = 0;
  pc = 0x1000;
  op = 0x14000400;
  modify = false;
  newval_0 = 0;
  newval_1 = 0;
  pc_trampoline = 0x8000;
  pc_patch_start = 0x1000;
  pc_patch_end = 0x100c;
  ban_calls = true;
  rewritten = [];
  write_newop_here = some 0;
  regs_possibly_written = 0x20000;
}

abbrev machine : Machine
machine = record { x = λ r. r; pc = 0x8000 }

on_branch-JumpsTo_example : Jump under_patch 0x2000 machine
on_branch-JumpsTo_example =
    on_branch-JumpsTo under_patch 0x2000 machine (omega arith) (omega arith) (omega arith)
