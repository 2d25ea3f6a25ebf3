-- ===== src/JumpDis/Tests.antt =====
-- Runs of the search of lib/jump-dis.c on small programs.
use substitute.Common.{ℕ, ◌^◌, ◌<◌, ◌≡◌, ◌⊎◌, arith, ◌==◌, if◌then◌else◌}
use substitute.Arm64.Decode.{Arm64Event}
use substitute.JumpDis.{jump_dis_main}
use substitute.JumpDis.Verdict.{jumps_back, clean}
use substitute.JumpDis.Returns.{jump_dis_main-returns}

-- `b.eq` two instructions on, a jump to the second word of the patch, and words of zeros.
abbrev jumping : ℕ → ℕ
jumping offset = if offset == 8 then 0x54000040 else if offset == 16 then 0x17fffffd else 0

-- `b.eq` two instructions on, then jumps to themselves.
abbrev waiting : ℕ → ℕ
waiting offset = if offset == 8 then 0x54000040 else 0x14000000

jumping-lt : (a : ℕ) → jumping a < 2 ^ 32
jumping-lt a = ground arith

jump_dis_main-returns_example :
    (jump_dis_main jumping 0x1000 0x1008 ≡ jumps_back)
    ⊎ (jump_dis_main jumping 0x1000 0x1008 ≡ clean)
jump_dis_main-returns_example = jump_dis_main-returns jumping jumping-lt 0x1000 0x1008
