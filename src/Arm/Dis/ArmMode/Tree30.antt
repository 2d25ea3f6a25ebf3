-- ===== src/Arm/Dis/ArmMode/Tree30.antt =====
-- generated/generic-dis-arm.inc.h: a part of its switches, each named for the labels that lead to it.
use substitute.Common.{[], ◌∷◌}
use substitute.Arm.Switch.{Node, go, switch, test, on, at, end, ◌▹◌}
use substitute.Arm.Dis.ArmMode.Insn.{ArmInsn}
use substitute.Arm.Dis.ArmMode.Insn.ArmInsn.{
  bl, lda, ldc2l_pre, ldmda, ldrb_pre_imm, ldrb_pre_reg, ldrd_pre, stc2l_pre, stl, stlex, stmda,
  strb_pre_imm, strb_pre_reg, strd_pre, unidentified,
}

unfoldable pub case_30 : Node ArmInsn
case_30 = switch 26 0x3 (
    at 0 (
      switch 5 0x1f (
        on (0 ∷ 1 ∷ 2 ∷ 3 ∷ 8 ∷ 9 ∷ 10 ∷ 11 ∷ 12 ∷ 16 ∷ 17 ∷ 18 ∷ 19 ∷ 24 ∷ 25 ∷ 26 ∷ 27 ∷ [])
          (go unidentified)
        ▹ at 4 (test 0xff0fff0 0x1e0fc90 (go stl) (go unidentified))
        ▹ on (5 ∷ 7 ∷ 13 ∷ 15 ∷ 21 ∷ 23 ∷ 29 ∷ 31 ∷ [])
            (test 0xf3000b0 0x12000b0 (go strd_pre) (go unidentified))
        ▹ on (6 ∷ 14 ∷ 22 ∷ 30 ∷ []) (test 0xf2000f0 0x12000d0 (go ldrd_pre) (go unidentified))
        ▹ on (20 ∷ 28 ∷ []) (test 0xff00ef0 0x1e00e90 (go stlex) (go unidentified))
        ▹ end))
    ▹ at 1 (
        switch 25 0x1 (
          at 0 (go strb_pre_imm)
          ▹ at 1 (test 0xf300010 0x7200000 (go strb_pre_reg) (go unidentified))
          ▹ end))
    ▹ at 2 (switch 25 0x1 (at 0 (go stmda) ▹ at 1 (go bl) ▹ end))
    ▹ at 3 (test 0xf300000 0xd200000 (go stc2l_pre) (go unidentified))
    ▹ end)

unfoldable pub case_31 : Node ArmInsn
case_31 = switch 26 0x3 (
    at 0 (
      switch 5 0x1f (
        on (0 ∷ 1 ∷ 2 ∷ 3 ∷ 8 ∷ 9 ∷ 10 ∷ 11 ∷ 12 ∷ 16 ∷ 17 ∷ 18 ∷ 19 ∷ 24 ∷ 25 ∷ 26 ∷ 27 ∷ [])
          (go unidentified)
        ▹ at 4 (test 0xff00fff 0x1f00c9f (go lda) (go unidentified))
        ▹ on (5 ∷ 7 ∷ 13 ∷ 15 ∷ 21 ∷ 23 ∷ 29 ∷ 31 ∷ [])
            (test 0xf3000b0 0x13000b0 (go ldrd_pre) (go unidentified))
        ▹ on (6 ∷ 14 ∷ 22 ∷ 30 ∷ []) (test 0xf2000f0 0x12000d0 (go ldrd_pre) (go unidentified))
        ▹ on (20 ∷ 28 ∷ []) (test 0xfb00eff 0x1b00e9f (go lda) (go unidentified))
        ▹ end))
    ▹ at 1 (
        switch 25 0x1 (
          at 0 (go ldrb_pre_imm)
          ▹ at 1 (test 0xf300010 0x7300000 (go ldrb_pre_reg) (go unidentified))
          ▹ end))
    ▹ at 2 (switch 25 0x1 (at 0 (go ldmda) ▹ at 1 (go bl) ▹ end))
    ▹ at 3 (test 0xf300000 0xd300000 (go ldc2l_pre) (go unidentified))
    ▹ end)
