-- ===== src/Arm/Dis/ArmMode/Tree9.antt =====
-- generated/generic-dis-arm.inc.h: a part of its switches, each named for the labels that lead to it.
use substitute.Common.{[], ◌∷◌}
use substitute.Arm.Switch.{Node, go, switch, test, on, at, end, ◌▹◌}
use substitute.Arm.Dis.ArmMode.Insn.{ArmInsn}
use substitute.Arm.Dis.ArmMode.Insn.ArmInsn.{
  addri, addrr, addrsi, addrsr, adr, bcc, bl, blx, bx, lda, ldc2l_offset, ldc2l_option, ldc2l_pre,
  ldmda, ldrb_pre_imm, ldrb_pre_reg, ldrbi12, ldrbrs, ldrbt_post_imm, ldrbt_post_reg, ldrd,
  ldrd_post, ldrd_pre, mcr, movti16, mrc, stc2l_offset, stc2l_option, stc2l_pre, stmda,
  strb_pre_imm, strb_pre_reg, strbi12, strbrs, strbt_post_imm, strbt_post_reg, strd, strd_post,
  strd_pre, stri12, strrs, unidentified,
}

unfoldable pub case_9 : Node ArmInsn
case_9 = switch 25 0x7 (
    at 0 (
      switch 4 0x3 (
        at 0 (test 0xfe00ff0 0x800000 (go addrr) (go addrsi))
        ▹ at 1 (
            switch 7 0x1 (
              at 0 (go addrsr) ▹ at 1 (test 0xf2000f0 0xd0 (go ldrd_post) (go unidentified)) ▹ end))
        ▹ at 2 (go addrsi)
        ▹ at 3 (switch 7 0x1 (at 0 (go addrsr) ▹ at 1 (go ldrd_post) ▹ end))
        ▹ end))
    ▹ at 1 (go addri)
    ▹ at 2 (go ldrbt_post_imm)
    ▹ at 3 (test 0xf100010 0x6100000 (go ldrbt_post_reg) (go unidentified))
    ▹ at 4 (go ldmda)
    ▹ at 5 (go bcc)
    ▹ at 6 (go ldc2l_option)
    ▹ at 7 (test 0xf100010 0xe100010 (go mrc) (go unidentified))
    ▹ end)

unfoldable pub case_12 : Node ArmInsn
case_12 = switch 25 0x7 (
    at 0 (
      switch 5 0x1 (
        at 0 (test 0xf2000f0 0xd0 (go ldrd_post) (go unidentified))
        ▹ at 1 (test 0xf3000b0 0xb0 (go strd_post) (go unidentified))
        ▹ end))
    ▹ at 1 (test 0xf3f0000 0x20f0000 (go adr) (go unidentified))
    ▹ at 2 (go strbt_post_imm)
    ▹ at 3 (test 0xf100010 0x6000000 (go strbt_post_reg) (go unidentified))
    ▹ at 4 (go stmda)
    ▹ at 5 (go bcc)
    ▹ at 6 (go stc2l_option)
    ▹ at 7 (test 0xf100010 0xe000010 (go mcr) (go unidentified))
    ▹ end)

unfoldable pub case_13 : Node ArmInsn
case_13 = switch 26 0x3 (
    at 0 (
      switch 5 0x1 (
        at 0 (test 0xf2000f0 0xd0 (go ldrd_post) (go unidentified))
        ▹ at 1 (test 0xf3000b0 0x1000b0 (go ldrd_post) (go unidentified))
        ▹ end))
    ▹ at 1 (
        switch 25 0x1 (
          at 0 (go ldrbt_post_imm)
          ▹ at 1 (test 0xf100010 0x6100000 (go ldrbt_post_reg) (go unidentified))
          ▹ end))
    ▹ at 2 (switch 25 0x1 (at 0 (go ldmda) ▹ at 1 (go bcc) ▹ end))
    ▹ at 3 (
        switch 25 0x1 (
          at 0 (go ldc2l_option)
          ▹ at 1 (test 0xf100010 0xe100010 (go mrc) (go unidentified))
          ▹ end))
    ▹ end)

unfoldable pub case_16 : Node ArmInsn
case_16 = switch 25 0x7 (
    at 0 (
      switch 5 0x3 (
        at 0 (test 0xfb00ff0 0x1000090 (go lda) (go unidentified))
        ▹ on (1 ∷ 3 ∷ []) (test 0xf3000b0 0x10000b0 (go strd) (go unidentified))
        ▹ at 2 (test 0xf2000f0 0x10000d0 (go ldrd) (go unidentified))
        ▹ end))
    ▹ at 1 (go movti16)
    ▹ at 2 (go stri12)
    ▹ at 3 (test 0xf700010 0x7000000 (go strrs) (go unidentified))
    ▹ at 4 (go stmda)
    ▹ at 5 (go bl)
    ▹ at 6 (
        switch 9 0x7
          (on (0 ∷ 1 ∷ 2 ∷ 3 ∷ 4 ∷ 6 ∷ 7 ∷ []) (go stc2l_offset) ▹ at 5 (go ldc2l_offset) ▹ end))
    ▹ at 7 (go unidentified)
    ▹ end)

unfoldable pub case_17 : Node ArmInsn
case_17 = switch 26 0x3 (
    at 0 (
      switch 5 0x1 (
        at 0 (test 0xf2000f0 0x10000d0 (go ldrd) (go unidentified))
        ▹ at 1 (test 0xf3000b0 0x11000b0 (go ldrd) (go unidentified))
        ▹ end))
    ▹ at 1 (
        switch 25 0x1
          (at 0 (go ldrbi12) ▹ at 1 (test 0xf300010 0x7100000 (go ldrbrs) (go unidentified)) ▹ end))
    ▹ at 2 (switch 25 0x1 (at 0 (go ldmda) ▹ at 1 (go bl) ▹ end))
    ▹ at 3 (test 0xf300000 0xd100000 (go ldc2l_offset) (go unidentified))
    ▹ end)

unfoldable pub case_18 : Node ArmInsn
case_18 = switch 26 0x3 (
    at 0 (
      switch 5 0x7 (
        at 0 (test 0xffffff0 0x12fff10 (go bx) (go unidentified))
        ▹ at 1 (test 0xfffffe0 0x12fff20 (go blx) (go unidentified))
        ▹ on (2 ∷ 3 ∷ 4 ∷ []) (go unidentified)
        ▹ on (5 ∷ 7 ∷ []) (test 0xf3000b0 0x12000b0 (go strd_pre) (go unidentified))
        ▹ at 6 (test 0xf2000f0 0x12000d0 (go ldrd_pre) (go unidentified))
        ▹ end))
    ▹ at 1 (
        switch 25 0x1 (
          at 0 (go strb_pre_imm)
          ▹ at 1 (test 0xf300010 0x7200000 (go strb_pre_reg) (go unidentified))
          ▹ end))
    ▹ at 2 (switch 25 0x1 (at 0 (go stmda) ▹ at 1 (go bl) ▹ end))
    ▹ at 3 (test 0xf300000 0xd200000 (go stc2l_pre) (go unidentified))
    ▹ end)

unfoldable pub case_19 : Node ArmInsn
case_19 = switch 26 0x3 (
    at 0 (
      switch 5 0x1 (
        at 0 (test 0xf2000f0 0x12000d0 (go ldrd_pre) (go unidentified))
        ▹ at 1 (test 0xf3000b0 0x13000b0 (go ldrd_pre) (go unidentified))
        ▹ end))
    ▹ at 1 (
        switch 25 0x1 (
          at 0 (go ldrb_pre_imm)
          ▹ at 1 (test 0xf300010 0x7300000 (go ldrb_pre_reg) (go unidentified))
          ▹ end))
    ▹ at 2 (switch 25 0x1 (at 0 (go ldmda) ▹ at 1 (go bl) ▹ end))
    ▹ at 3 (test 0xf300000 0xd300000 (go ldc2l_pre) (go unidentified))
    ▹ end)

unfoldable pub case_20 : Node ArmInsn
case_20 = switch 25 0x7 (
    at 0 (
      switch 5 0x3 (
        at 0 (test 0xfb00ff0 0x1000090 (go lda) (go unidentified))
        ▹ on (1 ∷ 3 ∷ []) (test 0xf3000b0 0x10000b0 (go strd) (go unidentified))
        ▹ at 2 (test 0xf2000f0 0x10000d0 (go ldrd) (go unidentified))
        ▹ end))
    ▹ at 1 (go movti16)
    ▹ at 2 (go strbi12)
    ▹ at 3 (test 0xf700010 0x7400000 (go strbrs) (go unidentified))
    ▹ at 4 (go stmda)
    ▹ at 5 (go bl)
    ▹ at 6 (
        switch 9 0x7
          (on (0 ∷ 1 ∷ 2 ∷ 3 ∷ 4 ∷ 6 ∷ 7 ∷ []) (go stc2l_offset) ▹ at 5 (go ldc2l_offset) ▹ end))
    ▹ at 7 (go unidentified)
    ▹ end)

unfoldable pub case_22 : Node ArmInsn
case_22 = switch 26 0x3 (
    at 0 (
      switch 5 0x1 (
        at 0 (test 0xf2000f0 0x12000d0 (go ldrd_pre) (go unidentified))
        ▹ at 1 (test 0xf3000b0 0x12000b0 (go strd_pre) (go unidentified))
        ▹ end))
    ▹ at 1 (
        switch 25 0x1 (
          at 0 (go strb_pre_imm)
          ▹ at 1 (test 0xf300010 0x7200000 (go strb_pre_reg) (go unidentified))
          ▹ end))
    ▹ at 2 (switch 25 0x1 (at 0 (go stmda) ▹ at 1 (go bl) ▹ end))
    ▹ at 3 (test 0xf300000 0xd200000 (go stc2l_pre) (go unidentified))
    ▹ end)
