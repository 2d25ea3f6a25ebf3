-- ===== src/Arm/Dis/ArmMode/Tree0.antt =====
-- generated/generic-dis-arm.inc.h: a part of its switches, each named for the labels that lead to it.
use substitute.Common.{[], ◌∷◌}
use substitute.Arm.Switch.{Node, go, switch, test, on, at, end, ◌▹◌}
use substitute.Arm.Dis.ArmMode.Insn.{ArmInsn}
use substitute.Arm.Dis.ArmMode.Insn.ArmInsn.{
  addri, addrr, addrsi, addrsr, adr, bcc, ldc2l_post, ldmda, ldrbt_post_imm, ldrbt_post_reg,
  ldrd_post, ldrhti, ldrhtr, mcr, mcrr, mrc, stc2l_option, stc2l_post, stmda, strbt_post_imm,
  strbt_post_reg, strd_post, strhti, strhtr, unidentified,
}

unfoldable pub case_0 : Node ArmInsn
case_0 = switch 25 0x7 (
    at 0 (
      switch 5 0x1 (
        at 0 (test 0xf2000f0 0xd0 (go ldrd_post) (go unidentified))
        ▹ at 1 (test 0xf3000b0 0xb0 (go strd_post) (go unidentified))
        ▹ end))
    ▹ at 1 (test 0xf3f0000 0x20f0000 (go adr) (go unidentified))
    ▹ at 2 (go strbt_post_imm)
    ▹ at 3 (test 0xf100010 0x6000000 (go strbt_post_reg) (go unidentified))
    ▹ at 4 (go stmda)
    ▹ at 5 (go bcc)
    ▹ at 6 (go unidentified)
    ▹ at 7 (test 0xf100010 0xe000010 (go mcr) (go unidentified))
    ▹ end)

unfoldable pub case_1 : Node ArmInsn
case_1 = switch 26 0x3 (
    at 0 (
      switch 5 0x1 (
        at 0 (test 0xf2000f0 0xd0 (go ldrd_post) (go unidentified))
        ▹ at 1 (test 0xf3000b0 0x1000b0 (go ldrd_post) (go unidentified))
        ▹ end))
    ▹ at 1 (
        switch 25 0x1 (
          at 0 (go ldrbt_post_imm)
          ▹ at 1 (test 0xf100010 0x6100000 (go ldrbt_post_reg) (go unidentified))
          ▹ end))
    ▹ at 2 (switch 25 0x1 (at 0 (go ldmda) ▹ at 1 (go bcc) ▹ end))
    ▹ at 3 (test 0xf100010 0xe100010 (go mrc) (go unidentified))
    ▹ end)

unfoldable pub case_2 : Node ArmInsn
case_2 = switch 25 0x7 (
    at 0 (test 0xf700ff0 0x2000b0 (go strhtr) (go unidentified))
    ▹ at 1 (go unidentified)
    ▹ at 2 (go strbt_post_imm)
    ▹ at 3 (test 0xf100010 0x6000000 (go strbt_post_reg) (go unidentified))
    ▹ at 4 (go stmda)
    ▹ at 5 (go bcc)
    ▹ at 6 (go stc2l_post)
    ▹ at 7 (test 0xf100010 0xe000010 (go mcr) (go unidentified))
    ▹ end)

unfoldable pub case_3 : Node ArmInsn
case_3 = switch 26 0x3 (
    at 0 (
      switch 5 0x1 (
        at 0 (test 0xf700ff0 0x3000d0 (go ldrhtr) (go unidentified))
        ▹ at 1 (test 0xf700fb0 0x3000b0 (go ldrhtr) (go unidentified))
        ▹ end))
    ▹ at 1 (
        switch 25 0x1 (
          at 0 (go ldrbt_post_imm)
          ▹ at 1 (test 0xf100010 0x6100000 (go ldrbt_post_reg) (go unidentified))
          ▹ end))
    ▹ at 2 (switch 25 0x1 (at 0 (go ldmda) ▹ at 1 (go bcc) ▹ end))
    ▹ at 3 (
        switch 25 0x1
          (at 0 (go ldc2l_post) ▹ at 1 (test 0xf100010 0xe100010 (go mrc) (go unidentified)) ▹ end))
    ▹ end)

unfoldable pub case_4 : Node ArmInsn
case_4 = switch 25 0x7 (
    at 0 (
      switch 5 0x1 (
        at 0 (test 0xf2000f0 0xd0 (go ldrd_post) (go unidentified))
        ▹ at 1 (test 0xf3000b0 0xb0 (go strd_post) (go unidentified))
        ▹ end))
    ▹ at 1 (test 0xf3f0000 0x20f0000 (go adr) (go unidentified))
    ▹ at 2 (go strbt_post_imm)
    ▹ at 3 (test 0xf100010 0x6000000 (go strbt_post_reg) (go unidentified))
    ▹ at 4 (go stmda)
    ▹ at 5 (go bcc)
    ▹ at 6 (test 0xff00fd0 0xc400b10 (go mcr) (go mcrr))
    ▹ at 7 (test 0xf100010 0xe000010 (go mcr) (go unidentified))
    ▹ end)

unfoldable pub case_5 : Node ArmInsn
case_5 = switch 25 0x7 (
    at 0 (
      switch 5 0x1 (
        at 0 (test 0xf2000f0 0xd0 (go ldrd_post) (go unidentified))
        ▹ at 1 (test 0xf3000b0 0x1000b0 (go ldrd_post) (go unidentified))
        ▹ end))
    ▹ at 1 (go unidentified)
    ▹ at 2 (go ldrbt_post_imm)
    ▹ at 3 (test 0xf100010 0x6100000 (go ldrbt_post_reg) (go unidentified))
    ▹ at 4 (go ldmda)
    ▹ at 5 (go bcc)
    ▹ at 6 (test 0xff00ed0 0xc500a10 (go mrc) (go mcrr))
    ▹ at 7 (test 0xf100010 0xe100010 (go mrc) (go unidentified))
    ▹ end)

unfoldable pub case_6 : Node ArmInsn
case_6 = switch 25 0x7 (
    at 0 (test 0xf7000f0 0x6000b0 (go strhti) (go unidentified))
    ▹ at 1 (go unidentified)
    ▹ at 2 (go strbt_post_imm)
    ▹ at 3 (test 0xf100010 0x6000000 (go strbt_post_reg) (go unidentified))
    ▹ at 4 (go stmda)
    ▹ at 5 (go bcc)
    ▹ at 6 (go stc2l_post)
    ▹ at 7 (test 0xf100010 0xe000010 (go mcr) (go unidentified))
    ▹ end)

unfoldable pub case_7 : Node ArmInsn
case_7 = switch 26 0x3 (
    at 0 (
      switch 5 0x1 (
        at 0 (test 0xf7000f0 0x7000d0 (go ldrhti) (go unidentified))
        ▹ at 1 (test 0xf7000b0 0x7000b0 (go ldrhti) (go unidentified))
        ▹ end))
    ▹ at 1 (
        switch 25 0x1 (
          at 0 (go ldrbt_post_imm)
          ▹ at 1 (test 0xf100010 0x6100000 (go ldrbt_post_reg) (go unidentified))
          ▹ end))
    ▹ at 2 (switch 25 0x1 (at 0 (go ldmda) ▹ at 1 (go bcc) ▹ end))
    ▹ at 3 (
        switch 25 0x1
          (at 0 (go ldc2l_post) ▹ at 1 (test 0xf100010 0xe100010 (go mrc) (go unidentified)) ▹ end))
    ▹ end)

unfoldable pub case_8 : Node ArmInsn
case_8 = switch 25 0x7 (
    at 0 (
      switch 4 0x3 (
        at 0 (test 0xfe00ff0 0x800000 (go addrr) (go addrsi))
        ▹ at 1 (
            switch 7 0x1 (
              at 0 (go addrsr) ▹ at 1 (test 0xf2000f0 0xd0 (go ldrd_post) (go unidentified)) ▹ end))
        ▹ at 2 (go addrsi)
        ▹ at 3 (switch 7 0x1 (at 0 (go addrsr) ▹ at 1 (go strd_post) ▹ end))
        ▹ end))
    ▹ at 1 (
        switch 16 0xf (
          on (0 ∷ 1 ∷ 2 ∷ 3 ∷ 4 ∷ 5 ∷ 6 ∷ 7 ∷ 8 ∷ 9 ∷ 10 ∷ 11 ∷ 12 ∷ 13 ∷ 14 ∷ []) (go addri)
          ▹ at 15 (go adr)
          ▹ end))
    ▹ at 2 (go strbt_post_imm)
    ▹ at 3 (test 0xf100010 0x6000000 (go strbt_post_reg) (go unidentified))
    ▹ at 4 (go stmda)
    ▹ at 5 (go bcc)
    ▹ at 6 (go stc2l_option)
    ▹ at 7 (test 0xf100010 0xe000010 (go mcr) (go unidentified))
    ▹ end)
