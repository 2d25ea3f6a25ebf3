-- ===== src/Arm/Dis/ArmMode/Tree24.antt =====
-- generated/generic-dis-arm.inc.h: a part of its switches, each named for the labels that lead to it.
use substitute.Common.{[], ◌∷◌}
use substitute.Arm.Switch.{Node, go, switch, test, on, at, end, ◌▹◌}
use substitute.Arm.Dis.ArmMode.Insn.{ArmInsn}
use substitute.Arm.Dis.ArmMode.Insn.ArmInsn.{
  bl, lda, ldc2l_offset, ldc2l_pre, ldmda, ldrb_pre_imm, ldrb_pre_reg, ldrbi12, ldrbrs, ldrd,
  ldrd_pre, movr, movr_tc, movti16, stc2l_offset, stc2l_pre, stl, stlex, stlexd, stmda,
  strb_pre_imm, strb_pre_reg, strbi12, strbrs, strd, strd_pre, stri12, strrs, unidentified,
}

unfoldable pub case_24 : Node ArmInsn
case_24 = switch 26 0x3 (
    at 0 (
      switch 5 0x1f (
        on (0 ∷ 1 ∷ 2 ∷ 3 ∷ 8 ∷ 9 ∷ 10 ∷ 11 ∷ 12 ∷ 16 ∷ 17 ∷ 18 ∷ 19 ∷ 24 ∷ 25 ∷ 26 ∷ 27 ∷ [])
          (go unidentified)
        ▹ at 4 (test 0xfb0fff0 0x180fc90 (go stl) (go unidentified))
        ▹ on (5 ∷ 7 ∷ 13 ∷ 15 ∷ 21 ∷ 23 ∷ 29 ∷ 31 ∷ [])
            (test 0xf3000b0 0x10000b0 (go strd) (go unidentified))
        ▹ on (6 ∷ 14 ∷ 22 ∷ 30 ∷ []) (test 0xf2000f0 0x10000d0 (go ldrd) (go unidentified))
        ▹ on (20 ∷ 28 ∷ []) (test 0xfb00ef0 0x1800e90 (go stlex) (go unidentified))
        ▹ end))
    ▹ at 1 (
        switch 25 0x1
          (at 0 (go stri12) ▹ at 1 (test 0xf700010 0x7000000 (go strrs) (go unidentified)) ▹ end))
    ▹ at 2 (switch 25 0x1 (at 0 (go stmda) ▹ at 1 (go bl) ▹ end))
    ▹ at 3 (
        switch 9 0x7 (
          on (0 ∷ 1 ∷ 2 ∷ 3 ∷ 4 ∷ 6 ∷ 7 ∷ [])
            (test 0xf300000 0xd000000 (go stc2l_offset) (go unidentified))
          ▹ at 5 (test 0xf300e00 0xd000a00 (go ldc2l_offset) (go unidentified))
          ▹ end))
    ▹ end)

unfoldable pub case_25 : Node ArmInsn
case_25 = switch 26 0x3 (
    at 0 (
      switch 5 0xf (
        on (0 ∷ 1 ∷ 2 ∷ 3 ∷ 8 ∷ 9 ∷ 10 ∷ 11 ∷ []) (go unidentified)
        ▹ at 4 (test 0xfb00dff 0x1900c9f (go lda) (go unidentified))
        ▹ on (5 ∷ 7 ∷ 13 ∷ 15 ∷ []) (test 0xf3000b0 0x11000b0 (go ldrd) (go unidentified))
        ▹ on (6 ∷ 14 ∷ []) (test 0xf2000f0 0x10000d0 (go ldrd) (go unidentified))
        ▹ at 12 (test 0xfb00fff 0x1900f9f (go lda) (go unidentified))
        ▹ end))
    ▹ at 1 (
        switch 25 0x1
          (at 0 (go ldrbi12) ▹ at 1 (test 0xf300010 0x7100000 (go ldrbrs) (go unidentified)) ▹ end))
    ▹ at 2 (switch 25 0x1 (at 0 (go ldmda) ▹ at 1 (go bl) ▹ end))
    ▹ at 3 (test 0xf300000 0xd100000 (go ldc2l_offset) (go unidentified))
    ▹ end)

unfoldable pub case_26 : Node ArmInsn
case_26 = switch 25 0x7 (
    at 0 (
      switch 4 0x3 (
        at 0 (
          switch 16 0xf (
            at 0 (test 0xfef0ff0 0x1a00000 (go movr) (go movti16))
            ▹ on (1 ∷ 2 ∷ 3 ∷ 4 ∷ 5 ∷ 6 ∷ 7 ∷ 8 ∷ 9 ∷ 10 ∷ 11 ∷ 12 ∷ 13 ∷ 14 ∷ 15 ∷ [])
                (test 0xfe00ff0 0x1a00000 (go movr_tc) (go unidentified))
            ▹ end))
        ▹ at 1 (
            switch 6 0x3 (
              on (0 ∷ 1 ∷ []) (test 0xfef0090 0x1a00010 (go movti16) (go unidentified))
              ▹ at 2 (test 0xff00ef0 0x1a00e90 (go stlexd) (go unidentified))
              ▹ at 3 (go ldrd_pre)
              ▹ end))
        ▹ at 2 (test 0xfef0010 0x1a00000 (go movti16) (go unidentified))
        ▹ at 3 (
            switch 7 0x1 (
              at 0 (test 0xfef0090 0x1a00010 (go movti16) (go unidentified))
              ▹ at 1 (go strd_pre)
              ▹ end))
        ▹ end))
    ▹ at 1 (test 0xfef0000 0x3a00000 (go movti16) (go unidentified))
    ▹ at 2 (go strb_pre_imm)
    ▹ at 3 (test 0xf300010 0x7200000 (go strb_pre_reg) (go unidentified))
    ▹ at 4 (go stmda)
    ▹ at 5 (go bl)
    ▹ at 6 (go stc2l_pre)
    ▹ at 7 (go unidentified)
    ▹ end)

unfoldable pub case_27 : Node ArmInsn
case_27 = switch 25 0x7 (
    at 0 (
      switch 4 0x3 (
        at 0 (
          switch 16 0xf (
            at 0 (test 0xfef0ff0 0x1a00000 (go movr) (go movti16))
            ▹ on (1 ∷ 2 ∷ 3 ∷ 4 ∷ 5 ∷ 6 ∷ 7 ∷ 8 ∷ 9 ∷ 10 ∷ 11 ∷ 12 ∷ 13 ∷ 14 ∷ 15 ∷ [])
                (test 0xfe00ff0 0x1a00000 (go movr_tc) (go unidentified))
            ▹ end))
        ▹ at 1 (
            switch 6 0x3 (
              on (0 ∷ 1 ∷ []) (test 0xfef0090 0x1a00010 (go movti16) (go unidentified))
              ▹ at 2 (test 0xfb00eff 0x1b00e9f (go lda) (go unidentified))
              ▹ at 3 (go ldrd_pre)
              ▹ end))
        ▹ at 2 (test 0xfef0010 0x1a00000 (go movti16) (go unidentified))
        ▹ at 3 (
            switch 7 0x1 (
              at 0 (test 0xfef0090 0x1a00010 (go movti16) (go unidentified))
              ▹ at 1 (go ldrd_pre)
              ▹ end))
        ▹ end))
    ▹ at 1 (test 0xfef0000 0x3a00000 (go movti16) (go unidentified))
    ▹ at 2 (go ldrb_pre_imm)
    ▹ at 3 (test 0xf300010 0x7300000 (go ldrb_pre_reg) (go unidentified))
    ▹ at 4 (go ldmda)
    ▹ at 5 (go bl)
    ▹ at 6 (go ldc2l_pre)
    ▹ at 7 (go unidentified)
    ▹ end)

unfoldable pub case_28 : Node ArmInsn
case_28 = switch 26 0x3 (
    at 0 (
      switch 5 0x1f (
        on (0 ∷ 1 ∷ 2 ∷ 3 ∷ 8 ∷ 9 ∷ 10 ∷ 11 ∷ 12 ∷ 16 ∷ 17 ∷ 18 ∷ 19 ∷ 24 ∷ 25 ∷ 26 ∷ 27 ∷ [])
          (go unidentified)
        ▹ at 4 (test 0xfb0fff0 0x180fc90 (go stl) (go unidentified))
        ▹ on (5 ∷ 7 ∷ 13 ∷ 15 ∷ 21 ∷ 23 ∷ 29 ∷ 31 ∷ [])
            (test 0xf3000b0 0x10000b0 (go strd) (go unidentified))
        ▹ on (6 ∷ 14 ∷ 22 ∷ 30 ∷ []) (test 0xf2000f0 0x10000d0 (go ldrd) (go unidentified))
        ▹ on (20 ∷ 28 ∷ []) (test 0xfb00ef0 0x1800e90 (go stlex) (go unidentified))
        ▹ end))
    ▹ at 1 (
        switch 25 0x1
          (at 0 (go strbi12) ▹ at 1 (test 0xf700010 0x7400000 (go strbrs) (go unidentified)) ▹ end))
    ▹ at 2 (switch 25 0x1 (at 0 (go stmda) ▹ at 1 (go bl) ▹ end))
    ▹ at 3 (
        switch 9 0x7 (
          on (0 ∷ 1 ∷ 2 ∷ 3 ∷ 4 ∷ 6 ∷ 7 ∷ [])
            (test 0xf300000 0xd000000 (go stc2l_offset) (go unidentified))
          ▹ at 5 (test 0xf300e00 0xd000a00 (go ldc2l_offset) (go unidentified))
          ▹ end))
    ▹ end)
