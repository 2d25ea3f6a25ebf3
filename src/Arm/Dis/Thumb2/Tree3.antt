-- ===== src/Arm/Dis/Thumb2/Tree3.antt =====
-- generated/generic-dis-thumb2.inc.h: a part of its switches, each named for the labels that lead to it.
use substitute.Common.{[], ◌∷◌}
use substitute.Arm.Switch.{Node, go, switch, test, on, at, end, ◌▹◌}
use substitute.Arm.Dis.Thumb2.Insn.{Thumb2Insn}
use substitute.Arm.Dis.Thumb2.Insn.Thumb2Insn.{
  t2_b, t2_bcc, t2_ldc2l_post, t2_ldrb_post, t2_ldrb_pre, t2_ldrbi8, t2_ldrbpci, t2_ldrbs, t2_ldrbt,
  t2_ldrex, t2_movr, t2_movti16, t2_str_post, t2_str_pre, t2_strbt, t2_strex, t2_stri8, t2_strs,
  t_bl, t_blxi, unidentified, vmovdrr, vmovrrd,
}
use substitute.Arm.Dis.Thumb2.Tree0.{case_3_2}

unfoldable pub case_3 : Node Thumb2Insn
unfolding case_3_2
case_3 = switch 26 0x3 (
    on (0 ∷ 1 ∷ []) (
      switch 12 0x7 (
        on (0 ∷ 2 ∷ []) (test 0xf800d000 0xf0008000 (go t2_bcc) (go unidentified))
        ▹ on (1 ∷ 3 ∷ []) (test 0xf800d000 0xf0009000 (go t2_b) (go unidentified))
        ▹ on (4 ∷ 6 ∷ []) (test 0xf800d001 0xf000c000 (go t_blxi) (go unidentified))
        ▹ on (5 ∷ 7 ∷ []) (test 0xf800d000 0xf000d000 (go t_bl) (go unidentified))
        ▹ end))
    ▹ at 2 case_3_2
    ▹ at 3 (
        switch 25 0x1 (
          at 0 (test 0xef300000 0xec300000 (go t2_ldc2l_post) (go unidentified))
          ▹ at 1 (test 0xef100010 0xee100010 (go vmovrrd) (go unidentified))
          ▹ end))
    ▹ end)

unfoldable pub case_4 : Node Thumb2Insn
case_4 = switch 25 0xf (
    on (0 ∷ 1 ∷ 2 ∷ 3 ∷ 13 ∷ []) (go unidentified)
    ▹ at 4 (test 0xfff00000 0xe8400000 (go t2_strex) (go unidentified))
    ▹ at 5 (test 0xffef70f0 0xea4f0000 (go t2_movr) (go unidentified))
    ▹ on (6 ∷ 14 ∷ []) (
        test 0xff00fd0 0xc400b10 (go vmovdrr)
          (test 0xefe00000 0xec400000 (go vmovdrr) (go unidentified)))
    ▹ on (7 ∷ 15 ∷ []) (test 0xef100010 0xee000010 (go vmovdrr) (go unidentified))
    ▹ on (8 ∷ 10 ∷ []) (
        switch 12 0xf (
          on (0 ∷ 1 ∷ 2 ∷ 3 ∷ 4 ∷ 5 ∷ 6 ∷ 7 ∷ [])
            (test 0xfbef8000 0xf04f0000 (go t2_movti16) (go unidentified))
          ▹ on (8 ∷ 10 ∷ []) (test 0xf800d000 0xf0008000 (go t2_bcc) (go unidentified))
          ▹ on (9 ∷ 11 ∷ []) (test 0xf800d000 0xf0009000 (go t2_b) (go unidentified))
          ▹ on (12 ∷ 14 ∷ []) (test 0xf800d001 0xf000c000 (go t_blxi) (go unidentified))
          ▹ on (13 ∷ 15 ∷ []) (test 0xf800d000 0xf000d000 (go t_bl) (go unidentified))
          ▹ end))
    ▹ on (9 ∷ 11 ∷ []) (
        switch 12 0xf (
          on (0 ∷ 1 ∷ 2 ∷ 3 ∷ 4 ∷ 5 ∷ 6 ∷ 7 ∷ [])
            (test 0xfb708000 0xf2400000 (go t2_movti16) (go unidentified))
          ▹ on (8 ∷ 10 ∷ []) (test 0xf800d000 0xf0008000 (go t2_bcc) (go unidentified))
          ▹ on (9 ∷ 11 ∷ []) (test 0xf800d000 0xf0009000 (go t2_b) (go unidentified))
          ▹ on (12 ∷ 14 ∷ []) (test 0xf800d001 0xf000c000 (go t_blxi) (go unidentified))
          ▹ on (13 ∷ 15 ∷ []) (test 0xf800d000 0xf000d000 (go t_bl) (go unidentified))
          ▹ end))
    ▹ at 12 (
        switch 8 0x7 (
          at 0 (test 0xfff00fc0 0xf8400000 (go t2_strs) (go unidentified))
          ▹ on (1 ∷ 3 ∷ []) (test 0xfff00d00 0xf8400900 (go t2_str_post) (go unidentified))
          ▹ at 2 (go unidentified)
          ▹ at 4 (test 0xfff00d00 0xf8400c00 (go t2_stri8) (go unidentified))
          ▹ on (5 ∷ 7 ∷ []) (test 0xfff00d00 0xf8400d00 (go t2_str_pre) (go unidentified))
          ▹ at 6 (test 0xfff00f00 0xf8400e00 (go t2_strbt) (go unidentified))
          ▹ end))
    ▹ end)

unfoldable pub case_5_6 : Node Thumb2Insn
case_5_6 = switch 8 0x7 (
    at 0 (
      test 0xfff00fc0 0xf8500000 (go t2_ldrbs)
        (test 0xff7f0000 0xf85f0000 (go t2_ldrbpci) (go unidentified)))
    ▹ on (1 ∷ 3 ∷ []) (
        switch 11 0x1 (
          at 0 (test 0xff7f0000 0xf85f0000 (go t2_ldrbpci) (go unidentified))
          ▹ at 1 (test 0xfff00d00 0xf8500900 (go t2_ldrb_post) (go unidentified))
          ▹ end))
    ▹ at 2 (test 0xff7f0000 0xf85f0000 (go t2_ldrbpci) (go unidentified))
    ▹ at 4 (
        switch 11 0x1 (
          at 0 (test 0xff7f0000 0xf85f0000 (go t2_ldrbpci) (go unidentified))
          ▹ at 1 (test 0xfff00d00 0xf8500c00 (go t2_ldrbi8) (go unidentified))
          ▹ end))
    ▹ on (5 ∷ 7 ∷ []) (
        switch 11 0x1 (
          at 0 (test 0xff7f0000 0xf85f0000 (go t2_ldrbpci) (go unidentified))
          ▹ at 1 (test 0xfff00d00 0xf8500d00 (go t2_ldrb_pre) (go unidentified))
          ▹ end))
    ▹ at 6 (
        switch 11 0x1 (
          at 0 (test 0xff7f0000 0xf85f0000 (go t2_ldrbpci) (go unidentified))
          ▹ at 1 (test 0xfff00f00 0xf8500e00 (go t2_ldrbt) (go unidentified))
          ▹ end))
    ▹ end)

unfoldable pub case_5 : Node Thumb2Insn
unfolding case_5_6
case_5 = switch 26 0x7 (
    on (0 ∷ 1 ∷ []) (go unidentified)
    ▹ at 2 (
        switch 25 0x1 (
          at 0 (test 0xfff00f00 0xe8500f00 (go t2_ldrex) (go unidentified))
          ▹ at 1 (test 0xffef70f0 0xea4f0000 (go t2_movr) (go unidentified))
          ▹ end))
    ▹ on (3 ∷ 7 ∷ []) (
        switch 25 0x1 (
          at 0 (
            test 0xff00ed0 0xc500a10 (go vmovrrd)
              (test 0xefe00000 0xec400000 (go vmovdrr) (go unidentified)))
          ▹ at 1 (test 0xef100010 0xee100010 (go vmovrrd) (go unidentified))
          ▹ end))
    ▹ on (4 ∷ 5 ∷ []) (
        switch 12 0xf (
          on (0 ∷ 1 ∷ 2 ∷ 3 ∷ 4 ∷ 5 ∷ 6 ∷ 7 ∷ [])
            (test 0xfbef8000 0xf04f0000 (go t2_movti16) (go unidentified))
          ▹ on (8 ∷ 10 ∷ []) (test 0xf800d000 0xf0008000 (go t2_bcc) (go unidentified))
          ▹ on (9 ∷ 11 ∷ []) (test 0xf800d000 0xf0009000 (go t2_b) (go unidentified))
          ▹ on (12 ∷ 14 ∷ []) (test 0xf800d001 0xf000c000 (go t_blxi) (go unidentified))
          ▹ on (13 ∷ 15 ∷ []) (test 0xf800d000 0xf000d000 (go t_bl) (go unidentified))
          ▹ end))
    ▹ at 6 case_5_6
    ▹ end)
