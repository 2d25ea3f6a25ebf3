-- ===== src/Arm/Dis/Thumb2/Tree0.antt =====
-- generated/generic-dis-thumb2.inc.h: a part of its switches, each named for the labels that lead to it.
use substitute.Common.{[], ◌∷◌}
use substitute.Arm.Switch.{Node, go, switch, test, on, at, end, ◌▹◌}
use substitute.Arm.Dis.Thumb2.Insn.{Thumb2Insn}
use substitute.Arm.Dis.Thumb2.Insn.Thumb2Insn.{
  t2_addri12, t2_adr, t2_b, t2_bcc, t2_ldrb_post, t2_ldrb_pre, t2_ldrbi8, t2_ldrbpci, t2_ldrbs,
  t2_ldrbt, t2_stc2l_post, t2_strb_post, t2_strb_pre, t2_strbi8, t2_strbs, t2_strbt, t_bl, t_blxi,
  unidentified, vmovdrr, vmovrrd,
}

unfoldable pub case_0 : Node Thumb2Insn
case_0 = switch 26 0x3 (
    on (0 ∷ 1 ∷ []) (
      switch 14 0x3 (
        on (0 ∷ 1 ∷ []) (
          test 0xfb5f8000 0xf20f0000 (go t2_adr)
            (test 0xfbf08000 0xf2000000 (go t2_addri12) (go unidentified)))
        ▹ at 2 (
            switch 12 0x1 (
              at 0 (test 0xf800d000 0xf0008000 (go t2_bcc) (go unidentified))
              ▹ at 1 (test 0xf800d000 0xf0009000 (go t2_b) (go unidentified))
              ▹ end))
        ▹ at 3 (
            switch 12 0x1 (
              at 0 (test 0xf800d001 0xf000c000 (go t_blxi) (go unidentified))
              ▹ at 1 (test 0xf800d000 0xf000d000 (go t_bl) (go unidentified))
              ▹ end))
        ▹ end))
    ▹ at 2 (
        switch 8 0x7 (
          at 0 (test 0xffd00fc0 0xf8000000 (go t2_strbs) (go unidentified))
          ▹ on (1 ∷ 3 ∷ []) (test 0xffd00d00 0xf8000900 (go t2_strb_post) (go unidentified))
          ▹ at 2 (go unidentified)
          ▹ at 4 (test 0xffd00d00 0xf8000c00 (go t2_strbi8) (go unidentified))
          ▹ on (5 ∷ 7 ∷ []) (test 0xffd00d00 0xf8000d00 (go t2_strb_pre) (go unidentified))
          ▹ at 6 (test 0xffd00f00 0xf8000e00 (go t2_strbt) (go unidentified))
          ▹ end))
    ▹ at 3 (
        test 0xff00f7f 0xe000a10 (go vmovdrr)
          (test 0xef100010 0xee000010 (go vmovdrr) (go unidentified)))
    ▹ end)

unfoldable pub case_1_2 : Node Thumb2Insn
case_1_2 = switch 8 0x7 (
    at 0 (
      test 0xfed00fc0 0xf8100000 (go t2_ldrbs)
        (test 0xfe5f0000 0xf81f0000 (go t2_ldrbpci) (go unidentified)))
    ▹ on (1 ∷ 3 ∷ []) (
        switch 11 0x1 (
          at 0 (test 0xfe5f0000 0xf81f0000 (go t2_ldrbpci) (go unidentified))
          ▹ at 1 (test 0xfed00d00 0xf8100900 (go t2_ldrb_post) (go unidentified))
          ▹ end))
    ▹ at 2 (test 0xfe5f0000 0xf81f0000 (go t2_ldrbpci) (go unidentified))
    ▹ at 4 (
        switch 11 0x1 (
          at 0 (test 0xfe5f0000 0xf81f0000 (go t2_ldrbpci) (go unidentified))
          ▹ at 1 (test 0xfed00d00 0xf8100c00 (go t2_ldrbi8) (go unidentified))
          ▹ end))
    ▹ on (5 ∷ 7 ∷ []) (
        switch 11 0x1 (
          at 0 (test 0xfe5f0000 0xf81f0000 (go t2_ldrbpci) (go unidentified))
          ▹ at 1 (test 0xfed00d00 0xf8100d00 (go t2_ldrb_pre) (go unidentified))
          ▹ end))
    ▹ at 6 (
        switch 11 0x1 (
          at 0 (test 0xfe5f0000 0xf81f0000 (go t2_ldrbpci) (go unidentified))
          ▹ at 1 (test 0xfed00f00 0xf8100e00 (go t2_ldrbt) (go unidentified))
          ▹ end))
    ▹ end)

unfoldable pub case_1 : Node Thumb2Insn
unfolding case_1_2
case_1 = switch 26 0x3 (
    on (0 ∷ 1 ∷ []) (
      switch 12 0x7 (
        on (0 ∷ 2 ∷ []) (test 0xf800d000 0xf0008000 (go t2_bcc) (go unidentified))
        ▹ on (1 ∷ 3 ∷ []) (test 0xf800d000 0xf0009000 (go t2_b) (go unidentified))
        ▹ on (4 ∷ 6 ∷ []) (test 0xf800d001 0xf000c000 (go t_blxi) (go unidentified))
        ▹ on (5 ∷ 7 ∷ []) (test 0xf800d000 0xf000d000 (go t_bl) (go unidentified))
        ▹ end))
    ▹ at 2 case_1_2
    ▹ at 3 (
        test 0xff00f7f 0xe100a10 (go vmovrrd)
          (test 0xef100010 0xee100010 (go vmovrrd) (go unidentified)))
    ▹ end)

unfoldable pub case_2 : Node Thumb2Insn
case_2 = switch 26 0x3 (
    on (0 ∷ 1 ∷ []) (
      switch 12 0xf (
        on (0 ∷ 1 ∷ 2 ∷ 3 ∷ 4 ∷ 5 ∷ 6 ∷ 7 ∷ [])
          (test 0xfb5f8000 0xf20f0000 (go t2_adr) (go unidentified))
        ▹ on (8 ∷ 10 ∷ []) (test 0xf800d000 0xf0008000 (go t2_bcc) (go unidentified))
        ▹ on (9 ∷ 11 ∷ []) (test 0xf800d000 0xf0009000 (go t2_b) (go unidentified))
        ▹ on (12 ∷ 14 ∷ []) (test 0xf800d001 0xf000c000 (go t_blxi) (go unidentified))
        ▹ on (13 ∷ 15 ∷ []) (test 0xf800d000 0xf000d000 (go t_bl) (go unidentified))
        ▹ end))
    ▹ at 2 (
        switch 8 0x7 (
          at 0 (test 0xffd00fc0 0xf8000000 (go t2_strbs) (go unidentified))
          ▹ on (1 ∷ 3 ∷ []) (test 0xffd00d00 0xf8000900 (go t2_strb_post) (go unidentified))
          ▹ at 2 (go unidentified)
          ▹ at 4 (test 0xffd00d00 0xf8000c00 (go t2_strbi8) (go unidentified))
          ▹ on (5 ∷ 7 ∷ []) (test 0xffd00d00 0xf8000d00 (go t2_strb_pre) (go unidentified))
          ▹ at 6 (test 0xffd00f00 0xf8000e00 (go t2_strbt) (go unidentified))
          ▹ end))
    ▹ at 3 (
        switch 25 0x1 (
          at 0 (test 0xef300000 0xec200000 (go t2_stc2l_post) (go unidentified))
          ▹ at 1 (test 0xef100010 0xee000010 (go vmovdrr) (go unidentified))
          ▹ end))
    ▹ end)

unfoldable pub case_3_2 : Node Thumb2Insn
case_3_2 = switch 8 0x7 (
    at 0 (
      test 0xfed00fc0 0xf8100000 (go t2_ldrbs)
        (test 0xfe5f0000 0xf81f0000 (go t2_ldrbpci) (go unidentified)))
    ▹ on (1 ∷ 3 ∷ []) (
        switch 11 0x1 (
          at 0 (test 0xfe5f0000 0xf81f0000 (go t2_ldrbpci) (go unidentified))
          ▹ at 1 (test 0xfed00d00 0xf8100900 (go t2_ldrb_post) (go unidentified))
          ▹ end))
    ▹ at 2 (test 0xfe5f0000 0xf81f0000 (go t2_ldrbpci) (go unidentified))
    ▹ at 4 (
        switch 11 0x1 (
          at 0 (test 0xfe5f0000 0xf81f0000 (go t2_ldrbpci) (go unidentified))
          ▹ at 1 (test 0xfed00d00 0xf8100c00 (go t2_ldrbi8) (go unidentified))
          ▹ end))
    ▹ on (5 ∷ 7 ∷ []) (
        switch 11 0x1 (
          at 0 (test 0xfe5f0000 0xf81f0000 (go t2_ldrbpci) (go unidentified))
          ▹ at 1 (test 0xfed00d00 0xf8100d00 (go t2_ldrb_pre) (go unidentified))
          ▹ end))
    ▹ at 6 (
        switch 11 0x1 (
          at 0 (test 0xfe5f0000 0xf81f0000 (go t2_ldrbpci) (go unidentified))
          ▹ at 1 (test 0xfed00f00 0xf8100e00 (go t2_ldrbt) (go unidentified))
          ▹ end))
    ▹ end)
