-- ===== src/Arm/Dis/Thumb2/Tree19.antt =====
-- generated/generic-dis-thumb2.inc.h: a part of its switches, each named for the labels that lead to it.
use substitute.Common.{[], ◌∷◌}
use substitute.Arm.Switch.{Node, go, switch, test, on, at, end, ◌▹◌}
use substitute.Arm.Dis.Thumb2.Insn.{Thumb2Insn}
use substitute.Arm.Dis.Thumb2.Insn.Thumb2Insn.{
  t2_b, t2_bcc, t2_ldc2l_pre, t2_ldmdb, t2_ldrb_post, t2_ldrb_pre, t2_ldrbi8, t2_ldrbpci, t2_ldrbs,
  t2_ldrbt, t2_ldrdi8, t2_stc2l_offset, t2_stc2l_pre, t2_strd_pre, t2_strdi8, t_bl, t_blxi,
  unidentified, vldrd,
}

unfoldable pub case_19_6 : Node Thumb2Insn
case_19_6 = switch 8 0x7 (
    at 0 (
      test 0xfed00fc0 0xf8100000 (go t2_ldrbs)
        (test 0xfe5f0000 0xf81f0000 (go t2_ldrbpci) (go unidentified)))
    ▹ on (1 ∷ 3 ∷ []) (
        switch 11 0x1 (
          at 0 (test 0xfe5f0000 0xf81f0000 (go t2_ldrbpci) (go unidentified))
          ▹ at 1 (test 0xfed00d00 0xf8100900 (go t2_ldrb_post) (go unidentified))
          ▹ end))
    ▹ at 2 (test 0xfe5f0000 0xf81f0000 (go t2_ldrbpci) (go unidentified))
    ▹ at 4 (
        switch 11 0x1 (
          at 0 (test 0xfe5f0000 0xf81f0000 (go t2_ldrbpci) (go unidentified))
          ▹ at 1 (test 0xfed00d00 0xf8100c00 (go t2_ldrbi8) (go unidentified))
          ▹ end))
    ▹ on (5 ∷ 7 ∷ []) (
        switch 11 0x1 (
          at 0 (test 0xfe5f0000 0xf81f0000 (go t2_ldrbpci) (go unidentified))
          ▹ at 1 (test 0xfed00d00 0xf8100d00 (go t2_ldrb_pre) (go unidentified))
          ▹ end))
    ▹ at 6 (
        switch 11 0x1 (
          at 0 (test 0xfe5f0000 0xf81f0000 (go t2_ldrbpci) (go unidentified))
          ▹ at 1 (test 0xfed00f00 0xf8100e00 (go t2_ldrbt) (go unidentified))
          ▹ end))
    ▹ end)

unfoldable pub case_19 : Node Thumb2Insn
unfolding case_19_6
case_19 = switch 26 0x7 (
    on (0 ∷ 1 ∷ []) (go unidentified)
    ▹ at 2 (test 0xffd00000 0xe9100000 (go t2_ldmdb) (go unidentified))
    ▹ on (3 ∷ 7 ∷ []) (test 0xef300000 0xed300000 (go t2_ldc2l_pre) (go unidentified))
    ▹ on (4 ∷ 5 ∷ []) (
        switch 12 0x7 (
          on (0 ∷ 2 ∷ []) (test 0xf800d000 0xf0008000 (go t2_bcc) (go unidentified))
          ▹ on (1 ∷ 3 ∷ []) (test 0xf800d000 0xf0009000 (go t2_b) (go unidentified))
          ▹ on (4 ∷ 6 ∷ []) (test 0xf800d001 0xf000c000 (go t_blxi) (go unidentified))
          ▹ on (5 ∷ 7 ∷ []) (test 0xf800d000 0xf000d000 (go t_bl) (go unidentified))
          ▹ end))
    ▹ at 6 case_19_6
    ▹ end)

unfoldable pub case_20 : Node Thumb2Insn
case_20 = switch 27 0x1 (
    at 0 (
      switch 12 0x7 (
        on (0 ∷ 2 ∷ []) (test 0xf800d000 0xf0008000 (go t2_bcc) (go unidentified))
        ▹ on (1 ∷ 3 ∷ []) (test 0xf800d000 0xf0009000 (go t2_b) (go unidentified))
        ▹ on (4 ∷ 6 ∷ []) (test 0xf800d001 0xf000c000 (go t_blxi) (go unidentified))
        ▹ on (5 ∷ 7 ∷ []) (test 0xf800d000 0xf000d000 (go t_bl) (go unidentified))
        ▹ end))
    ▹ at 1 (
        switch 26 0x1 (
          at 0 (test 0xff700000 0xe9400000 (go t2_strdi8) (go unidentified))
          ▹ at 1 (
              switch 29 0x7 (
                on (0 ∷ 1 ∷ 2 ∷ 3 ∷ 4 ∷ 5 ∷ 6 ∷ [])
                  (test 0xf200e00 0xd000a00 (go vldrd) (go unidentified))
                ▹ at 7 (test 0xef300000 0xed000000 (go t2_stc2l_offset) (go unidentified))
                ▹ end))
          ▹ end))
    ▹ end)

unfoldable pub case_21 : Node Thumb2Insn
case_21 = switch 27 0x1 (
    at 0 (
      switch 12 0x7 (
        on (0 ∷ 2 ∷ []) (test 0xf800d000 0xf0008000 (go t2_bcc) (go unidentified))
        ▹ on (1 ∷ 3 ∷ []) (test 0xf800d000 0xf0009000 (go t2_b) (go unidentified))
        ▹ on (4 ∷ 6 ∷ []) (test 0xf800d001 0xf000c000 (go t_blxi) (go unidentified))
        ▹ on (5 ∷ 7 ∷ []) (test 0xf800d000 0xf000d000 (go t_bl) (go unidentified))
        ▹ end))
    ▹ at 1 (
        switch 26 0x1 (
          at 0 (test 0xff700000 0xe9500000 (go t2_ldrdi8) (go unidentified))
          ▹ at 1 (
              switch 29 0x7 (
                on (0 ∷ 1 ∷ 2 ∷ 3 ∷ 4 ∷ 5 ∷ 6 ∷ [])
                  (test 0xf200e00 0xd000a00 (go vldrd) (go unidentified))
                ▹ at 7 (test 0xef300000 0xed100000 (go vldrd) (go unidentified))
                ▹ end))
          ▹ end))
    ▹ end)

unfoldable pub case_22 : Node Thumb2Insn
case_22 = switch 12 0x7 (
    on (0 ∷ 2 ∷ []) (
      switch 26 0x3 (
        on (0 ∷ 1 ∷ []) (test 0xf800d000 0xf0008000 (go t2_bcc) (go unidentified))
        ▹ at 2 (test 0xff700000 0xe9600000 (go t2_strd_pre) (go unidentified))
        ▹ at 3 (test 0xef300000 0xed200000 (go t2_stc2l_pre) (go unidentified))
        ▹ end))
    ▹ on (1 ∷ 3 ∷ []) (
        switch 26 0x3 (
          on (0 ∷ 1 ∷ []) (test 0xf800d000 0xf0009000 (go t2_b) (go unidentified))
          ▹ at 2 (test 0xff700000 0xe9600000 (go t2_strd_pre) (go unidentified))
          ▹ at 3 (test 0xef300000 0xed200000 (go t2_stc2l_pre) (go unidentified))
          ▹ end))
    ▹ on (4 ∷ 6 ∷ []) (
        switch 26 0x3 (
          on (0 ∷ 1 ∷ []) (test 0xf800d001 0xf000c000 (go t_blxi) (go unidentified))
          ▹ at 2 (test 0xff700000 0xe9600000 (go t2_strd_pre) (go unidentified))
          ▹ at 3 (test 0xef300000 0xed200000 (go t2_stc2l_pre) (go unidentified))
          ▹ end))
    ▹ on (5 ∷ 7 ∷ []) (
        switch 26 0x3 (
          on (0 ∷ 1 ∷ []) (test 0xf800d000 0xf000d000 (go t_bl) (go unidentified))
          ▹ at 2 (test 0xff700000 0xe9600000 (go t2_strd_pre) (go unidentified))
          ▹ at 3 (test 0xef300000 0xed200000 (go t2_stc2l_pre) (go unidentified))
          ▹ end))
    ▹ end)
