-- ===== src/Arm/Dis/Thumb2/Tree16.antt =====
-- generated/generic-dis-thumb2.inc.h: a part of its switches, each named for the labels that lead to it.
use substitute.Common.{[], ◌∷◌}
use substitute.Arm.Switch.{Node, go, switch, test, on, at, end, ◌▹◌}
use substitute.Arm.Dis.Thumb2.Insn.{Thumb2Insn}
use substitute.Arm.Dis.Thumb2.Insn.Thumb2Insn.{
  t2_addri, t2_addrr, t2_b, t2_bcc, t2_ldmdb, t2_ldrb_post, t2_ldrb_pre, t2_ldrbi8, t2_ldrbpci,
  t2_ldrbs, t2_ldrbt, t2_stc2l_offset, t2_stc2l_pre, t2_stmdb, t_bl, t_blxi, unidentified, vldrd,
}

unfoldable pub case_16 : Node Thumb2Insn
case_16 = switch 27 0x1 (
    at 0 (
      switch 12 0xf (
        on (0 ∷ 1 ∷ 2 ∷ 3 ∷ 4 ∷ 5 ∷ 6 ∷ 7 ∷ [])
          (test 0xfbe08000 0xf1000000 (go t2_addri) (go unidentified))
        ▹ on (8 ∷ 10 ∷ []) (test 0xf800d000 0xf0008000 (go t2_bcc) (go unidentified))
        ▹ on (9 ∷ 11 ∷ []) (test 0xf800d000 0xf0009000 (go t2_b) (go unidentified))
        ▹ on (12 ∷ 14 ∷ []) (test 0xf800d001 0xf000c000 (go t_blxi) (go unidentified))
        ▹ on (13 ∷ 15 ∷ []) (test 0xf800d000 0xf000d000 (go t_bl) (go unidentified))
        ▹ end))
    ▹ at 1 (
        switch 25 0x3 (
          at 0 (test 0xffd0a000 0xe9000000 (go t2_stmdb) (go unidentified))
          ▹ at 1 (
              test 0xffe070f0 0xeb000000 (go t2_addrr)
                (test 0xffe00000 0xeb000000 (go t2_addri) (go unidentified)))
          ▹ at 2 (
              switch 29 0x7 (
                on (0 ∷ 1 ∷ 2 ∷ 3 ∷ 4 ∷ 5 ∷ 6 ∷ [])
                  (test 0xf200e00 0xd000a00 (go vldrd) (go unidentified))
                ▹ at 7 (go t2_stc2l_offset)
                ▹ end))
          ▹ at 3 (go unidentified)
          ▹ end))
    ▹ end)

unfoldable pub case_17_6 : Node Thumb2Insn
case_17_6 = switch 8 0x7 (
    at 0 (
      test 0xfed00fc0 0xf8100000 (go t2_ldrbs)
        (test 0xfe5f0000 0xf81f0000 (go t2_ldrbpci) (go unidentified)))
    ▹ on (1 ∷ 3 ∷ []) (
        switch 11 0x1 (
          at 0 (test 0xfe5f0000 0xf81f0000 (go t2_ldrbpci) (go unidentified))
          ▹ at 1 (test 0xfed00d00 0xf8100900 (go t2_ldrb_post) (go unidentified))
          ▹ end))
    ▹ at 2 (test 0xfe5f0000 0xf81f0000 (go t2_ldrbpci) (go unidentified))
    ▹ at 4 (
        switch 11 0x1 (
          at 0 (test 0xfe5f0000 0xf81f0000 (go t2_ldrbpci) (go unidentified))
          ▹ at 1 (test 0xfed00d00 0xf8100c00 (go t2_ldrbi8) (go unidentified))
          ▹ end))
    ▹ on (5 ∷ 7 ∷ []) (
        switch 11 0x1 (
          at 0 (test 0xfe5f0000 0xf81f0000 (go t2_ldrbpci) (go unidentified))
          ▹ at 1 (test 0xfed00d00 0xf8100d00 (go t2_ldrb_pre) (go unidentified))
          ▹ end))
    ▹ at 6 (
        switch 11 0x1 (
          at 0 (test 0xfe5f0000 0xf81f0000 (go t2_ldrbpci) (go unidentified))
          ▹ at 1 (test 0xfed00f00 0xf8100e00 (go t2_ldrbt) (go unidentified))
          ▹ end))
    ▹ end)

unfoldable pub case_17 : Node Thumb2Insn
unfolding case_17_6
case_17 = switch 26 0x7 (
    on (0 ∷ 1 ∷ []) (go unidentified)
    ▹ at 2 (
        switch 25 0x1 (
          at 0 (test 0xffd00000 0xe9100000 (go t2_ldmdb) (go unidentified))
          ▹ at 1 (
              test 0xffe070f0 0xeb000000 (go t2_addrr)
                (test 0xffe00000 0xeb000000 (go t2_addri) (go unidentified)))
          ▹ end))
    ▹ on (3 ∷ 7 ∷ []) (
        switch 29 0x7 (
          on (0 ∷ 1 ∷ 2 ∷ 3 ∷ 4 ∷ 5 ∷ 6 ∷ [])
            (test 0xf200e00 0xd000a00 (go vldrd) (go unidentified))
          ▹ at 7 (test 0xef300000 0xed100000 (go vldrd) (go unidentified))
          ▹ end))
    ▹ on (4 ∷ 5 ∷ []) (
        switch 12 0xf (
          on (0 ∷ 1 ∷ 2 ∷ 3 ∷ 4 ∷ 5 ∷ 6 ∷ 7 ∷ [])
            (test 0xfbe08000 0xf1000000 (go t2_addri) (go unidentified))
          ▹ on (8 ∷ 10 ∷ []) (test 0xf800d000 0xf0008000 (go t2_bcc) (go unidentified))
          ▹ on (9 ∷ 11 ∷ []) (test 0xf800d000 0xf0009000 (go t2_b) (go unidentified))
          ▹ on (12 ∷ 14 ∷ []) (test 0xf800d001 0xf000c000 (go t_blxi) (go unidentified))
          ▹ on (13 ∷ 15 ∷ []) (test 0xf800d000 0xf000d000 (go t_bl) (go unidentified))
          ▹ end))
    ▹ at 6 case_17_6
    ▹ end)

unfoldable pub case_18 : Node Thumb2Insn
case_18 = switch 12 0xf (
    on (0 ∷ 1 ∷ 4 ∷ 5 ∷ []) (
      switch 26 0x1 (
        at 0 (test 0xffd0a000 0xe9000000 (go t2_stmdb) (go unidentified))
        ▹ at 1 (test 0xef300000 0xed200000 (go t2_stc2l_pre) (go unidentified))
        ▹ end))
    ▹ on (2 ∷ 3 ∷ 6 ∷ 7 ∷ []) (test 0xef300000 0xed200000 (go t2_stc2l_pre) (go unidentified))
    ▹ on (8 ∷ 10 ∷ []) (
        switch 27 0x1 (
          at 0 (test 0xf800d000 0xf0008000 (go t2_bcc) (go unidentified))
          ▹ at 1 (test 0xef300000 0xed200000 (go t2_stc2l_pre) (go unidentified))
          ▹ end))
    ▹ on (9 ∷ 11 ∷ []) (
        switch 27 0x1 (
          at 0 (test 0xf800d000 0xf0009000 (go t2_b) (go unidentified))
          ▹ at 1 (test 0xef300000 0xed200000 (go t2_stc2l_pre) (go unidentified))
          ▹ end))
    ▹ on (12 ∷ 14 ∷ []) (
        switch 27 0x1 (
          at 0 (test 0xf800d001 0xf000c000 (go t_blxi) (go unidentified))
          ▹ at 1 (test 0xef300000 0xed200000 (go t2_stc2l_pre) (go unidentified))
          ▹ end))
    ▹ on (13 ∷ 15 ∷ []) (
        switch 27 0x1 (
          at 0 (test 0xf800d000 0xf000d000 (go t_bl) (go unidentified))
          ▹ at 1 (test 0xef300000 0xed200000 (go t2_stc2l_pre) (go unidentified))
          ▹ end))
    ▹ end)
