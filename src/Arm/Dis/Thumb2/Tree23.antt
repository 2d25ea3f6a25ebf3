-- ===== src/Arm/Dis/Thumb2/Tree23.antt =====
-- generated/generic-dis-thumb2.inc.h: a part of its switches, each named for the labels that lead to it.
use substitute.Common.{[], ◌∷◌}
use substitute.Arm.Switch.{Node, go, switch, test, on, at, end, ◌▹◌}
use substitute.Arm.Dis.Thumb2.Insn.{Thumb2Insn}
use substitute.Arm.Dis.Thumb2.Insn.Thumb2Insn.{
  t2_b, t2_bcc, t2_ldc2l_pre, t2_ldrbi12, t2_ldrbpci, t2_ldrd_pre, t2_stc2l_offset, t2_stc2l_pre,
  t_bl, t_blxi, unidentified, vldrd,
}

unfoldable pub case_23 : Node Thumb2Insn
case_23 = switch 12 0x7 (
    on (0 ∷ 2 ∷ []) (
      switch 26 0x3 (
        on (0 ∷ 1 ∷ []) (test 0xf800d000 0xf0008000 (go t2_bcc) (go unidentified))
        ▹ at 2 (test 0xff700000 0xe9700000 (go t2_ldrd_pre) (go unidentified))
        ▹ at 3 (test 0xef300000 0xed300000 (go t2_ldc2l_pre) (go unidentified))
        ▹ end))
    ▹ on (1 ∷ 3 ∷ []) (
        switch 26 0x3 (
          on (0 ∷ 1 ∷ []) (test 0xf800d000 0xf0009000 (go t2_b) (go unidentified))
          ▹ at 2 (test 0xff700000 0xe9700000 (go t2_ldrd_pre) (go unidentified))
          ▹ at 3 (test 0xef300000 0xed300000 (go t2_ldc2l_pre) (go unidentified))
          ▹ end))
    ▹ on (4 ∷ 6 ∷ []) (
        switch 26 0x3 (
          on (0 ∷ 1 ∷ []) (test 0xf800d001 0xf000c000 (go t_blxi) (go unidentified))
          ▹ at 2 (test 0xff700000 0xe9700000 (go t2_ldrd_pre) (go unidentified))
          ▹ at 3 (test 0xef300000 0xed300000 (go t2_ldc2l_pre) (go unidentified))
          ▹ end))
    ▹ on (5 ∷ 7 ∷ []) (
        switch 26 0x3 (
          on (0 ∷ 1 ∷ []) (test 0xf800d000 0xf000d000 (go t_bl) (go unidentified))
          ▹ at 2 (test 0xff700000 0xe9700000 (go t2_ldrd_pre) (go unidentified))
          ▹ at 3 (test 0xef300000 0xed300000 (go t2_ldc2l_pre) (go unidentified))
          ▹ end))
    ▹ end)

unfoldable pub case_24 : Node Thumb2Insn
case_24 = switch 12 0x7 (
    on (0 ∷ 2 ∷ []) (
      switch 27 0x1f (
        on (0 ∷ 2 ∷ 4 ∷ 6 ∷ 8 ∷ 10 ∷ 12 ∷ 14 ∷ 16 ∷ 18 ∷ 20 ∷ 22 ∷ 24 ∷ 26 ∷ 28 ∷ [])
          (go unidentified)
        ▹ on (1 ∷ 3 ∷ 5 ∷ 7 ∷ 9 ∷ 11 ∷ 13 ∷ 15 ∷ 17 ∷ 19 ∷ 21 ∷ 23 ∷ 25 ∷ 27 ∷ [])
            (test 0xf200e00 0xd000a00 (go vldrd) (go unidentified))
        ▹ on (29 ∷ 31 ∷ []) (test 0xef300000 0xed000000 (go t2_stc2l_offset) (go unidentified))
        ▹ at 30 (test 0xf800d000 0xf0008000 (go t2_bcc) (go unidentified))
        ▹ end))
    ▹ on (1 ∷ 3 ∷ []) (
        switch 27 0x1f (
          on (0 ∷ 2 ∷ 4 ∷ 6 ∷ 8 ∷ 10 ∷ 12 ∷ 14 ∷ 16 ∷ 18 ∷ 20 ∷ 22 ∷ 24 ∷ 26 ∷ 28 ∷ [])
            (go unidentified)
          ▹ on (1 ∷ 3 ∷ 5 ∷ 7 ∷ 9 ∷ 11 ∷ 13 ∷ 15 ∷ 17 ∷ 19 ∷ 21 ∷ 23 ∷ 25 ∷ 27 ∷ [])
              (test 0xf200e00 0xd000a00 (go vldrd) (go unidentified))
          ▹ on (29 ∷ 31 ∷ []) (test 0xef300000 0xed000000 (go t2_stc2l_offset) (go unidentified))
          ▹ at 30 (test 0xf800d000 0xf0009000 (go t2_b) (go unidentified))
          ▹ end))
    ▹ on (4 ∷ 6 ∷ []) (
        switch 27 0x1f (
          on (0 ∷ 2 ∷ 4 ∷ 6 ∷ 8 ∷ 10 ∷ 12 ∷ 14 ∷ 16 ∷ 18 ∷ 20 ∷ 22 ∷ 24 ∷ 26 ∷ 28 ∷ [])
            (go unidentified)
          ▹ on (1 ∷ 3 ∷ 5 ∷ 7 ∷ 9 ∷ 11 ∷ 13 ∷ 15 ∷ 17 ∷ 19 ∷ 21 ∷ 23 ∷ 25 ∷ 27 ∷ [])
              (test 0xf200e00 0xd000a00 (go vldrd) (go unidentified))
          ▹ on (29 ∷ 31 ∷ []) (test 0xef300000 0xed000000 (go t2_stc2l_offset) (go unidentified))
          ▹ at 30 (test 0xf800d001 0xf000c000 (go t_blxi) (go unidentified))
          ▹ end))
    ▹ on (5 ∷ 7 ∷ []) (
        switch 27 0x1f (
          on (0 ∷ 2 ∷ 4 ∷ 6 ∷ 8 ∷ 10 ∷ 12 ∷ 14 ∷ 16 ∷ 18 ∷ 20 ∷ 22 ∷ 24 ∷ 26 ∷ 28 ∷ [])
            (go unidentified)
          ▹ on (1 ∷ 3 ∷ 5 ∷ 7 ∷ 9 ∷ 11 ∷ 13 ∷ 15 ∷ 17 ∷ 19 ∷ 21 ∷ 23 ∷ 25 ∷ 27 ∷ [])
              (test 0xf200e00 0xd000a00 (go vldrd) (go unidentified))
          ▹ on (29 ∷ 31 ∷ []) (test 0xef300000 0xed000000 (go t2_stc2l_offset) (go unidentified))
          ▹ at 30 (test 0xf800d000 0xf000d000 (go t_bl) (go unidentified))
          ▹ end))
    ▹ end)

unfoldable pub case_25 : Node Thumb2Insn
case_25 = switch 27 0x1 (
    at 0 (
      switch 12 0x7 (
        on (0 ∷ 2 ∷ []) (test 0xf800d000 0xf0008000 (go t2_bcc) (go unidentified))
        ▹ on (1 ∷ 3 ∷ []) (test 0xf800d000 0xf0009000 (go t2_b) (go unidentified))
        ▹ on (4 ∷ 6 ∷ []) (test 0xf800d001 0xf000c000 (go t_blxi) (go unidentified))
        ▹ on (5 ∷ 7 ∷ []) (test 0xf800d000 0xf000d000 (go t_bl) (go unidentified))
        ▹ end))
    ▹ at 1 (
        switch 26 0x1 (
          at 0 (
            switch 16 0xf (
              on (0 ∷ 1 ∷ 2 ∷ 3 ∷ 4 ∷ 5 ∷ 6 ∷ 7 ∷ 8 ∷ 9 ∷ 10 ∷ 11 ∷ 12 ∷ 13 ∷ 14 ∷ [])
                (test 0xfed00000 0xf8900000 (go t2_ldrbi12) (go unidentified))
              ▹ at 15 (test 0xfe5f0000 0xf81f0000 (go t2_ldrbpci) (go unidentified))
              ▹ end))
          ▹ at 1 (
              switch 29 0x7 (
                on (0 ∷ 1 ∷ 2 ∷ 3 ∷ 4 ∷ 5 ∷ 6 ∷ [])
                  (test 0xf200e00 0xd000a00 (go vldrd) (go unidentified))
                ▹ at 7 (test 0xef300000 0xed100000 (go vldrd) (go unidentified))
                ▹ end))
          ▹ end))
    ▹ end)

unfoldable pub case_26 : Node Thumb2Insn
case_26 = switch 12 0x7 (
    on (0 ∷ 2 ∷ []) (
      switch 27 0x1 (
        at 0 (test 0xf800d000 0xf0008000 (go t2_bcc) (go unidentified))
        ▹ at 1 (test 0xef300000 0xed200000 (go t2_stc2l_pre) (go unidentified))
        ▹ end))
    ▹ on (1 ∷ 3 ∷ []) (
        switch 27 0x1 (
          at 0 (test 0xf800d000 0xf0009000 (go t2_b) (go unidentified))
          ▹ at 1 (test 0xef300000 0xed200000 (go t2_stc2l_pre) (go unidentified))
          ▹ end))
    ▹ on (4 ∷ 6 ∷ []) (
        switch 27 0x1 (
          at 0 (test 0xf800d001 0xf000c000 (go t_blxi) (go unidentified))
          ▹ at 1 (test 0xef300000 0xed200000 (go t2_stc2l_pre) (go unidentified))
          ▹ end))
    ▹ on (5 ∷ 7 ∷ []) (
        switch 27 0x1 (
          at 0 (test 0xf800d000 0xf000d000 (go t_bl) (go unidentified))
          ▹ at 1 (test 0xef300000 0xed200000 (go t2_stc2l_pre) (go unidentified))
          ▹ end))
    ▹ end)
