-- ===== src/Arm/Dis/Thumb2/Tree27.antt =====
-- generated/generic-dis-thumb2.inc.h: a part of its switches, each named for the labels that lead to it.
use substitute.Common.{[], ◌∷◌}
use substitute.Arm.Switch.{Node, go, switch, test, on, at, end, ◌▹◌}
use substitute.Arm.Dis.Thumb2.Insn.{Thumb2Insn}
use substitute.Arm.Dis.Thumb2.Insn.Thumb2Insn.{
  t2_b, t2_bcc, t2_bxj, t2_ldc2l_pre, t2_ldrbi12, t2_ldrbpci, t2_stc2l_offset, t2_strdi8, t_bl,
  t_blxi, unidentified, vldrd,
}

unfoldable pub case_27 : Node Thumb2Insn
case_27 = switch 27 0x1 (
    at 0 (
      switch 12 0x7 (
        on (0 ∷ 2 ∷ []) (test 0xf800d000 0xf0008000 (go t2_bcc) (go unidentified))
        ▹ on (1 ∷ 3 ∷ []) (test 0xf800d000 0xf0009000 (go t2_b) (go unidentified))
        ▹ on (4 ∷ 6 ∷ []) (test 0xf800d001 0xf000c000 (go t_blxi) (go unidentified))
        ▹ on (5 ∷ 7 ∷ []) (test 0xf800d000 0xf000d000 (go t_bl) (go unidentified))
        ▹ end))
    ▹ at 1 (
        switch 26 0x1 (
          at 0 (
            switch 16 0xf (
              on (0 ∷ 1 ∷ 2 ∷ 3 ∷ 4 ∷ 5 ∷ 6 ∷ 7 ∷ 8 ∷ 9 ∷ 10 ∷ 11 ∷ 12 ∷ 13 ∷ 14 ∷ [])
                (test 0xfed00000 0xf8900000 (go t2_ldrbi12) (go unidentified))
              ▹ at 15 (test 0xfe5f0000 0xf81f0000 (go t2_ldrbpci) (go unidentified))
              ▹ end))
          ▹ at 1 (test 0xef300000 0xed300000 (go t2_ldc2l_pre) (go unidentified))
          ▹ end))
    ▹ end)

unfoldable pub case_28 : Node Thumb2Insn
case_28 = switch 10 0x1f (
    on (0 ∷ 1 ∷ 8 ∷ 9 ∷ 11 ∷ []) (
      switch 26 0x3 (
        on (0 ∷ 1 ∷ []) (test 0xf800d000 0xf0008000 (go t2_bcc) (go unidentified))
        ▹ at 2 (test 0xff700000 0xe9400000 (go t2_strdi8) (go unidentified))
        ▹ at 3 (test 0xef300000 0xed000000 (go t2_stc2l_offset) (go unidentified))
        ▹ end))
    ▹ on (2 ∷ 10 ∷ []) (
        switch 26 0x3 (
          on (0 ∷ 1 ∷ []) (test 0xf800d000 0xf0008000 (go t2_bcc) (go unidentified))
          ▹ at 2 (test 0xff700000 0xe9400000 (go t2_strdi8) (go unidentified))
          ▹ at 3 (
              switch 29 0x7 (
                on (0 ∷ 1 ∷ 2 ∷ 3 ∷ 4 ∷ 5 ∷ 6 ∷ [])
                  (test 0xf200e00 0xd000a00 (go vldrd) (go unidentified))
                ▹ at 7 (test 0xef300000 0xed000000 (go t2_stc2l_offset) (go unidentified))
                ▹ end))
          ▹ end))
    ▹ at 3 (
        switch 27 0x1 (
          at 0 (
            test 0xfff0ffff 0xf3c08f00 (go t2_bxj)
              (test 0xf800d000 0xf0008000 (go t2_bcc) (go unidentified)))
          ▹ at 1 (
              switch 26 0x1 (
                at 0 (test 0xff700000 0xe9400000 (go t2_strdi8) (go unidentified))
                ▹ at 1 (test 0xef300000 0xed000000 (go t2_stc2l_offset) (go unidentified))
                ▹ end))
          ▹ end))
    ▹ on (4 ∷ 5 ∷ 7 ∷ 12 ∷ 13 ∷ 15 ∷ []) (
        switch 26 0x3 (
          on (0 ∷ 1 ∷ []) (test 0xf800d000 0xf0009000 (go t2_b) (go unidentified))
          ▹ at 2 (test 0xff700000 0xe9400000 (go t2_strdi8) (go unidentified))
          ▹ at 3 (test 0xef300000 0xed000000 (go t2_stc2l_offset) (go unidentified))
          ▹ end))
    ▹ on (6 ∷ 14 ∷ []) (
        switch 26 0x3 (
          on (0 ∷ 1 ∷ []) (test 0xf800d000 0xf0009000 (go t2_b) (go unidentified))
          ▹ at 2 (test 0xff700000 0xe9400000 (go t2_strdi8) (go unidentified))
          ▹ at 3 (
              switch 29 0x7 (
                on (0 ∷ 1 ∷ 2 ∷ 3 ∷ 4 ∷ 5 ∷ 6 ∷ [])
                  (test 0xf200e00 0xd000a00 (go vldrd) (go unidentified))
                ▹ at 7 (test 0xef300000 0xed000000 (go t2_stc2l_offset) (go unidentified))
                ▹ end))
          ▹ end))
    ▹ on (16 ∷ 17 ∷ 19 ∷ 24 ∷ 25 ∷ 27 ∷ []) (
        switch 26 0x3 (
          on (0 ∷ 1 ∷ []) (test 0xf800d001 0xf000c000 (go t_blxi) (go unidentified))
          ▹ at 2 (test 0xff700000 0xe9400000 (go t2_strdi8) (go unidentified))
          ▹ at 3 (test 0xef300000 0xed000000 (go t2_stc2l_offset) (go unidentified))
          ▹ end))
    ▹ on (18 ∷ 26 ∷ []) (
        switch 26 0x3 (
          on (0 ∷ 1 ∷ []) (test 0xf800d001 0xf000c000 (go t_blxi) (go unidentified))
          ▹ at 2 (test 0xff700000 0xe9400000 (go t2_strdi8) (go unidentified))
          ▹ at 3 (
              switch 29 0x7 (
                on (0 ∷ 1 ∷ 2 ∷ 3 ∷ 4 ∷ 5 ∷ 6 ∷ [])
                  (test 0xf200e00 0xd000a00 (go vldrd) (go unidentified))
                ▹ at 7 (test 0xef300000 0xed000000 (go t2_stc2l_offset) (go unidentified))
                ▹ end))
          ▹ end))
    ▹ on (20 ∷ 21 ∷ 23 ∷ 28 ∷ 29 ∷ 31 ∷ []) (
        switch 26 0x3 (
          on (0 ∷ 1 ∷ []) (test 0xf800d000 0xf000d000 (go t_bl) (go unidentified))
          ▹ at 2 (test 0xff700000 0xe9400000 (go t2_strdi8) (go unidentified))
          ▹ at 3 (test 0xef300000 0xed000000 (go t2_stc2l_offset) (go unidentified))
          ▹ end))
    ▹ on (22 ∷ 30 ∷ []) (
        switch 26 0x3 (
          on (0 ∷ 1 ∷ []) (test 0xf800d000 0xf000d000 (go t_bl) (go unidentified))
          ▹ at 2 (test 0xff700000 0xe9400000 (go t2_strdi8) (go unidentified))
          ▹ at 3 (
              switch 29 0x7 (
                on (0 ∷ 1 ∷ 2 ∷ 3 ∷ 4 ∷ 5 ∷ 6 ∷ [])
                  (test 0xf200e00 0xd000a00 (go vldrd) (go unidentified))
                ▹ at 7 (test 0xef300000 0xed000000 (go t2_stc2l_offset) (go unidentified))
                ▹ end))
          ▹ end))
    ▹ end)
