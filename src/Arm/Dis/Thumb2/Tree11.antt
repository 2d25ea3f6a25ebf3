-- ===== src/Arm/Dis/Thumb2/Tree11.antt =====
-- generated/generic-dis-thumb2.inc.h: a part of its switches, each named for the labels that lead to it.
use substitute.Common.{[], ◌∷◌}
use substitute.Arm.Switch.{Node, go, switch, test, on, at, end, ◌▹◌}
use substitute.Arm.Dis.Thumb2.Insn.{Thumb2Insn}
use substitute.Arm.Dis.Thumb2.Insn.Thumb2Insn.{
  t2_b, t2_bcc, t2_lda, t2_ldc2l_option, t2_ldc2l_post, t2_ldmdb, t2_ldrbi12, t2_ldrbpci,
  t2_movti16, t2_stc2l_option, t2_stl, t2_stlex, t2_stri12, t2_tbb, t_bl, t_blxi, unidentified,
  vmovdrr, vmovrrd,
}

unfoldable pub case_11 : Node Thumb2Insn
case_11 = switch 26 0x3 (
    on (0 ∷ 1 ∷ []) (
      switch 12 0x7 (
        on (0 ∷ 2 ∷ []) (test 0xf800d000 0xf0008000 (go t2_bcc) (go unidentified))
        ▹ on (1 ∷ 3 ∷ []) (test 0xf800d000 0xf0009000 (go t2_b) (go unidentified))
        ▹ on (4 ∷ 6 ∷ []) (test 0xf800d001 0xf000c000 (go t_blxi) (go unidentified))
        ▹ on (5 ∷ 7 ∷ []) (test 0xf800d000 0xf000d000 (go t_bl) (go unidentified))
        ▹ end))
    ▹ at 2 (
        switch 28 0x1 (
          at 0 (test 0xffd00000 0xe8900000 (go t2_ldmdb) (go unidentified))
          ▹ at 1 (
              switch 16 0xf (
                on (0 ∷ 1 ∷ 2 ∷ 3 ∷ 4 ∷ 5 ∷ 6 ∷ 7 ∷ 8 ∷ 9 ∷ 10 ∷ 11 ∷ 12 ∷ 13 ∷ 14 ∷ [])
                  (test 0xfed00000 0xf8900000 (go t2_ldrbi12) (go unidentified))
                ▹ at 15 (test 0xfe5f0000 0xf81f0000 (go t2_ldrbpci) (go unidentified))
                ▹ end))
          ▹ end))
    ▹ at 3 (
        switch 25 0x1 (
          at 0 (test 0xef300000 0xec300000 (go t2_ldc2l_post) (go unidentified))
          ▹ at 1 (test 0xef100010 0xee100010 (go vmovrrd) (go unidentified))
          ▹ end))
    ▹ end)

unfoldable pub case_12 : Node Thumb2Insn
case_12 = switch 26 0x7 (
    on (0 ∷ 1 ∷ []) (go unidentified)
    ▹ at 2 (
        switch 4 0xf (
          on (0 ∷ 1 ∷ 2 ∷ 3 ∷ 6 ∷ 11 ∷ []) (go unidentified)
          ▹ at 4 (test 0xfff00ff0 0xe8c00f40 (go t2_stlex) (go unidentified))
          ▹ on (5 ∷ 13 ∷ []) (test 0xfff00f70 0xe8c00f50 (go t2_stlex) (go unidentified))
          ▹ on (7 ∷ 15 ∷ []) (test 0xfff00070 0xe8c00070 (go t2_stlex) (go unidentified))
          ▹ on (8 ∷ 10 ∷ []) (test 0xfff00fdf 0xe8c00f8f (go t2_stl) (go unidentified))
          ▹ at 9 (test 0xfff00fff 0xe8c00f9f (go t2_stl) (go unidentified))
          ▹ on (12 ∷ 14 ∷ []) (test 0xfff00fd0 0xe8c00fc0 (go t2_stlex) (go unidentified))
          ▹ end))
    ▹ on (3 ∷ 7 ∷ []) (
        switch 25 0x1 (
          at 0 (test 0xefb00000 0xec800000 (go t2_stc2l_option) (go unidentified))
          ▹ at 1 (test 0xef100010 0xee000010 (go vmovdrr) (go unidentified))
          ▹ end))
    ▹ on (4 ∷ 5 ∷ []) (
        switch 12 0xf (
          on (0 ∷ 1 ∷ 2 ∷ 3 ∷ 4 ∷ 5 ∷ 6 ∷ 7 ∷ [])
            (test 0xfb708000 0xf2400000 (go t2_movti16) (go unidentified))
          ▹ on (8 ∷ 10 ∷ []) (test 0xf800d000 0xf0008000 (go t2_bcc) (go unidentified))
          ▹ on (9 ∷ 11 ∷ []) (test 0xf800d000 0xf0009000 (go t2_b) (go unidentified))
          ▹ on (12 ∷ 14 ∷ []) (test 0xf800d001 0xf000c000 (go t_blxi) (go unidentified))
          ▹ on (13 ∷ 15 ∷ []) (test 0xf800d000 0xf000d000 (go t_bl) (go unidentified))
          ▹ end))
    ▹ at 6 (test 0xfff00000 0xf8c00000 (go t2_stri12) (go unidentified))
    ▹ end)

unfoldable pub case_13 : Node Thumb2Insn
case_13 = switch 26 0x7 (
    on (0 ∷ 1 ∷ []) (go unidentified)
    ▹ at 2 (
        switch 4 0xf (
          on (0 ∷ 1 ∷ []) (test 0xfff0ffe0 0xe8d0f000 (go t2_tbb) (go unidentified))
          ▹ on (2 ∷ 3 ∷ 6 ∷ 11 ∷ []) (go unidentified)
          ▹ on (4 ∷ 5 ∷ []) (test 0xfff00fef 0xe8d00f4f (go t2_lda) (go unidentified))
          ▹ on (7 ∷ 15 ∷ []) (test 0xfff0007f 0xe8d0007f (go t2_lda) (go unidentified))
          ▹ on (8 ∷ 10 ∷ 12 ∷ 14 ∷ []) (test 0xfff00f9f 0xe8d00f8f (go t2_lda) (go unidentified))
          ▹ on (9 ∷ 13 ∷ []) (test 0xfff00fbf 0xe8d00f9f (go t2_lda) (go unidentified))
          ▹ end))
    ▹ on (3 ∷ 7 ∷ []) (
        switch 25 0x1 (
          at 0 (test 0xefb00000 0xec900000 (go t2_ldc2l_option) (go unidentified))
          ▹ at 1 (test 0xef100010 0xee100010 (go vmovrrd) (go unidentified))
          ▹ end))
    ▹ on (4 ∷ 5 ∷ []) (
        switch 12 0x7 (
          on (0 ∷ 2 ∷ []) (test 0xf800d000 0xf0008000 (go t2_bcc) (go unidentified))
          ▹ on (1 ∷ 3 ∷ []) (test 0xf800d000 0xf0009000 (go t2_b) (go unidentified))
          ▹ on (4 ∷ 6 ∷ []) (test 0xf800d001 0xf000c000 (go t_blxi) (go unidentified))
          ▹ on (5 ∷ 7 ∷ []) (test 0xf800d000 0xf000d000 (go t_bl) (go unidentified))
          ▹ end))
    ▹ at 6 (
        switch 16 0xf (
          on (0 ∷ 1 ∷ 2 ∷ 3 ∷ 4 ∷ 5 ∷ 6 ∷ 7 ∷ 8 ∷ 9 ∷ 10 ∷ 11 ∷ 12 ∷ 13 ∷ 14 ∷ [])
            (test 0xfff00000 0xf8d00000 (go t2_ldrbi12) (go unidentified))
          ▹ at 15 (test 0xff7f0000 0xf85f0000 (go t2_ldrbpci) (go unidentified))
          ▹ end))
    ▹ end)

unfoldable pub case_15 : Node Thumb2Insn
case_15 = switch 25 0x7 (
    on (0 ∷ 1 ∷ 2 ∷ 3 ∷ []) (
      switch 12 0x7 (
        on (0 ∷ 2 ∷ []) (test 0xf800d000 0xf0008000 (go t2_bcc) (go unidentified))
        ▹ on (1 ∷ 3 ∷ []) (test 0xf800d000 0xf0009000 (go t2_b) (go unidentified))
        ▹ on (4 ∷ 6 ∷ []) (test 0xf800d001 0xf000c000 (go t_blxi) (go unidentified))
        ▹ on (5 ∷ 7 ∷ []) (test 0xf800d000 0xf000d000 (go t_bl) (go unidentified))
        ▹ end))
    ▹ at 4 (test 0xff700000 0xe8700000 (go t2_lda) (go unidentified))
    ▹ at 5 (go unidentified)
    ▹ at 6 (test 0xef300000 0xec300000 (go t2_ldc2l_post) (go unidentified))
    ▹ at 7 (
        switch 17 0x3 (
          at 0 (
            test 0xff60fff 0xef00a10 (go vmovrrd)
              (test 0xef100010 0xee100010 (go vmovrrd) (go unidentified)))
          ▹ at 1 (
              test 0xfff0fff 0xefa0a10 (go vmovrrd)
                (test 0xef100010 0xee100010 (go vmovrrd) (go unidentified)))
          ▹ at 2 (
              test 0xfff0fff 0xef50a10 (go vmovrrd)
                (test 0xef100010 0xee100010 (go vmovrrd) (go unidentified)))
          ▹ at 3 (
              test 0xffe0fff 0xef60a10 (go vmovrrd)
                (test 0xef100010 0xee100010 (go vmovrrd) (go unidentified)))
          ▹ end))
    ▹ end)
