-- ===== src/Arm/Dis/Thumb2/Tree6.antt =====
-- generated/generic-dis-thumb2.inc.h: a part of its switches, each named for the labels that lead to it.
use substitute.Common.{[], ◌∷◌}
use substitute.Arm.Switch.{Node, go, switch, test, on, at, end, ◌▹◌}
use substitute.Arm.Dis.Thumb2.Insn.{Thumb2Insn}
use substitute.Arm.Dis.Thumb2.Insn.Thumb2Insn.{
  t2_adr, t2_b, t2_bcc, t2_lda, t2_ldc2l_option, t2_ldc2l_post, t2_ldmdb, t2_ldrbi12, t2_ldrbpci,
  t2_stc2l_option, t2_stc2l_post, t2_stl, t2_stmdb, t2_strbi12, t_bl, t_blxi, unidentified, vmovdrr,
  vmovrrd,
}

unfoldable pub case_6 : Node Thumb2Insn
case_6 = switch 27 0x1 (
    at 0 (
      switch 12 0x7 (
        on (0 ∷ 2 ∷ []) (test 0xf800d000 0xf0008000 (go t2_bcc) (go unidentified))
        ▹ on (1 ∷ 3 ∷ []) (test 0xf800d000 0xf0009000 (go t2_b) (go unidentified))
        ▹ on (4 ∷ 6 ∷ []) (test 0xf800d001 0xf000c000 (go t_blxi) (go unidentified))
        ▹ on (5 ∷ 7 ∷ []) (test 0xf800d000 0xf000d000 (go t_bl) (go unidentified))
        ▹ end))
    ▹ at 1 (
        switch 25 0x3 (
          at 0 (test 0xff700000 0xe8600000 (go t2_stl) (go unidentified))
          ▹ at 1 (go unidentified)
          ▹ at 2 (test 0xef300000 0xec200000 (go t2_stc2l_post) (go unidentified))
          ▹ at 3 (test 0xef100010 0xee000010 (go vmovdrr) (go unidentified))
          ▹ end))
    ▹ end)

unfoldable pub case_7 : Node Thumb2Insn
case_7 = switch 27 0x1 (
    at 0 (
      switch 12 0x7 (
        on (0 ∷ 2 ∷ []) (test 0xf800d000 0xf0008000 (go t2_bcc) (go unidentified))
        ▹ on (1 ∷ 3 ∷ []) (test 0xf800d000 0xf0009000 (go t2_b) (go unidentified))
        ▹ on (4 ∷ 6 ∷ []) (test 0xf800d001 0xf000c000 (go t_blxi) (go unidentified))
        ▹ on (5 ∷ 7 ∷ []) (test 0xf800d000 0xf000d000 (go t_bl) (go unidentified))
        ▹ end))
    ▹ at 1 (
        switch 25 0x3 (
          at 0 (test 0xff700000 0xe8700000 (go t2_lda) (go unidentified))
          ▹ at 1 (go unidentified)
          ▹ at 2 (test 0xef300000 0xec300000 (go t2_ldc2l_post) (go unidentified))
          ▹ at 3 (test 0xef100010 0xee100010 (go vmovrrd) (go unidentified))
          ▹ end))
    ▹ end)

unfoldable pub case_8 : Node Thumb2Insn
case_8 = switch 27 0x1 (
    at 0 (
      switch 12 0xf (
        on (0 ∷ 1 ∷ 2 ∷ 3 ∷ 4 ∷ 5 ∷ 6 ∷ 7 ∷ [])
          (test 0xfb5f8000 0xf20f0000 (go t2_adr) (go unidentified))
        ▹ on (8 ∷ 10 ∷ []) (test 0xf800d000 0xf0008000 (go t2_bcc) (go unidentified))
        ▹ on (9 ∷ 11 ∷ []) (test 0xf800d000 0xf0009000 (go t2_b) (go unidentified))
        ▹ on (12 ∷ 14 ∷ []) (test 0xf800d001 0xf000c000 (go t_blxi) (go unidentified))
        ▹ on (13 ∷ 15 ∷ []) (test 0xf800d000 0xf000d000 (go t_bl) (go unidentified))
        ▹ end))
    ▹ at 1 (
        switch 25 0xf (
          on (0 ∷ 1 ∷ 2 ∷ 3 ∷ 5 ∷ 8 ∷ 9 ∷ 10 ∷ 11 ∷ 13 ∷ []) (go unidentified)
          ▹ at 4 (test 0xffd0a000 0xe8800000 (go t2_stmdb) (go unidentified))
          ▹ on (6 ∷ 14 ∷ []) (test 0xefb00000 0xec800000 (go t2_stc2l_option) (go unidentified))
          ▹ on (7 ∷ 15 ∷ []) (test 0xef100010 0xee000010 (go vmovdrr) (go unidentified))
          ▹ at 12 (test 0xffd00000 0xf8800000 (go t2_strbi12) (go unidentified))
          ▹ end))
    ▹ end)

unfoldable pub case_9 : Node Thumb2Insn
case_9 = switch 26 0x3 (
    on (0 ∷ 1 ∷ []) (
      switch 12 0x7 (
        on (0 ∷ 2 ∷ []) (test 0xf800d000 0xf0008000 (go t2_bcc) (go unidentified))
        ▹ on (1 ∷ 3 ∷ []) (test 0xf800d000 0xf0009000 (go t2_b) (go unidentified))
        ▹ on (4 ∷ 6 ∷ []) (test 0xf800d001 0xf000c000 (go t_blxi) (go unidentified))
        ▹ on (5 ∷ 7 ∷ []) (test 0xf800d000 0xf000d000 (go t_bl) (go unidentified))
        ▹ end))
    ▹ at 2 (
        switch 28 0x1 (
          at 0 (test 0xffd00000 0xe8900000 (go t2_ldmdb) (go unidentified))
          ▹ at 1 (
              switch 16 0xf (
                on (0 ∷ 1 ∷ 2 ∷ 3 ∷ 4 ∷ 5 ∷ 6 ∷ 7 ∷ 8 ∷ 9 ∷ 10 ∷ 11 ∷ 12 ∷ 13 ∷ 14 ∷ [])
                  (test 0xfed00000 0xf8900000 (go t2_ldrbi12) (go unidentified))
                ▹ at 15 (test 0xfe5f0000 0xf81f0000 (go t2_ldrbpci) (go unidentified))
                ▹ end))
          ▹ end))
    ▹ at 3 (
        switch 25 0x1 (
          at 0 (test 0xefb00000 0xec900000 (go t2_ldc2l_option) (go unidentified))
          ▹ at 1 (test 0xef100010 0xee100010 (go vmovrrd) (go unidentified))
          ▹ end))
    ▹ end)

unfoldable pub case_10 : Node Thumb2Insn
case_10 = switch 27 0x1 (
    at 0 (
      switch 12 0xf (
        on (0 ∷ 1 ∷ 2 ∷ 3 ∷ 4 ∷ 5 ∷ 6 ∷ 7 ∷ [])
          (test 0xfb5f8000 0xf20f0000 (go t2_adr) (go unidentified))
        ▹ on (8 ∷ 10 ∷ []) (test 0xf800d000 0xf0008000 (go t2_bcc) (go unidentified))
        ▹ on (9 ∷ 11 ∷ []) (test 0xf800d000 0xf0009000 (go t2_b) (go unidentified))
        ▹ on (12 ∷ 14 ∷ []) (test 0xf800d001 0xf000c000 (go t_blxi) (go unidentified))
        ▹ on (13 ∷ 15 ∷ []) (test 0xf800d000 0xf000d000 (go t_bl) (go unidentified))
        ▹ end))
    ▹ at 1 (
        switch 25 0xf (
          on (0 ∷ 1 ∷ 2 ∷ 3 ∷ 5 ∷ 8 ∷ 9 ∷ 10 ∷ 11 ∷ 13 ∷ []) (go unidentified)
          ▹ at 4 (test 0xffd0a000 0xe8800000 (go t2_stmdb) (go unidentified))
          ▹ on (6 ∷ 14 ∷ []) (test 0xef300000 0xec200000 (go t2_stc2l_post) (go unidentified))
          ▹ on (7 ∷ 15 ∷ []) (test 0xef100010 0xee000010 (go vmovdrr) (go unidentified))
          ▹ at 12 (test 0xffd00000 0xf8800000 (go t2_strbi12) (go unidentified))
          ▹ end))
    ▹ end)
