-- ===== src/Arm/Dis/Thumb/Tree.antt =====
-- generated/generic-dis-thumb.inc.h: the switches from its top.
use substitute.Common.{[], ◌∷◌}
use substitute.Arm.Switch.{Node, go, switch, test, on, at, end, ◌▹◌}
use substitute.Arm.Dis.Thumb.Insn.{ThumbInsn}
use substitute.Arm.Dis.Thumb.Insn.ThumbInsn.{
  t2_it, t_addhirr, t_addrsp, t_addspr, t_adr, t_b, t_bcc, t_blxr, t_bx, t_cbnz, t_ldmia, t_ldrpci,
  t_movr, t_pop, t_push, t_stmia_upd, unidentified,
}

unfoldable pub case_2 : Node ThumbInsn
case_2 = switch 15 0x1 (
    at 0 (
      switch 3 0xf (
        on (0 ∷ 1 ∷ 2 ∷ 3 ∷ 4 ∷ 5 ∷ 6 ∷ 7 ∷ 8 ∷ 9 ∷ 10 ∷ 11 ∷ 12 ∷ 14 ∷ 15 ∷ []) (
          test 0xffffff87 0x4485 (go t_addspr)
            (test 0xffffff00 0x4400 (go t_addhirr) (go unidentified)))
        ▹ at 13 (test 0xffffff78 0x4468 (go t_addrsp) (go unidentified))
        ▹ end))
    ▹ at 1 (test 0xfffff800 0xc000 (go t_stmia_upd) (go unidentified))
    ▹ end)

unfoldable pub case_3 : Node ThumbInsn
case_3 = switch 7 0x3 (
    on (0 ∷ 1 ∷ []) (
      switch 15 0x1 (
        at 0 (test 0xffffff00 0x4600 (go t_movr) (go unidentified))
        ▹ at 1 (test 0xfffff800 0xc000 (go t_stmia_upd) (go unidentified))
        ▹ end))
    ▹ at 2 (
        switch 15 0x1 (
          at 0 (test 0xffffff87 0x4700 (go t_bx) (go unidentified))
          ▹ at 1 (test 0xfffff800 0xc000 (go t_stmia_upd) (go unidentified))
          ▹ end))
    ▹ at 3 (
        switch 15 0x1 (
          at 0 (test 0xffffff87 0x4780 (go t_blxr) (go unidentified))
          ▹ at 1 (test 0xfffff800 0xc000 (go t_stmia_upd) (go unidentified))
          ▹ end))
    ▹ end)

unfoldable pub case_4 : Node ThumbInsn
case_4 = switch 15 0x1 (
    at 0 (test 0xfffff800 0x4800 (go t_ldrpci) (go unidentified))
    ▹ at 1 (test 0xfffff800 0xc800 (go t_ldmia) (go unidentified))
    ▹ end)

unfoldable pub case_16 : Node ThumbInsn
case_16 = switch 14 0x1 (
    at 0 (test 0xfffff800 0xa000 (go t_adr) (go unidentified))
    ▹ at 1 (test 0xfffff800 0xe000 (go t_b) (go unidentified))
    ▹ end)

unfoldable pub find_tree : Node ThumbInsn
unfolding case_2 case_3 case_4 case_16
find_tree = switch 9 0x1f (
    on (0 ∷ 1 ∷ []) (test 0xfffff800 0xc000 (go t_stmia_upd) (go unidentified))
    ▹ at 2 case_2
    ▹ at 3 case_3
    ▹ on (4 ∷ 5 ∷ 6 ∷ 7 ∷ []) case_4
    ▹ on (8 ∷ 9 ∷ 10 ∷ 11 ∷ 12 ∷ 13 ∷ 14 ∷ 15 ∷ [])
        (test 0xfffff000 0xd000 (go t_bcc) (go unidentified))
    ▹ on (16 ∷ 17 ∷ 18 ∷ 19 ∷ []) case_16
    ▹ on (20 ∷ 21 ∷ 22 ∷ 23 ∷ 27 ∷ []) (go unidentified)
    ▹ on (24 ∷ 25 ∷ 28 ∷ 29 ∷ []) (test 0xfffff500 0xb100 (go t_cbnz) (go unidentified))
    ▹ at 26 (test 0xfffffe00 0xb400 (go t_push) (go unidentified))
    ▹ at 30 (test 0xfffffe00 0xbc00 (go t_pop) (go unidentified))
    ▹ at 31 (test 0xffffff00 0xbf00 (go t2_it) (go unidentified))
    ▹ end)
