-- ===== src/Arm/Dis/Thumb2/Tree.antt =====
-- generated/generic-dis-thumb2.inc.h: the switches from its top.
use substitute.Common.{[], ◌∷◌}
use substitute.Arm.Switch.{Node, switch, on, at, end, ◌▹◌}
use substitute.Arm.Dis.Thumb2.Insn.{Thumb2Insn}
use substitute.Arm.Dis.Thumb2.Tree6.{case_10, case_6, case_7, case_8, case_9}
use substitute.Arm.Dis.Thumb2.Tree16.{case_16, case_17, case_18}
use substitute.Arm.Dis.Thumb2.Tree3.{case_3, case_4, case_5}
use substitute.Arm.Dis.Thumb2.Tree11.{case_11, case_12, case_13, case_15}
use substitute.Arm.Dis.Thumb2.Tree19.{case_19, case_20, case_21, case_22}
use substitute.Arm.Dis.Thumb2.Tree0.{case_0, case_1, case_2}
use substitute.Arm.Dis.Thumb2.Tree23.{case_23, case_24, case_25, case_26}
use substitute.Arm.Dis.Thumb2.Tree27.{case_27, case_28}

unfoldable pub find_tree : Node Thumb2Insn
unfolding case_0 case_1 case_2 case_3 case_4 case_5 case_6 case_7 case_8 case_9 case_10 case_11
    case_12 case_13 case_15 case_16 case_17 case_18 case_19 case_20 case_21 case_22 case_23 case_24
    case_25 case_26 case_27 case_28
find_tree = switch 20 0x1f (
    at 0 case_0
    ▹ at 1 case_1
    ▹ at 2 case_2
    ▹ at 3 case_3
    ▹ at 4 case_4
    ▹ at 5 case_5
    ▹ on (6 ∷ 14 ∷ []) case_6
    ▹ at 7 case_7
    ▹ at 8 case_8
    ▹ at 9 case_9
    ▹ at 10 case_10
    ▹ at 11 case_11
    ▹ at 12 case_12
    ▹ at 13 case_13
    ▹ at 15 case_15
    ▹ at 16 case_16
    ▹ at 17 case_17
    ▹ at 18 case_18
    ▹ at 19 case_19
    ▹ at 20 case_20
    ▹ on (21 ∷ 29 ∷ []) case_21
    ▹ on (22 ∷ 30 ∷ []) case_22
    ▹ on (23 ∷ 31 ∷ []) case_23
    ▹ at 24 case_24
    ▹ at 25 case_25
    ▹ at 26 case_26
    ▹ at 27 case_27
    ▹ at 28 case_28
    ▹ end)
