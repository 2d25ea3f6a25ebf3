-- ===== src/Arm/Dis/ArmMode/Tree.antt =====
-- generated/generic-dis-arm.inc.h: the switches from its top.
use substitute.Common.{[], ◌∷◌}
use substitute.Arm.Switch.{Node, switch, on, at, end, ◌▹◌}
use substitute.Arm.Dis.ArmMode.Insn.{ArmInsn}
use substitute.Arm.Dis.ArmMode.Tree9.{
  case_12, case_13, case_16, case_17, case_18, case_19, case_20, case_22, case_9,
}
use substitute.Arm.Dis.ArmMode.Tree0.{
  case_0, case_1, case_2, case_3, case_4, case_5, case_6, case_7, case_8,
}
use substitute.Arm.Dis.ArmMode.Tree30.{case_30, case_31}
use substitute.Arm.Dis.ArmMode.Tree24.{case_24, case_25, case_26, case_27, case_28}

unfoldable pub find_tree : Node ArmInsn
unfolding case_0 case_1 case_2 case_3 case_4 case_5 case_6 case_7 case_8 case_9 case_12 case_13
    case_16 case_17 case_18 case_19 case_20 case_22 case_24 case_25 case_26 case_27 case_28 case_30
    case_31
find_tree = switch 20 0x1f (
    at 0 case_0
    ▹ at 1 case_1
    ▹ on (2 ∷ 10 ∷ []) case_2
    ▹ on (3 ∷ 11 ∷ []) case_3
    ▹ at 4 case_4
    ▹ at 5 case_5
    ▹ on (6 ∷ 14 ∷ []) case_6
    ▹ on (7 ∷ 15 ∷ []) case_7
    ▹ at 8 case_8
    ▹ at 9 case_9
    ▹ at 12 case_12
    ▹ at 13 case_13
    ▹ at 16 case_16
    ▹ on (17 ∷ 21 ∷ []) case_17
    ▹ at 18 case_18
    ▹ on (19 ∷ 23 ∷ []) case_19
    ▹ at 20 case_20
    ▹ at 22 case_22
    ▹ at 24 case_24
    ▹ on (25 ∷ 29 ∷ []) case_25
    ▹ at 26 case_26
    ▹ at 27 case_27
    ▹ at 28 case_28
    ▹ at 30 case_30
    ▹ at 31 case_31
    ▹ end)
