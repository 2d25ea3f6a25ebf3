-- ===== src/Arm/Dis/Ends.antt =====
-- The trees of ARM and Thumb come to a handler for every word, and which words some handlers get.
use substitute.Common.{ℕ, ◌≡◌, refl, ap, ◌∙◌, some, Bool, true, false, bit_and}
use substitute.Common.Bits.{bit_and-zero}
use substitute.Arm.Switch.{find}
use substitute.Arm.Switch.Check.{check, Finds, check-Finds, apart, forced}
use substitute.Arm.Dis.ArmMode.Insn.{ArmInsn}
use substitute.Arm.Dis.Thumb.Insn.{ThumbInsn}
use substitute.Arm.Dis.Thumb2.Insn.{Thumb2Insn}
use substitute.Arm.Dis.ArmMode.Tree as ArmTree
use substitute.Arm.Dis.Thumb.Tree as ThumbTree
use substitute.Arm.Dis.Thumb2.Tree as Thumb2Tree

-- B and BL have their bits 27 to 24, and no other handler has bits 27 to 25 of a branch.
unfoldable pub arm_ok : ArmInsn → ℕ → ℕ → Bool
arm_ok ArmInsn.bcc mask value = forced mask value 0x0f000000 0x0a000000
arm_ok ArmInsn.bl mask value = forced mask value 0x0f000000 0x0b000000
arm_ok _ mask value = apart mask value 0x0e000000 0x0a000000

arm_check : check ArmTree.find_tree arm_ok 0 0 ≡ true
unfolding check arm_ok ArmTree.find_tree
arm_check = refl

unfoldable pub thumb_ok : ThumbInsn → ℕ → ℕ → Bool
thumb_ok ThumbInsn.t2_it mask value = forced mask value 0xffffff00 0xbf00
thumb_ok _ mask value = true

thumb_check : check ThumbTree.find_tree thumb_ok 0 0 ≡ true
unfolding check thumb_ok ThumbTree.find_tree
thumb_check = refl

unfoldable pub thumb2_ok : Thumb2Insn → ℕ → ℕ → Bool
thumb2_ok Thumb2Insn.t2_ldrbpci mask value = apart mask value 0x600000 0x600000
thumb2_ok _ mask value = true

thumb2_check : check Thumb2Tree.find_tree thumb2_ok 0 0 ≡ true
unfolding check thumb2_ok Thumb2Tree.find_tree
thumb2_check = refl

-- A word of IT has no other handler than that of IT.
is_it : ThumbInsn → Bool
is_it ThumbInsn.t2_it = true
is_it _ = false

it_check : check ThumbTree.find_tree (λ i mask value. is_it i) 0xffffff00 0xbf00 ≡ true
unfolding check is_it ThumbTree.find_tree
it_check = refl

it_only : (i : ThumbInsn) → is_it i ≡ true → i ≡ ThumbInsn.t2_it
unfolding is_it
it_only ThumbInsn.t2_it h = refl
it_only _ h = cc

pub find-it :
    (op : ℕ) → bit_and op 0xffffff00 ≡ 0xbf00 → find ThumbTree.find_tree op ≡ some ThumbInsn.t2_it
find-it op h =
    let f =
      check-Finds ThumbTree.find_tree (λ i mask value. is_it i) 0xffffff00 0xbf00 op h it_check in
    f.found ∙ ap some (it_only f.insn f.checked)

-- What the three trees find for any word.
pub arm-Finds : (op : ℕ) → Finds (find ArmTree.find_tree op) arm_ok op
arm-Finds op = check-Finds ArmTree.find_tree arm_ok 0 0 op (bit_and-zero op) arm_check

pub thumb-Finds : (op : ℕ) → Finds (find ThumbTree.find_tree op) thumb_ok op
thumb-Finds op = check-Finds ThumbTree.find_tree thumb_ok 0 0 op (bit_and-zero op) thumb_check

pub thumb2-Finds : (op : ℕ) → Finds (find Thumb2Tree.find_tree op) thumb2_ok op
thumb2-Finds op = check-Finds Thumb2Tree.find_tree thumb2_ok 0 0 op (bit_and-zero op) thumb2_check
