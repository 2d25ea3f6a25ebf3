-- ===== src/Arm/Dis/Wide/Find.antt =====
-- The words that the tree of Thumb-2 gives to the handlers of BL and of B.W.
use substitute.Common.{
  ℕ, ◌*◌, ◌/◌, ◌%◌, ◌^◌, ◌≡◌, refl, ap, ◌∙◌, arith, Bool, true, false, some, bit_and, bit_or,
}
use substitute.Common.Bits.{bit_and_field}
use substitute.Common.Bits.Mask.{masks_join}
use substitute.Arm.Switch.{find}
use substitute.Arm.Switch.Check.{check, check-Finds}
use substitute.Arm.Dis.Thumb2.Insn.{Thumb2Insn}
use substitute.Arm.Dis.Thumb2.Tree.{find_tree}

-- A wide branch has 11110 at the top of its first halfword; bits 15, 14 and 12 of the second say
-- which one.
pub masked :
    (op kind : ℕ)
    → op / 2 ^ 27 % 2 ^ 5 ≡ 30
    → op / 2 ^ 14 % 4 ≡ kind
    → op / 2 ^ 12 % 2 ≡ 1
    → bit_and op 0xf800d000 ≡ bit_or (bit_or 0xf0000000 (kind * 2 ^ 14)) 0x1000
masked op kind h k l =
    let top : bit_and op 0xf8000000 ≡ 0xf0000000 = omega (arith, bit_and_field 27 5 op) in
    let mid : bit_and op 0xc000 ≡ kind * 2 ^ 14 = omega (arith, bit_and_field 14 2 op) in
    let low : bit_and op 0x1000 ≡ 0x1000 = omega (arith, bit_and_field 12 1 op) in
    masks_join op 0xf800c000 (bit_or 0xf0000000 (kind * 2 ^ 14)) 0x1000 0x1000
      (masks_join op 0xf8000000 0xf0000000 0xc000 (kind * 2 ^ 14) top mid) low

is_bl : Thumb2Insn → Bool
is_bl Thumb2Insn.t_bl = true
is_bl _ = false

is_b : Thumb2Insn → Bool
is_b Thumb2Insn.t2_b = true
is_b _ = false

bl_only : (i : Thumb2Insn) → is_bl i ≡ true → i ≡ Thumb2Insn.t_bl
unfolding is_bl
bl_only Thumb2Insn.t_bl h = refl
bl_only _ h = cc

b_only : (i : Thumb2Insn) → is_b i ≡ true → i ≡ Thumb2Insn.t2_b
unfolding is_b
b_only Thumb2Insn.t2_b h = refl
b_only _ h = cc

bl_check : check find_tree (λ i mask value. is_bl i) 0xf800d000 0xf000d000 ≡ true
unfolding check is_bl find_tree
bl_check = refl

b_check : check find_tree (λ i mask value. is_b i) 0xf800d000 0xf0009000 ≡ true
unfolding check is_b find_tree
b_check = refl

pub find-bl :
    (op : ℕ) → bit_and op 0xf800d000 ≡ 0xf000d000 → find find_tree op ≡ some Thumb2Insn.t_bl
find-bl op h =
    let f = check-Finds find_tree (λ i mask value. is_bl i) 0xf800d000 0xf000d000 op h bl_check in
    f.found ∙ ap some (bl_only f.insn f.checked)

pub find-b :
    (op : ℕ) → bit_and op 0xf800d000 ≡ 0xf0009000 → find find_tree op ≡ some Thumb2Insn.t2_b
find-b op h =
    let f = check-Finds find_tree (λ i mask value. is_b i) 0xf800d000 0xf0009000 op h b_check in
    f.found ∙ ap some (b_only f.insn f.checked)
