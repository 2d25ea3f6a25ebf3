-- ===== src/Arm64/JumpPatch/Adrp.antt =====
-- ADRP and ADD, word by word: the page of the target, then its low twelve bits.
use mathlib.Core.Path.{◌∙◌}
use substitute.Common.{
  ℕ, ◌+◌, ◌-◌, ◌*◌, ◌/◌, ◌%◌, ◌^◌, ◌<◌, ◌≡◌, refl, arith, bit_and, u64, true, false, ◌≢◌, ==_ne,
  ◌or◌, ◌<<<◌, ◌&&◌, Bool,
}
use substitute.Common.Bits.{bit_or_field, bit_and_field}
use substitute.Dis.{op32}
use substitute.Arm64.Assemble.{page_diff, adrp_op, add_op, br}
use substitute.Arm64.JumpPatch.{in_range}
use substitute.Arm64.Machine.{Machine, write, next, jump, step, signed_offset}

pub page_diff-pages :
    (pc dpc : ℕ)
    → pc < 2 ^ 64
    → dpc < 2 ^ 64
    → page_diff pc dpc ≡ (dpc / 4096 * 4096 + 2 ^ 64 - pc / 4096 * 4096) % 2 ^ 64
unfolding page_diff
page_diff-pages pc dpc hp hd =
    let p : bit_and pc 0xfffffffffffff000 ≡ pc / 4096 * 4096 =
      bit_and_field 12 52 pc ∙ omega arith in
    let d : bit_and dpc 0xfffffffffffff000 ≡ dpc / 4096 * 4096 =
      bit_and_field 12 52 dpc ∙ omega arith in
    rw (p, d) refl

adrp_op_sum :
    (reg diff : ℕ)
    → reg < 31
    → adrp_op reg diff
      ≡ 0x90000000 + reg + diff / 2 ^ 12 % 4 * 2 ^ 29 + diff / 2 ^ 14 % 2 ^ 19 * 2 ^ 5
unfolding adrp_op
adrp_op_sum reg diff h =
    let lo : bit_and diff 0x3000 * 2 ^ 17 ≡ diff / 2 ^ 12 % 4 * 2 ^ 29 =
      omega (arith, bit_and_field 12 2 diff) in
    let hi : bit_and diff 0x1ffffc000 / 2 ^ 9 ≡ diff / 2 ^ 14 % 2 ^ 19 * 2 ^ 5 =
      omega (arith, bit_and_field 14 19 diff) in
    ground (
      arith,
      lo,
      hi,
      bit_or_field 0 5 0x90000000 reg (omega arith) (omega arith),
      bit_or_field 29 2 (0x90000000 + reg) (diff / 2 ^ 12 % 4) (omega arith) (omega arith),
      bit_or_field 5 19 (0x90000000 + reg + diff / 2 ^ 12 % 4 * 2 ^ 29) (diff / 2 ^ 14 % 2 ^ 19)
          (omega arith) (omega arith),
    )

pub adrp_op-lt : (reg diff : ℕ) → reg < 31 → adrp_op reg diff < 2 ^ 32
adrp_op-lt reg diff h = omega (arith, adrp_op_sum reg diff h)

-- A page difference within 4 GB is the signed immediate that ADRP adds.
adrp_offset :
    (diff : ℕ)
    → diff % 4096 ≡ 0
    → diff < 2 ^ 64
    → in_range diff ≡ true
    → signed_offset 21 4096 (diff / 2 ^ 14 % 2 ^ 19 * 4 + diff / 2 ^ 12 % 4) ≡ diff
unfolding in_range
adrp_offset diff a h r = ground arith

and_false : (b : Bool) → (b && false) ≡ false
and_false b = ground arith

module _ (reg : ℕ) (h : reg < 31) where
  adrp_op-step :
      (diff : ℕ) (m : Machine)
      → step (adrp_op reg diff) m
        ≡ next (record {
          x = write m.x reg (
              u64 (
                m.pc / 4096 * 4096
                + signed_offset 21 4096 (diff / 2 ^ 14 % 2 ^ 19 * 4 + diff / 2 ^ 12 % 4)));
          pc = m.pc + 4;
        })
  unfolding step
  adrp_op-step diff m =
      let w = adrp_op reg diff in
      let sum = adrp_op_sum reg diff h in
      let not_movz : w / 2 ^ 23 ≢ 0x1a5 = omega (arith, sum) in
      let not_movk : w / 2 ^ 23 ≢ 0x1e5 = omega (arith, sum) in
      let not_add : w / 2 ^ 22 ≢ 0x244 = omega (arith, sum) in
      let top : w / 2 ^ 31 ≡ 1 = omega (arith, sum) in
      let opcode : w / 2 ^ 24 % 32 ≡ 0x10 = omega (arith, sum) in
      let rd : w % 32 ≡ reg = omega (arith, sum) in
      let immhi : w / 32 % 2 ^ 19 ≡ diff / 2 ^ 14 % 2 ^ 19 = omega (arith, sum) in
      let immlo : w / 2 ^ 29 % 4 ≡ diff / 2 ^ 12 % 4 = omega (arith, sum) in
      let written : reg ≢ 31 = omega arith in
      rw
        (
          ==_ne _ _ not_movz,
          ==_ne _ _ not_movk,
          ==_ne _ _ not_add,
          top,
          opcode,
          rd,
          immhi,
          immlo,
          ==_ne _ _ written,
        )
        refl

  -- ADRP leaves the page of the target.
  pub step-adrp :
      (pc dpc : ℕ) (m : Machine)
      → pc < 2 ^ 64
      → dpc < 2 ^ 64
      → m.pc ≡ pc
      → in_range (page_diff pc dpc) ≡ true
      → step (adrp_op reg (page_diff pc dpc)) m
        ≡ next (record { x = write m.x reg (dpc / 4096 * 4096); pc = m.pc + 4 })
  step-adrp pc dpc m hp hd e r =
      let pages = page_diff-pages pc dpc hp hd in
      let offset = adrp_offset (page_diff pc dpc) (omega (arith, pages)) (omega (arith, pages)) r in
      let target : u64 (m.pc / 4096 * 4096 + page_diff pc dpc) ≡ dpc / 4096 * 4096 =
        omega (arith, pages) in
      rw (adrp_op-step (page_diff pc dpc) m, offset, target) refl

  add_op_sum : (lo : ℕ) → lo < 4096 → add_op reg lo ≡ 0x91000000 + reg + reg * 32 + lo * 1024
  unfolding add_op
  add_op_sum lo hl = ground (
    arith,
    bit_or_field 0 5 0x91000000 reg (omega arith) (omega arith),
    bit_or_field 5 5 (0x91000000 + reg) reg (omega arith) (omega arith),
    bit_or_field 10 12 (0x91000000 + reg + reg * 32) lo (omega arith) (omega arith),
  )

  pub add_op-lt : (lo : ℕ) → lo < 4096 → add_op reg lo < 2 ^ 32
  add_op-lt lo hl = omega (arith, add_op_sum lo hl)

  -- ADD puts the low bits on top.
  pub step-add :
      (lo : ℕ) (m : Machine)
      → lo < 4096
      → step (add_op reg lo) m
        ≡ next (record { x = write m.x reg (u64 (m.x reg + lo)); pc = m.pc + 4 })
  unfolding step
  step-add lo m hl =
      let w = add_op reg lo in
      let sum = add_op_sum lo hl in
      let not_movz : w / 2 ^ 23 ≢ 0x1a5 = omega (arith, sum) in
      let not_movk : w / 2 ^ 23 ≢ 0x1e5 = omega (arith, sum) in
      let add : w / 2 ^ 22 ≡ 0x244 = omega (arith, sum) in
      let rd : w % 32 ≡ reg = omega (arith, sum) in
      let rn : w / 32 % 32 ≡ reg = omega (arith, sum) in
      let imm : w / 2 ^ 10 % 2 ^ 12 ≡ lo = omega (arith, sum) in
      let written : reg ≢ 31 = omega arith in
      rw (==_ne _ _ not_movz, ==_ne _ _ not_movk, add, rd, rn, imm, ==_ne _ _ written) refl

  -- The word of `BR`, which jumps to what the register holds.
  pub br_op : ℕ
  br_op = 0xd61f0000 or reg <<< 5 or 0 <<< 21

  br_op_sum : br_op ≡ 0xd61f0000 + reg * 32
  unfolding br_op
  br_op_sum = ground (
    arith,
    bit_or_field 5 5 0xd61f0000 reg (omega arith) (omega arith),
    bit_or_field 21 1 (0xd61f0000 + reg * 32) 0 (omega arith) (omega arith),
  )

  pub br_op-lt : br_op < 2 ^ 32
  br_op-lt = omega (arith, br_op_sum)

  pub br-br_op : br reg false ≡ op32 br_op
  unfolding br br_op
  br-br_op = refl

  pub step-br : (m : Machine) → step br_op m ≡ jump (record { x = m.x; pc = m.x reg })
  unfolding step
  step-br m =
      let not_movz : br_op / 2 ^ 23 ≢ 0x1a5 = omega (arith, br_op_sum) in
      let not_movk : br_op / 2 ^ 23 ≢ 0x1e5 = omega (arith, br_op_sum) in
      let not_add : br_op / 2 ^ 22 ≢ 0x244 = omega (arith, br_op_sum) in
      let not_adrp : br_op / 2 ^ 24 % 32 ≢ 0x10 = omega (arith, br_op_sum) in
      let branch : br_op / 1024 ≡ 0x3587c0 = omega (arith, br_op_sum) in
      let rd : br_op % 32 ≡ 0 = omega (arith, br_op_sum) in
      let rn : br_op / 32 % 32 ≡ reg = omega (arith, br_op_sum) in
      let written : reg ≢ 31 = omega arith in
      rw
        (
          ==_ne _ _ not_movz,
          ==_ne _ _ not_movk,
          ==_ne _ _ not_add,
          ==_ne _ _ not_adrp,
          and_false,
          branch,
          rd,
          rn,
          ==_ne _ _ written,
        )
        refl
