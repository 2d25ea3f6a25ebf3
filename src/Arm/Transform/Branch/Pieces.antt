-- ===== src/Arm/Transform/Branch/Pieces.antt =====
-- The pieces of the code that `transform_dis_branch` puts out: their sizes, and the words of the
-- conditional branch and of BLX.
use substitute.Common.{
  ℕ, ◌%◌, ◌/◌, ◌+◌, ◌-◌, ◌*◌, ◌^◌, ◌<◌, ◌≤◌, ◌≡◌, inl, inr, refl, ap, ◌∙◌, arith, List, ◌++◌, Bool,
  true, false, bit_or, none, some, bit_and, ◌or◌, u32, if◌then◌else◌, ◌==◌, length, length-append,
  Bool-cases, ==_iff,
}
use substitute.Common.Bits.{bit_or_digit, bit_or-zero, bit_or_field}
use substitute.Common.Bits.Xor.{bit_xor_digit, bit_xor-zero}
use substitute.Common.Bits.Mask.{mask_within}
use substitute.Dis.{op32, op16}
use substitute.Arm.Assemble.{AssembleCtx, movw_movt, blx_r, bcc_rel, divide_int}
use substitute.Arm.Context.{cc_armcc, cc_cbxz}
use substitute.Arm.Transform.State.{
  Ctx, code_at, put, invert_arm_cond, branch_top, on_ret, on_indirect_call,
}
use substitute.Arm.Transform.{put_jump, move_size}

length-movw_movt : (actx : AssembleCtx) (rd val : ℕ) → length (movw_movt actx rd val) ≡ 8
unfolding movw_movt op32
length-movw_movt actx rd val = refl

length-blx_r :
    (actx : AssembleCtx) (rm : ℕ) → length (blx_r actx rm) ≡ (if actx.thumb then 2 else 4)
unfolding blx_r op32 op16
length-blx_r actx rm = ground arith

length-bcc_rel :
    (actx : AssembleCtx) (offset : ℕ) → length (bcc_rel actx offset) ≡ (if actx.thumb then 2 else 4)
unfolding bcc_rel op32 op16
length-bcc_rel actx offset = ground arith

-- The two moves and the BLX that every rewritten branch ends in.
unfoldable pub jump : Bool → ℕ → AssembleCtx → List ℕ
jump thumb dpc actx =
    movw_movt (record actx { cond = 0xe }) 14 (u32 dpc or (if thumb then 1 else 0))
    ++ blx_r (record actx { cond = 0xe }) 14

length-jump :
    (thumb : Bool) (dpc : ℕ) (actx : AssembleCtx) → length (jump thumb dpc actx) ≡ move_size actx
unfolding jump
length-jump thumb dpc actx =
    let always = record actx { cond = 0xe } in
    let target = u32 dpc or (if thumb then 1 else 0) in
    length-append (movw_movt always 14 target) (blx_r always 14)
    ∙ omega (arith, length-movw_movt always 14 target, length-blx_r always 14)

-- The assertion holds where the skipped part has been counted.
pub put_jump_lem :
    (c : Ctx) (actx : AssembleCtx) (dpc size : ℕ)
    → actx.code_base ≤ code_at c
    → code_at c - actx.code_base + move_size actx ≡ size
    → put_jump c actx dpc size ≡ some (put c (jump c.arch.pc_low_bit dpc actx))
unfolding put_jump jump put
put_jump_lem c actx dpc size below counted =
    let code = jump c.arch.pc_low_bit dpc actx in
    let at_end : code_at (put c code) - actx.code_base ≡ size = omega (
      arith,
      length-append c.rewritten code,
      length-jump c.arch.pc_low_bit dpc actx,
      below,
      counted,
    ) in
    ap (λ t. if t then some (put c code) else none)
      ((==_iff (code_at (put c code) - actx.code_base) size).1 at_end)

-- The bit of Thumb in the address makes a word of a word.
pub or_low_word : (dpc bit : ℕ) → bit < 2 → (u32 dpc or bit) < 2 ^ 32
or_low_word dpc bit small =
    let word = u32 dpc in
    let half : bit / 2 ≡ 0 = omega arith in
    omega (arith, bit_or_digit word bit, ap (λ t. bit_or (word / 2) t) half, bit_or-zero (word / 2))

-- The pass of the disassembler notes an error at most.
pub branch_top-err :
    (ctx : Ctx) (dpc flags : ℕ)
    → branch_top ctx dpc flags ≡ record ctx { err = (branch_top ctx dpc flags).err }
unfolding branch_top on_ret on_indirect_call
branch_top-err ctx dpc flags = ground arith

-- The condition that holds where `cond` does not.
pub opposite : ℕ → ℕ
opposite cond = if cond % 2 == 0 then cond + 1 else cond - 1

pub invert_arm_cond-opposite : (cond : ℕ) → cond < 14 → invert_arm_cond cond ≡ some (opposite cond)
unfolding invert_arm_cond opposite
invert_arm_cond-opposite cond small = ground (arith, bit_xor_digit cond 1, bit_xor-zero (cond / 2))

pub invert_arm_cond-none : (cond : ℕ) → 14 ≤ cond → invert_arm_cond cond ≡ none
unfolding invert_arm_cond
invert_arm_cond-none cond large = ground arith

-- A conditional branch over 10 or 12 further bytes.
pub skip_over : Bool → ℕ → List ℕ
skip_over thumb cond =
    if thumb
    then op16 (0xd004 + opposite cond * 2 ^ 8)
    else op32 (0x0a000002 + opposite cond * 2 ^ 28)

pub bcc_rel-skip :
    (actx : AssembleCtx) (cond : ℕ)
    → cond < 14
    → bcc_rel
        (record actx { cond = opposite cond })
        (move_size actx + (if actx.thumb then 2 else 4))
      ≡ skip_over actx.thumb cond
unfolding bcc_rel skip_over opposite divide_int
bcc_rel-skip actx cond small =
    let c = opposite cond in
    let fits : c < 2 ^ 4 = ground arith in
    let narrow : bit_or (bit_or 0xd000 (c * 2 ^ 8)) 4 % 2 ^ 16 ≡ 0xd004 + c * 2 ^ 8 = omega (
      arith,
      ap (λ t. bit_or t 4) (bit_or_field 8 4 0xd000 c fits (omega arith)),
      bit_or_field 2 1 (0xd000 + c * 2 ^ 8) 1 (omega arith) (omega arith),
    ) in
    let wide : bit_or 0x0a000002 (c * 2 ^ 28 % 2 ^ 32) ≡ 0x0a000002 + c * 2 ^ 28 =
      ap (bit_or 0x0a000002) (omega arith) ∙ bit_or_field 28 4 0x0a000002 c fits (omega arith) in
    elim (Bool-cases actx.thumb) [ inl t ↦ rw t (ap op16 narrow) | inr t ↦ rw t (ap op32 wide) ]

pub length-skip_over :
    (thumb : Bool) (cond : ℕ) → length (skip_over thumb cond) ≡ (if thumb then 2 else 4)
unfolding skip_over op16 op32
length-skip_over true cond = refl
length-skip_over false cond = refl

-- The flags of CBZ and CBNZ have those of a condition.
pub not_cbxz :
    (flags : ℕ)
    → (bit_and flags cc_armcc == cc_armcc) ≡ false
    → (bit_and flags cc_cbxz == cc_cbxz) ≡ false
not_cbxz flags plain = elim (Bool-cases (bit_and flags cc_cbxz == cc_cbxz)) [
  | inl both ↦
      let same : bit_and flags cc_cbxz ≡ cc_cbxz =
        (==_iff (bit_and flags cc_cbxz) cc_cbxz).0 both in
      let within : bit_and flags cc_armcc ≡ cc_armcc =
        mask_within flags cc_cbxz cc_cbxz cc_armcc cc_armcc same refl in
      ground arith
  | inr other ↦ other
]

-- BLX through the link register.
pub blx_lr : Bool → List ℕ
blx_lr thumb = if thumb then op16 0x47f0 else op32 0xe12fff3e

pub blx_r-lr : (actx : AssembleCtx) → actx.cond ≡ 0xe → blx_r actx 14 ≡ blx_lr actx.thumb
unfolding blx_r blx_lr
blx_r-lr actx always = rw always refl
