-- ===== src/Arm/Dis/Wide.antt =====
-- The wide branches of Thumb code: BL, B.W and B<c>.W, against the architecture manual.
pub mod Offset
pub mod Find
use substitute.Common.{
  ℕ, zero, suc, ◌+◌, ◌-◌, ◌*◌, ◌/◌, ◌%◌, ◌^◌, ◌≤◌, ◌<◌, ◌≡◌, ◌≢◌, ◌↔◌, refl, ap, ◌∙◌, sym, arith,
  Bool, true, false, [], ◌∷◌, Option, none, some, bit_and, bit_or, bit_xor, if◌then◌else◌, ◌==◌,
  ltb, u32, ◌<<<◌, ◌>>>◌, Bool-cases, inl, inr, ==_iff,
}
use substitute.Common.Bits.{bit_and_field, bit_and_mask, bit_or_field, bit_and-zero}
use substitute.Common.Bits.Mask.{masks_join}
use substitute.Common.Bits.Xor.{bit_xor_split}
use substitute.Arm64.Decode.Targets.{sext-signed, zero-bit_or}
use substitute.Dis.{cc_call, sext, bs_get, run, Bitslice}
use substitute.Arm.Context.{DisCtx, Outcome, done, unaligned_r16, unaligned_r32}
use substitute.Arm.Switch.{find}
use substitute.Arm.Switch.Check.{check, Finds, check-Finds}
use substitute.Arm.Dis.Thumb2.Insn.{Thumb2Insn}
use substitute.Arm.Dis.Thumb2.Tree.{find_tree}
use substitute.Arm.Dis.Thumb2.Handlers.{bl_offset, flip16}
use substitute.Arm.Dis.Thumb.Handlers.{it_cc}
use substitute.Arm.Dis.Thumb2.{handle, call_insn, flipped, dis_thumb2, thumb2_do_it}
use substitute.Arm.Dis.{dis, is_32}
use substitute.Arm.Dis.Modes.{IsBytes, r16_fits, r32_fits, flip16_lem, dis-thumb2_mode}
use substitute.Arm.Dis.Branches.{branch_of, signed32}
use substitute.Arm.Dis.Wide.Offset.{
  wide, wide_lem, raw_24, imm_24, imm_24_fits, bl_offset-imm, raw-imm, raw_ne, target_24, target_25,
}
use substitute.Arm.Dis.Wide.Find.{masked, find-bl, find-b}

-- The second halfword, and the two of them in the word that the tree reads.
abbrev pub second : (ℕ → ℕ) → ℕ
second code = unaligned_r16 (λ i. code (i + 2))

abbrev in_order : (ℕ → ℕ) → ℕ
in_order code = unaligned_r16 code * 2 ^ 16 + second code

flip16-in_order : (code : ℕ → ℕ) → IsBytes code → flip16 (unaligned_r32 code) ≡ in_order code
unfolding unaligned_r16 unaligned_r32
flip16-in_order code h =
    let fits = r32_fits code h in
    flip16_lem (unaligned_r32 code) fits ∙ omega (arith, h 0, h 1, h 2, h 3)

target_of : Option (ℕ × ℕ) → ℕ
target_of none = 0
target_of (some (t, c)) = t

sign_set : (hw1 : ℕ) → (hw1 / 2 ^ 10 % 2 ≢ 0) → hw1 / 2 ^ 10 % 2 ≡ 1
sign_set hw1 h = omega (arith, h)

wide_is_32 : (hw1 : ℕ) → hw1 / 2 ^ 11 ≡ 30 → is_32 hw1 ≡ true
unfolding is_32
wide_is_32 hw1 h = ground (arith, bit_and_mask 3 (hw1 >>> 13), bit_and_mask 2 (hw1 >>> 11))

-- The context in which the handler of a wide instruction is called.
abbrev wide_ctx : DisCtx → DisCtx
wide_ctx ctx = record ctx { op = in_order ctx.code; op_size = 4; newop_size = 4 }

handle-bl :
    (c : DisCtx)
    → branch_of (flipped (handle Thumb2Insn.t_bl c))
      ≡ some (u32 (c.pc + 4 + sext (bl_offset (bs_get wide c.op)) 25), cc_call)
unfolding handle flipped wide
handle-bl c = refl

handle-b :
    (c : DisCtx)
    → branch_of (flipped (handle Thumb2Insn.t2_b c))
      ≡ some (u32 (c.pc + 4 + 2 * sext (bs_get wide c.op) 24), it_cc c.arch)
unfolding handle flipped wide
handle-b c = refl

module _ (ctx : DisCtx) (thumb : ctx.arch.pc_low_bit ≡ true) (bytes : IsBytes ctx.code)
    (top : unaligned_r16 ctx.code / 2 ^ 11 ≡ 30) (kind : second ctx.code / 2 ^ 12 % 2 ≡ 1) where
  call_wide :
      (i : Thumb2Insn)
      → find find_tree (in_order ctx.code) ≡ some i
      → branch_of (dis ctx) ≡ branch_of (flipped (handle i (wide_ctx ctx)))
  unfolding dis_thumb2 thumb2_do_it
  call_wide i found =
      ap branch_of (dis-thumb2_mode ctx thumb (wide_is_32 (unaligned_r16 ctx.code) top))
      ∙ ap
          (λ op. branch_of (
            flipped (
              call_insn (find find_tree op) (record ctx { op = op; op_size = 4; newop_size = 4 }))))
          (flip16-in_order ctx.code bytes)
      ∙ ap (λ o. branch_of (flipped (call_insn o (wide_ctx ctx)))) found

  in_order_masked :
      (k : ℕ)
      → second ctx.code / 2 ^ 14 ≡ k
      → bit_and (in_order ctx.code) 0xf800d000 ≡ bit_or (bit_or 0xf0000000 (k * 2 ^ 14)) 0x1000
  in_order_masked k h =
      let low = r16_fits (λ i. ctx.code (i + 2)) (λ i. bytes (i + 2)) in
      masked (in_order ctx.code) k (omega arith) (omega arith) (omega arith)

  -- In Thumb mode, from code of bytes, the two halfwords of a BL are reported as a call of the target
  -- that they encode.
  pub dis-bl :
      second ctx.code / 2 ^ 14 ≡ 3
      → branch_of (dis ctx)
        ≡ some (
          u32 (ctx.pc + 4 + signed32 24 2 (imm_24 (unaligned_r16 ctx.code) (second ctx.code))),
          cc_call,
        )
  dis-bl h =
      let hw1 = unaligned_r16 ctx.code in
      let hw2 = second ctx.code in
      let low = r16_fits (λ i. ctx.code (i + 2)) (λ i. bytes (i + 2)) in
      call_wide Thumb2Insn.t_bl (find-bl (in_order ctx.code) (in_order_masked 3 h))
      ∙ handle-bl (wide_ctx ctx)
      ∙ ap (λ t. some (u32 (ctx.pc + 4 + sext t 25), cc_call))
          (ap bl_offset (wide_lem (in_order ctx.code)) ∙ bl_offset-imm hw1 hw2 low)
      ∙ ap (λ t. some (t, cc_call)) (target_25 (ctx.pc + 4) (imm_24 hw1 hw2) (imm_24_fits hw1 hw2))

  -- What is reported of a B.W, whose handler does not invert the two bits.
  reported-b :
      second ctx.code / 2 ^ 14 ≡ 2
      → branch_of (dis ctx)
        ≡ some (u32 (ctx.pc + 4 + signed32 24 2 (raw_24 (in_order ctx.code))), it_cc ctx.arch)
  reported-b h =
      call_wide Thumb2Insn.t2_b (find-b (in_order ctx.code) (in_order_masked 2 h))
      ∙ handle-b (wide_ctx ctx)
      ∙ ap (λ t. some (u32 (ctx.pc + 4 + 2 * sext t 24), it_cc ctx.arch))
          (wide_lem (in_order ctx.code))
      ∙ ap (λ t. some (t, it_cc ctx.arch))
          (target_24 (ctx.pc + 4) (raw_24 (in_order ctx.code)) (omega arith))

  -- In Thumb mode, from code of bytes, a B.W is reported with the target that its
  -- two halfwords encode exactly if its sign bit is set.
  pub dis-b_iff :
      second ctx.code / 2 ^ 14 ≡ 2
      → (branch_of (dis ctx)
          ≡ some (
            u32 (ctx.pc + 4 + signed32 24 2 (imm_24 (unaligned_r16 ctx.code) (second ctx.code))),
            it_cc ctx.arch,
          ))
        ↔ (unaligned_r16 ctx.code / 2 ^ 10 % 2 ≡ 1)
  unfolding target_of
  dis-b_iff h =
      let hw1 = unaligned_r16 ctx.code in
      let hw2 = second ctx.code in
      let low = r16_fits (λ i. ctx.code (i + 2)) (λ i. bytes (i + 2)) in
      let same = reported-b h in
      (
        λ e. sign_set hw1 (λ s0. raw_ne (ctx.pc + 4) hw1 hw2 low s0 (ap target_of (sym same ∙ e))),
        λ s.
            same
            ∙ ap (λ v. some (u32 (ctx.pc + 4 + signed32 24 2 v), it_cc ctx.arch))
                (raw-imm hw1 hw2 low s),
      )
