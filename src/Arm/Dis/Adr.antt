-- ===== src/Arm/Dis/Adr.antt =====
-- ADR in ARM code, against the architecture manual.
use substitute.Common.{
  ℕ, ◌+◌, ◌*◌, ◌/◌, ◌%◌, ◌^◌, ◌<◌, ◌≡◌, refl, ap, ◌∙◌, arith, Bool, true, false, [], ◌∷◌, Option,
  none, some, bit_and, u32, ◌<<<◌, ◌>>>◌,
}
use substitute.Common.Bits.{bit_and_field, bit_and_mask, bit_or_field}
use substitute.Arm64.Decode.Targets.{zero-bit_or, bs_get-field}
use substitute.Dis.{bs_get, run}
use substitute.Arm.Context.{Event, DisCtx, Outcome, done, unaligned_r32}
use substitute.Arm.Switch.Check.{check, check-Finds}
use substitute.Arm.Dis.ArmMode.Insn.{ArmInsn}
use substitute.Arm.Dis.ArmMode.Tree.{find_tree}
use substitute.Arm.Dis.ArmMode.{handle, call_insn, dis_arm}
use substitute.Arm.Dis.{dis}
use substitute.Arm.Dis.Modes.{dis-arm_mode}

is_adr : ArmInsn → Bool
is_adr ArmInsn.adr = true
is_adr _ = false

adr_only : (i : ArmInsn) → is_adr i ≡ true → i ≡ ArmInsn.adr
unfolding is_adr
adr_only ArmInsn.adr h = refl
adr_only _ h = cc

adr_check : check find_tree (λ i mask value. is_adr i) 0x0fff0000 0x028f0000 ≡ true
unfolding check is_adr find_tree
adr_check = refl

-- The address and the register of an event for a PC-relative access.
abbrev pub pcrel_of : Outcome → Option (ℕ × ℕ)
pcrel_of (done call c) = elim call.event [ Event.pcrel dpc info ↦ some (dpc, info.reg) | _ ↦ none ]
pcrel_of _ = none

label_lem :
    (op : ℕ)
    → op / 2 ^ 22 % 4 ≡ 2
    → bs_get (run 0 0 12 ∷ run 22 12 2 ∷ []) op ≡ op % 2 ^ 12 + 0x2000
unfolding bs_get
label_lem op h =
    let low : u32 (bit_and (op >>> 0) 4095 <<< 0) ≡ op % 2 ^ 12 =
      omega (arith, bit_and_mask 12 (op >>> 0)) in
    let high : u32 (bit_and (op >>> 22) 3 <<< 12) ≡ 2 * 2 ^ 12 =
      omega (arith, bit_and_mask 2 (op >>> 22)) in
    rw (low, high, zero-bit_or) (bit_or_field 12 2 (op % 2 ^ 12) 2 (omega arith) (omega arith))

handle-adr :
    (c : DisCtx)
    → c.op / 2 ^ 22 % 4 ≡ 2
    → pcrel_of (call_insn (some ArmInsn.adr) c)
      ≡ some (u32 (c.pc + 8 + (c.op % 2 ^ 12 + 0x2000)), c.op / 2 ^ 12 % 2 ^ 4)
unfolding call_insn handle
handle-adr c h = rw (label_lem c.op h, bs_get-field 12 4 c.op (omega arith)) refl

-- In ARM mode, ADR as an addition of a number below 256 to the PC, which is the address of the
-- instruction and 8, is reported with its register, and with an address that is 0x2000 too high.
pub dis-adr :
    (ctx : DisCtx)
    → ctx.arch.pc_low_bit ≡ false
    → unaligned_r32 ctx.code / 2 ^ 16 % 2 ^ 12 ≡ 0x28f
    → unaligned_r32 ctx.code % 2 ^ 12 < 2 ^ 8
    → pcrel_of (dis ctx)
      ≡ some (
        u32 (ctx.pc + 8 + unaligned_r32 ctx.code % 2 ^ 8 + 0x2000),
        unaligned_r32 ctx.code / 2 ^ 12 % 16,
      )
unfolding dis_arm
dis-adr ctx arm word small =
    let op = unaligned_r32 ctx.code in
    let c = record ctx { op = op; op_size = 4; newop_size = 4 } in
    let known : bit_and op 0x0fff0000 ≡ 0x028f0000 = omega (arith, bit_and_field 16 12 op) in
    let f =
      check-Finds find_tree (λ i mask value. is_adr i) 0x0fff0000 0x028f0000 op known adr_check in
    let low : op % 2 ^ 12 ≡ op % 2 ^ 8 = omega arith in
    ap pcrel_of (dis-arm_mode ctx arm)
    ∙ ap (λ o. pcrel_of (call_insn o c)) (f.found ∙ ap some (adr_only f.insn f.checked))
    ∙ handle-adr c (omega arith)
    ∙ ap (λ v. some (u32 v, op / 2 ^ 12 % 16)) (omega arith)
