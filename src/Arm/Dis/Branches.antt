-- ===== src/Arm/Dis/Branches.antt =====
-- The branches of ARM code, against the encoding of B and BL in the architecture manual.
use substitute.Common.{
  ℕ, ◌+◌, ◌-◌, ◌*◌, ◌/◌, ◌%◌, ◌^◌, ◌<◌, ◌≡◌, ◌≢◌, refl, ap, ◌∙◌, sym, arith, true, false, Option,
  none, some, [], ◌∷◌, bit_and, bit_or, if◌then◌else◌, ◌==◌, ltb, u32, ◌⊎◌, inl, inr, Bool, ◌&&◌,
  not, Bool-cases,
}
use substitute.Common.Bits.{bit_and_field, bit_or_low, bit_or_split}
use substitute.Arm64.Decode.Targets.{bs_get-field, sext-signed, zero-bit_or}
use substitute.Dis.{sext, bs_get, run, cc_call}
use substitute.Arm.Context.{Event, DisCtx, Outcome, done, unaligned_r32, data_flags, cc_armcc}
use substitute.Arm.Switch.Check.{forced-read, apart-read}
use substitute.Arm.Dis.ArmMode.Insn.{ArmInsn}
use substitute.Arm.Dis.ArmMode.{handle, dis_arm, call_insn}
use substitute.Arm.Dis.{dis}
use substitute.Arm.Dis.Modes.{IsBytes, r32_fits, dis-arm_mode}
use substitute.Arm.Dis.Ends.{arm_ok, arm-Finds}

-- The target and the flags of a branch.
abbrev pub branch_event : Event → Option (ℕ × ℕ)
branch_event (Event.branch dpc cc) = some (dpc, cc)
branch_event _ = none

abbrev pub branch_of : Outcome → Option (ℕ × ℕ)
branch_of (done call c) = branch_event call.event
branch_of _ = none

-- A field of `bits` bits that is signed, as a pattern of 32 bits, times `scale`.
abbrev pub signed32 : ℕ → ℕ → ℕ → ℕ
signed32 bits scale v =
    if ltb v (2 ^ (bits - 1)) then v * scale else 2 ^ 32 - (2 ^ bits - v) * scale

-- Where bits 27 to 25 are 5, bit 24 is the link bit, and bits 31 to 28 are the condition.
abbrev branch_word : ℕ → ℕ → Option (ℕ × ℕ)
branch_word pc w =
    if w / 2 ^ 25 % 8 == 5
    then some (
      u32 (pc + 8 + signed32 24 4 (w % 2 ^ 24)),
      (if w / 2 ^ 24 % 2 == 1 then 0x200 else 0)
          + (if w / 2 ^ 28 == 14 then 0 else 0x500 + w / 2 ^ 28),
    )
    else none

-- What the handlers compute is the target that the word encodes.
target_24 : (k v : ℕ) → v < 2 ^ 24 → u32 (k + 4 * sext v 24) ≡ u32 (k + signed32 24 4 v)
target_24 k v h = rw (sext-signed v 23 (omega arith) h) (ground arith)

field_24 : (op : ℕ) → bs_get (run 0 0 24 ∷ []) op ≡ op % 2 ^ 24
field_24 op = bs_get-field 0 24 op (omega arith) ∙ omega arith

or_flags : (p : ℕ) → p < 16 → bit_or cc_armcc p ≡ 0x500 + p
or_flags p h = bit_or_low 4 0x50 p h

or_call : (p : ℕ) → p < 16 → bit_or cc_call (bit_or cc_armcc p) ≡ 0x700 + p
or_call p h =
    rw (or_flags p h)
      (bit_or_split 8 2 0 5 p (omega arith) (omega arith) ∙ omega (arith, zero-bit_or p))

handle-bcc :
    (c : DisCtx)
    → c.op < 2 ^ 32
    → c.op / 2 ^ 24 % 16 ≡ 10
    → branch_event (handle ArmInsn.bcc c).event ≡ branch_word c.pc c.op
unfolding handle
handle-bcc c fits h =
    let k = c.pc + 8 in
    rw
      (
        field_24 c.op,
        bs_get-field 28 4 c.op (omega arith),
        target_24 k (c.op % 2 ^ 24) (omega arith),
      )
      (ground (arith, or_flags (c.op / 2 ^ 28 % 2 ^ 4)))

handle-bl :
    (c : DisCtx)
    → c.op < 2 ^ 32
    → c.op / 2 ^ 24 % 16 ≡ 11
    → branch_event (handle ArmInsn.bl c).event ≡ branch_word c.pc c.op
unfolding handle
handle-bl c fits h =
    let k = c.pc + 8 in
    rw (field_24 c.op, target_24 k (c.op % 2 ^ 24) (omega arith))
      (ground (arith, or_call (c.op / 2 ^ 28)))

handle-other :
    (i : ArmInsn) (c : DisCtx)
    → i ≢ ArmInsn.bcc
    → i ≢ ArmInsn.bl
    → branch_event (handle i c).event ≡ none
unfolding handle data_flags
handle-other ArmInsn.bcc c h k = absurd (h refl)
handle-other ArmInsn.bl c h k = absurd (k refl)
handle-other _ c h k = ground arith

no_branch : (pc op : ℕ) → bit_and op 0x0e000000 ≢ 0x0a000000 → branch_word pc op ≡ none
no_branch pc op h = ground (arith, bit_and_field 25 3 op)

handle-branch :
    (i : ArmInsn) (mask : ℕ) (c : DisCtx)
    → c.op < 2 ^ 32
    → arm_ok i mask (bit_and c.op mask) ≡ true
    → branch_event (handle i c).event ≡ branch_word c.pc c.op
unfolding arm_ok
handle-branch ArmInsn.bcc mask c fits h =
    let read = forced-read c.op mask _ 0x0f000000 0x0a000000 refl h in
    handle-bcc c fits (omega (arith, bit_and_field 24 4 c.op))
handle-branch ArmInsn.bl mask c fits h =
    let read = forced-read c.op mask _ 0x0f000000 0x0b000000 refl h in
    handle-bl c fits (omega (arith, bit_and_field 24 4 c.op))
handle-branch i mask c fits h =
    handle-other i c (λ e. cc) (λ e. cc)
    ∙ sym (no_branch c.pc c.op (apart-read c.op mask _ 0x0e000000 0x0a000000 refl h))

dis_arm-branch :
    (ctx : DisCtx)
    → IsBytes ctx.code
    → branch_of (dis_arm ctx) ≡ branch_word ctx.pc (unaligned_r32 ctx.code)
unfolding dis_arm
dis_arm-branch ctx bytes =
    let op = unaligned_r32 ctx.code in
    let c = record ctx { op = op; op_size = 4; newop_size = 4 } in
    let f = arm-Finds op in
    ap (λ o. branch_of (call_insn o c)) f.found
    ∙ handle-branch f.insn f.mask c (r32_fits ctx.code bytes) f.checked

-- BLX to an immediate is the same word with 15 for the condition, and calls Thumb code at an address
-- that bit 24 adds two to.
abbrev pub is_blx : ℕ → Bool
is_blx w = (w / 2 ^ 25 % 8 == 5) && (w / 2 ^ 28 == 15)

-- B and BL of the manual.
abbrev pub arm_branch : ℕ → ℕ → Option (ℕ × ℕ)
arm_branch pc w =
    if (w / 2 ^ 25 % 8 == 5) && not (w / 2 ^ 28 == 15)
    then some (
      u32 (pc + 8 + signed32 24 4 (w % 2 ^ 24)),
      (if w / 2 ^ 24 % 2 == 1 then 0x200 else 0)
          + (if w / 2 ^ 28 == 14 then 0 else 0x500 + w / 2 ^ 28),
    )
    else none

-- What is reported for BLX: no call of its target, but a branch with the condition 15, and a call
-- only where bit 24 is set, without the two that the bit stands for.
abbrev pub blx_as : ℕ → ℕ → ℕ × ℕ
blx_as pc w =
    (u32 (pc + 8 + signed32 24 4 (w % 2 ^ 24)), if w / 2 ^ 24 % 2 == 1 then 0x70f else 0x50f)

-- In ARM mode, from code of bytes, a word that is not a BLX to an immediate is reported as a branch
-- exactly if it is B or BL of the manual. The target is the one that its 24 bits encode, and the
-- flags are those of its link bit and of its condition, which is 14 where there is none. A BLX is
-- misread: it is reported as a branch with the condition 15, as a call only where bit 24 is set, and
-- with that bit left out of its target.
pub dis-arm_branch :
    (ctx : DisCtx)
    → ctx.arch.pc_low_bit ≡ false
    → IsBytes ctx.code
    → ((is_blx (unaligned_r32 ctx.code) ≡ false)
        × (branch_of (dis ctx) ≡ arm_branch ctx.pc (unaligned_r32 ctx.code)))
      ⊎ ((is_blx (unaligned_r32 ctx.code) ≡ true)
          × (branch_of (dis ctx) ≡ some (blx_as ctx.pc (unaligned_r32 ctx.code))))
dis-arm_branch ctx arm bytes =
    let w = unaligned_r32 ctx.code in
    let read = ap branch_of (dis-arm_mode ctx arm) ∙ dis_arm-branch ctx bytes in
    elim (Bool-cases (is_blx w)) [
      | inl blx ↦ inr (blx, read ∙ ground arith)
      | inr not_blx ↦ inl (not_blx, read ∙ ground arith)
    ]
