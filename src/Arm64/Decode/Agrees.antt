-- ===== src/Arm64/Decode/Agrees.antt =====
-- What `dis` hands to the passes, against the architecture's reading of the same word.
use mathlib.Core.Path.{◌∙◌, ap}
use substitute.Common.{
  ℕ, ◌+◌, ◌-◌, ◌*◌, ◌/◌, ◌%◌, ◌^◌, ◌<◌, ◌≡◌, ◌≢◌, ◌↔◌, refl, arith, Option, none, some, u64, ltb,
  ◌==◌, if◌then◌else◌,
}
use mathlib.Core.List.{[], ◌∷◌}
use substitute.Common.Bits.{bit_or_low, bit_and_field}
use substitute.Dis.{cc_call, bs_get, run, sext}
use substitute.Dis.Event.{branch}
use substitute.Arm64.Tree.{Insn}
use substitute.Arm64.Tree.Flat.{classify, find_insn-classify}
use substitute.Arm64.Decode.{dis, cc_armcc, cc_xbxz, handle, word_target, addr_26, brcond, tbrcond}
use substitute.Arm64.Decode.Targets.{word_target-field, bs_get-field}
use substitute.Arm64.Machine.{signed_offset}

-- The byte offset that a direct branch encodes.
abbrev pub branch_offset : Insn → ℕ → Option ℕ
branch_offset Insn.b op = some (signed_offset 26 4 (op % 2 ^ 26))
branch_offset Insn.bl op = some (signed_offset 26 4 (op % 2 ^ 26))
branch_offset Insn.bcc op = some (signed_offset 19 4 (op / 2 ^ 5 % 2 ^ 19))
branch_offset Insn.cbz op = some (signed_offset 19 4 (op / 2 ^ 5 % 2 ^ 19))
branch_offset Insn.tbz op = some (signed_offset 14 4 (op / 2 ^ 5 % 2 ^ 14))
branch_offset _ op = none

-- Is it a call; may it fall through; if it is `B.cond`, on which condition.
abbrev pub branch_cc : Insn → ℕ → ℕ
branch_cc Insn.bl op = cc_call
branch_cc Insn.bcc op = if ltb (op % 2 ^ 4) 14 then cc_armcc + op % 2 ^ 4 else 0
branch_cc Insn.cbz op = cc_xbxz
branch_cc Insn.tbz op = cc_xbxz
branch_cc _ op = 0

target_26 : (pc op : ℕ) → word_target addr_26 26 pc op ≡ u64 (pc + signed_offset 26 4 (op % 2 ^ 26))
target_26 pc op =
    let whole : op / 2 ^ 0 ≡ op = omega arith in
    word_target-field 0 25 pc op (omega arith)
    ∙ ap (λ t. u64 (pc + signed_offset 26 4 (t % 2 ^ 26))) whole

condition : (op : ℕ) → bs_get (run 0 0 4 ∷ []) op ≡ op % 2 ^ 4
condition op = bs_get-field 0 4 op (omega arith) ∙ omega arith

handle-branch :
    (i : Insn) (pc op d : ℕ)
    → i ≢ Insn.cbz
    → branch_offset i op ≡ some d
    → handle i pc op ≡ some (branch (u64 (pc + d)) (branch_cc i op))
unfolding handle brcond tbrcond
handle-branch Insn.b pc op d n h = cc (target_26 pc op)
handle-branch Insn.bl pc op d n h = cc (target_26 pc op)
handle-branch Insn.bcc pc op d n h =
    rw (condition op) (ground (arith, word_target-field 5 18 pc op, bit_or_low 4 0x50 (op % 2 ^ 4)))
handle-branch Insn.tbz pc op d n h = cc (word_target-field 5 13 pc op (omega arith))
handle-branch Insn.cbz pc op d n h = absurd (n refl)
handle-branch _ pc op d n h = cc

-- Of every 32-bit word that is a direct branch other than CBZ and CBNZ, `dis` reports the target
-- that the word encodes, and whether it is a call or conditional.
pub dis-branch :
    (pc op d : ℕ)
    → op < 2 ^ 32
    → classify op ≢ Insn.cbz
    → branch_offset (classify op) op ≡ some d
    → dis pc op ≡ some (branch (u64 (pc + d)) (branch_cc (classify op) op))
unfolding dis
dis-branch pc op d fits n h =
    rw (find_insn-classify op fits) (handle-branch (classify op) pc op d n h)

-- What CBZ and CBNZ get: the 19-bit offset is extended from bit 13.
pub handle-cbz :
    (pc op : ℕ)
    → handle Insn.cbz pc op
      ≡ some (branch (u64 (pc + u64 (sext (op / 2 ^ 5 % 2 ^ 19) 14 * 4))) cc_xbxz)
unfolding handle tbrcond word_target
handle-cbz pc op = rw (bs_get-field 5 19 op (omega arith)) refl

pub sext_14 :
    (v : ℕ)
    → v < 2 ^ 19
    → sext v 14 ≡ (if v / 2 ^ 13 % 2 == 0 then v else u64 (v + 2 ^ 64 - 2 ^ 14))
unfolding sext
sext_14 v h = ground (arith, bit_and_field 13 1 v)

-- A 32-bit compare-and-branch word at a 64-bit address is given its target exactly when its offset
-- is not negative and has bit 13 clear.
pub dis-cbz_iff :
    (pc op d : ℕ)
    → pc < 2 ^ 64
    → op < 2 ^ 32
    → classify op ≡ Insn.cbz
    → branch_offset (classify op) op ≡ some d
    → (dis pc op ≡ some (branch (u64 (pc + d)) cc_xbxz))
      ↔ ((op / 2 ^ 5 % 2 ^ 19 < 2 ^ 18) × (op / 2 ^ 5 % 2 ^ 19 / 2 ^ 13 % 2 ≡ 0))
unfolding dis
dis-cbz_iff pc op d hp fits k h =
    let v = op / 2 ^ 5 % 2 ^ 19 in
    let is_d = rw k at h in
    rw (find_insn-classify op fits, k, handle-cbz pc op) (ground (arith, sext_14 v))
