-- ===== src/Arm64/Decode/Align.antt =====
-- A branch goes to a whole number of instructions from where it stands.
use substitute.Common.{ℕ, ◌%◌, ◌^◌, ◌<◌, ◌≡◌, arith, some}
use substitute.Dis.{Bitslice}
use substitute.Dis.Event.{branch}
use substitute.Arm64.Tree.{Insn, find_insn}
use substitute.Arm64.Decode.{
  dis, handle, word_target, addr_26, imm_19, imm_14, adrlabel, adrplabel, brcond, tbrcond, ldrlit,
  register_branch,
}

abbrev pub InStep : ℕ → ℕ → Type 0
InStep pc dpc = (dpc < 2 ^ 64) × (dpc % 4 ≡ pc % 4)

word_target-InStep : (slice : Bitslice) (bits pc op : ℕ) → InStep pc (word_target slice bits pc op)
unfolding word_target
word_target-InStep slice bits pc op = omega arith

handle-InStep : (i : Insn) (pc op dpc c : ℕ) → handle i pc op ≡ some (branch dpc c) → InStep pc dpc
unfolding handle adrlabel adrplabel brcond tbrcond ldrlit register_branch
handle-InStep Insn.b pc op dpc c h = ground (arith, word_target-InStep addr_26 26 pc op)
handle-InStep Insn.bl pc op dpc c h = ground (arith, word_target-InStep addr_26 26 pc op)
handle-InStep Insn.bcc pc op dpc c h = ground (arith, word_target-InStep imm_19 19 pc op)
handle-InStep Insn.cbz pc op dpc c h = ground (arith, word_target-InStep imm_19 14 pc op)
handle-InStep Insn.tbz pc op dpc c h = ground (arith, word_target-InStep imm_14 14 pc op)
handle-InStep Insn.ldr_literal pc op dpc c h = ground arith
handle-InStep Insn.blr pc op dpc c h = ground arith
handle-InStep _ pc op dpc c h = cc

pub dis-InStep : (pc op dpc c : ℕ) → dis pc op ≡ some (branch dpc c) → InStep pc dpc
unfolding dis
dis-InStep pc op dpc c h = handle-InStep (find_insn op) pc op dpc c h
