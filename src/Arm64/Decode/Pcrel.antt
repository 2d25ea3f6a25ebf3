-- ===== src/Arm64/Decode/Pcrel.antt =====
-- PC-relative addresses and loads: the address that `dis` reports, and that it never aborts.
use mathlib.Core.Path.{◌∙◌}
use substitute.Common.{
  ℕ, ◌+◌, ◌*◌, ◌/◌, ◌%◌, ◌^◌, ◌<◌, ◌≡◌, refl, arith, Option, none, some, u64, bit_and, not64, ◌==◌,
  if◌then◌else◌,
}
use substitute.Common.Bits.{bit_or_low, bit_and_mask, bit_and_field}
use substitute.Dis.{PcrelLoadMode, bs_get, sext}
use substitute.Dis.Event.{pcrel}
use substitute.Arm64.Tree.{Insn}
use substitute.Arm64.Tree.Flat.{classify, find_insn-classify, classify-ldr}
use substitute.Arm64.Decode.{
  Arm64Event, dis, handle, word_target, imm_19, adr_label, low_reg, adrlabel, adrplabel, ldrlit,
  literal_mode,
}
use substitute.Arm64.Decode.Targets.{word_target-field, bs_get-field, sext-signed, zero-bit_or}
use substitute.Arm64.Machine.{signed_offset}

-- The immediate of ADR and ADRP: `immhi` above `immlo`.
abbrev pub adr_imm : ℕ → ℕ
adr_imm op = op / 2 ^ 5 % 2 ^ 19 * 4 + op / 2 ^ 29 % 4

-- The address that a PC-relative instruction encodes.
abbrev pub pcrel_address : Insn → ℕ → ℕ → Option ℕ
pcrel_address Insn.adr pc op = some (u64 (pc + signed_offset 21 1 (adr_imm op)))
pcrel_address Insn.adrp pc op = some (u64 (pc / 4096 * 4096 + signed_offset 21 4096 (adr_imm op)))
pcrel_address Insn.ldr_literal pc op = some (u64 (pc + signed_offset 19 4 (op / 2 ^ 5 % 2 ^ 19)))
pcrel_address _ pc op = none

adr_label_value : (op : ℕ) → bs_get adr_label op ≡ adr_imm op
unfolding bs_get
adr_label_value op = ground (
  arith,
  bit_and_mask 19 (op / 2 ^ 5),
  bit_and_mask 2 (op / 2 ^ 29),
  bit_or_low 0 0 (op / 2 ^ 5 % 2 ^ 19 * 2 ^ 2),
  bit_or_low 2 (op / 2 ^ 5 % 2 ^ 19) (op / 2 ^ 29 % 4),
  zero-bit_or (op / 2 ^ 5 % 2 ^ 19 * 2 ^ 2),
)

sext_adr : (op : ℕ) → sext (bs_get adr_label op) 21 ≡ signed_offset 21 1 (adr_imm op) % 2 ^ 64
sext_adr op = rw (adr_label_value op) (sext-signed (adr_imm op) 20 (omega arith) (omega arith))

register : (op : ℕ) → bs_get low_reg op ≡ op % 32
register op = bs_get-field 0 5 op (omega arith) ∙ omega arith

page_of : (pc : ℕ) → pc < 2 ^ 64 → bit_and pc (not64 0xfff) ≡ pc / 4096 * 4096
page_of pc h = bit_and_field 12 52 pc ∙ omega arith

-- What is done with the address: nothing more for ADR and ADRP, a load of the encoded size for
-- the others.
abbrev pub pcrel_mode : Insn → ℕ → PcrelLoadMode
pcrel_mode Insn.ldr_literal op =
    if op / 2 ^ 26 % 2 == 0
    then (if op / 2 ^ 30 == 0
        then PcrelLoadMode.u32_load
        else if op / 2 ^ 30 == 1
        then PcrelLoadMode.u64_load
        else PcrelLoadMode.s32_load)
    else if op / 2 ^ 30 == 0
    then PcrelLoadMode.u32_simd
    else if op / 2 ^ 30 == 1
    then PcrelLoadMode.u64_simd
    else PcrelLoadMode.u128_simd
pcrel_mode _ op = PcrelLoadMode.adr

literal_mode-some :
    (op : ℕ) → op / 2 ^ 30 < 3 → literal_mode op ≡ some (pcrel_mode Insn.ldr_literal op)
unfolding literal_mode
literal_mode-some op h = ground (arith, bit_and_mask 1 (op / 2 ^ 26))

handle-pcrel :
    (i : Insn) (pc op t : ℕ)
    → pc < 2 ^ 64
    → pcrel_address i pc op ≡ some t
    → (i ≡ Insn.ldr_literal → op / 2 ^ 30 < 3)
    → handle i pc op ≡ some (pcrel t (record { reg = op % 32; load_mode = pcrel_mode i op }))
unfolding handle adrlabel adrplabel ldrlit
handle-pcrel Insn.adr pc op t hp h l = rw (register op, sext_adr op) (ground arith)
handle-pcrel Insn.adrp pc op t hp h l = rw (register op, sext_adr op, page_of pc hp) (ground arith)
handle-pcrel Insn.ldr_literal pc op t hp h l =
    rw (literal_mode-some op (l refl), register op, handle, ldrlit)
      (ground (arith, word_target-field 5 18 pc op))
handle-pcrel _ pc op t hp h l = cc

-- Of every PC-relative word of 32 bits, at an address of 64 bits, `dis` reports the address that
-- the word encodes, its register, and the size of the load that it makes from there.
pub dis-pcrel :
    (pc op t : ℕ)
    → pc < 2 ^ 64
    → op < 2 ^ 32
    → pcrel_address (classify op) pc op ≡ some t
    → dis pc op ≡ some (pcrel t (record { reg = op % 32; load_mode = pcrel_mode (classify op) op }))
unfolding dis
dis-pcrel pc op t hp fits h =
    rw (find_insn-classify op fits) (handle-pcrel (classify op) pc op t hp h (classify-ldr op))

handle-some :
    (i : Insn) (pc op : ℕ)
    → (i ≡ Insn.ldr_literal → op / 2 ^ 30 < 3)
    → (e : Arm64Event) × (handle i pc op ≡ some e)
unfolding handle ldrlit
handle-some Insn.ldr_literal pc op l = (
  pcrel (word_target imm_19 19 pc op)
      (record { reg = bs_get low_reg op; load_mode = pcrel_mode Insn.ldr_literal op }),
  rw (literal_mode-some op (l refl), handle, ldrlit) refl,
)
handle-some Insn.adr pc op l = (_, refl)
handle-some Insn.adrp pc op l = (_, refl)
handle-some Insn.b pc op l = (_, refl)
handle-some Insn.bl pc op l = (_, refl)
handle-some Insn.bcc pc op l = (_, refl)
handle-some Insn.cbz pc op l = (_, refl)
handle-some Insn.tbz pc op l = (_, refl)
handle-some Insn.blr pc op l = (_, refl)
handle-some Insn.unidentified pc op l = (_, refl)

-- On a word of 32 bits `dis` never reaches its `__builtin_abort`.
pub dis-some : (pc op : ℕ) → op < 2 ^ 32 → (e : Arm64Event) × (dis pc op ≡ some e)
unfolding dis
dis-some pc op fits =
    rw (find_insn-classify op fits) (handle-some (classify op) pc op (classify-ldr op))
