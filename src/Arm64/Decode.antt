-- ===== src/Arm64/Decode.antt =====
-- lib/arm64/dis-main.inc.h: the handlers of the disassembler. Each calls one of the functions
-- `P(x)` of the pass that includes it; here it is the event that it hands over.
pub mod Targets
pub mod Align
pub mod Pcrel
pub mod Agrees
use substitute.Common.{
  ℕ, ◌+◌, ◌-◌, ◌*◌, ◌/◌, ◌%◌, ◌^◌, List, [], ◌∷◌, Option, none, some, ◌or◌, ◌>>>◌, ◌<<<◌, u64,
  not64, u32, bit_and, bit_xor, if◌then◌else◌, ◌==◌, leb, sub64,
}
use substitute.Dis.{
  Bitslice, run, sext, bs_get, bs_set, PcrelLoadMode, Event, cc_conditional, cc_call,
}
use substitute.Dis.Event.{pcrel, branch, ret, indirect_call, unidentified}
use substitute.Arm64.Tree.{Insn, find_insn}

-- `struct arch_pcrel_info`
pub record PcrelInfo : Type 0 where
  pub reg : ℕ
  pub load_mode : PcrelLoadMode

abbrev pub Arm64Event : Type 0
Arm64Event = Event PcrelInfo

abbrev pub cc_armcc : ℕ
cc_armcc = 0x500

abbrev pub cc_xbxz : ℕ
cc_xbxz = 0x900

-- The slices that the tree hands to the handlers.
abbrev pub low_reg : Bitslice
low_reg = run 0 0 5 ∷ []

abbrev pub adr_label : Bitslice
adr_label = run 5 2 19 ∷ run 29 0 2 ∷ []

abbrev pub addr_26 : Bitslice
addr_26 = run 0 0 26 ∷ []

abbrev pub imm_19 : Bitslice
imm_19 = run 5 0 19 ∷ []

abbrev pub imm_14 : Bitslice
imm_14 = run 5 0 14 ∷ []

-- `ctx->base.pc + sext(bs_get(slice, ctx->base.op), bits) * 4`
unfoldable pub word_target : Bitslice → ℕ → ℕ → ℕ → ℕ
word_target slice bits pc op = u64 (pc + u64 (sext (bs_get slice op) bits * 4))

unfoldable pub adrlabel : ℕ → ℕ → Arm64Event
adrlabel pc op =
    pcrel (u64 (pc + sext (bs_get adr_label op) 21))
      (record { reg = bs_get low_reg op; load_mode = PcrelLoadMode.adr })

unfoldable pub adrplabel : ℕ → ℕ → Arm64Event
adrplabel pc op =
    pcrel (u64 (bit_and pc (not64 0xfff) + u64 (sext (bs_get adr_label op) 21 <<< 12)))
      (record { reg = bs_get low_reg op; load_mode = PcrelLoadMode.adr })

unfoldable pub brcond : ℕ → ℕ → Arm64Event
brcond pc op =
    let bits = bs_get (run 0 0 4 ∷ []) op in
    branch (word_target imm_19 19 pc op) (if leb 0xe bits then 0 else (cc_armcc or bits))

-- The compare-and-branch handler passes its 19-bit slice to this one, which extends 14 bits.
unfoldable pub tbrcond : Bitslice → ℕ → ℕ → Arm64Event
tbrcond target pc op = branch (word_target target 14 pc op) cc_xbxz

-- What it writes to `newop` when the pass has set `modify`.
unfoldable pub tbrcond_newop : Bitslice → ℕ → ℕ → ℕ → ℕ → ℕ
tbrcond_newop target pc op newval_0 newval_1 =
    let new_target = u32 (sub64 newval_0 pc / 4) in
    let new = bs_set target new_target op in if newval_1 == 0 then new else bit_xor new (1 <<< 24)

-- `none` is the `__builtin_abort`.
unfoldable pub literal_mode : ℕ → Option PcrelLoadMode
literal_mode op =
    let size = op >>> 30 in
    if bit_and (op >>> 26) 1 == 0
    then (if size == 0
        then some PcrelLoadMode.u32_load
        else if size == 1
        then some PcrelLoadMode.u64_load
        else if size == 2
        then some PcrelLoadMode.s32_load
        else none)
    else if size == 0
    then some PcrelLoadMode.u32_simd
    else if size == 1
    then some PcrelLoadMode.u64_simd
    else if size == 2
    then some PcrelLoadMode.u128_simd
    else none

unfoldable pub ldrlit : ℕ → ℕ → Option Arm64Event
ldrlit pc op = elim (literal_mode op) [
  | none ↦ none
  | some mode ↦
      some
        (pcrel (word_target imm_19 19 pc op) (record { reg = bs_get low_reg op; load_mode = mode }))
]

unfoldable pub register_branch : ℕ → Arm64Event
register_branch op = if bit_and (op >>> 21) 3 == 1 then indirect_call else ret

-- The handler for each leaf of the tree.
unfoldable pub handle : Insn → ℕ → ℕ → Option Arm64Event
handle Insn.adr pc op = some (adrlabel pc op)
handle Insn.adrp pc op = some (adrplabel pc op)
handle Insn.b pc op = some (branch (word_target addr_26 26 pc op) 0)
handle Insn.bl pc op = some (branch (word_target addr_26 26 pc op) cc_call)
handle Insn.bcc pc op = some (brcond pc op)
handle Insn.cbz pc op = some (tbrcond imm_19 pc op)
handle Insn.tbz pc op = some (tbrcond imm_14 pc op)
handle Insn.ldr_literal pc op = ldrlit pc op
handle Insn.blr pc op = some (register_branch op)
handle Insn.unidentified pc op = some unidentified

-- `P(dis)` on the word at `pc`; `op_size` and `newop_size` are 4.
unfoldable pub dis : ℕ → ℕ → Option Arm64Event
unfolding handle
dis pc op = handle (find_insn op) pc op
