-- ===== src/Arm/Context.antt =====
-- lib/arm/arch-dis.h and, of lib/dis.h, the macros by which a handler names its registers. A word is
-- 32 bits wide here, and so is `uint_tptr`.
use substitute.Common.{
  ℕ, ◌+◌, ◌*◌, ◌^◌, List, [], ◌∷◌, Bool, true, false, Option, none, some, if◌then◌else◌, ◌or◌,
  ◌<<<◌, replicate,
}
use substitute.Dis.{Bitslice, PcrelLoadMode, bs_get, bs_set, bs_slice}

-- `struct arch_pcrel_info`
pub record PcrelInfo : Type 0 where
  pub reg : ℕ
  pub load_mode : PcrelLoadMode

-- `struct arch_dis_ctx`, without what the rewriting keeps behind `it_conds`.
pub record ArchDisCtx : Type 0 where
  pub pc_low_bit : Bool
  pub it_conds : List ℕ

unfoldable pub arch_dis_ctx_init : ArchDisCtx
arch_dis_ctx_init = record { pc_low_bit = false; it_conds = replicate 5 0xe }

-- A list of another length than 5 is no array that the program has.
unfoldable pub advance_conds : List ℕ → List ℕ
advance_conds (a ∷ b ∷ c ∷ d ∷ e ∷ []) = b ∷ c ∷ d ∷ e ∷ 0xe ∷ []
advance_conds cs = cs

unfoldable pub advance_it_cond : ArchDisCtx → ArchDisCtx
unfolding advance_conds
advance_it_cond ctx = record ctx { it_conds = advance_conds ctx.it_conds }

abbrev pub dflag_is_ldrd_strd : ℕ
dflag_is_ldrd_strd = 0x10000

abbrev pub cc_armcc : ℕ
cc_armcc = 0x500

abbrev pub cc_already_in_it : ℕ
cc_already_in_it = 0x900

abbrev pub cc_cbxz : ℕ
cc_cbxz = 0xd00

-- `(unsigned) -0x100`
abbrev pub null_op : ℕ
null_op = 0xffffff00

-- The function `P(x)` that a handler calls, with its arguments; `operands` is `P(data)`.
pub data Event : Type 0 where
  pcrel : ℕ → PcrelInfo → Event
  branch : ℕ → ℕ → Event
  operands : ℕ → ℕ → ℕ → ℕ → ℕ → Event
  ret indirect_call unidentified bad thumb_it : Event

-- What a handler does: its event, and the word that it then writes to `newop` if the pass has set
-- `modify`, from the `newval` of the pass and the bytes of `newop` before.
pub record Call : Type 0 where
  pub event : Event
  pub newop : (ℕ → ℕ) → (ℕ → ℕ) → Option ℕ

abbrev pub plain : Event → Call
plain e = record { event = e; newop = λ newval newop. none }

-- The three arguments of `data_` that `r`, `rs`, `rout` and `rnull` stand for.
pub record Operand : Type 0 where
  pub slice : Bitslice
  pub is_out : Bool
  pub is_valid : Bool

abbrev pub r : Bitslice → Operand
r nn = record { slice = nn; is_out = false; is_valid = true }

abbrev pub rs : Bitslice → ℕ → ℕ → Operand
rs nn l s = r (bs_slice nn l s)

abbrev pub rout : Bitslice → Operand
rout nn = record { slice = nn; is_out = true; is_valid = true }

abbrev pub rnull : Operand
rnull = record { slice = []; is_out = false; is_valid = false }

unfoldable pub operand_value : Operand → ℕ → ℕ
operand_value b op = if b.is_valid then bs_get b.slice op else null_op

abbrev pub bit_of : Bool → ℕ
bit_of b = if b then 1 else 0

unfoldable pub data_flags : ℕ → Operand → Operand → Operand → Operand → ℕ → Call
unfolding operand_value
data_flags fl b1 b2 b3 b4 op = record {
  event =
      operands (operand_value b1 op) (operand_value b2 op) (operand_value b3 op)
        (operand_value b4 op)
        (bit_of b1.is_out
          or bit_of b2.is_out <<< 1
          or bit_of b3.is_out <<< 2
          or bit_of b4.is_out <<< 3
          or fl);
  newop = λ newval newop. some (
      bs_set b4.slice (newval 3)
        (bs_set b3.slice (newval 2) (bs_set b2.slice (newval 1) (bs_set b1.slice (newval 0) op))));
}

-- The part of `struct dis_ctx_base` that a handler reads, and the bytes at `ptr`.
pub record DisCtx : Type 0 where
  pub pc : ℕ
  pub code : ℕ → ℕ
  pub op : ℕ
  pub op_size : ℕ
  pub newop_size : ℕ
  pub arch : ArchDisCtx

-- How `P(dis)` ends: with a call of the pass, with `__builtin_abort`, or with a write behind
-- `it_conds`.
pub data Outcome : Type 0 where
  done : Call → DisCtx → Outcome
  aborts overruns : Outcome

-- `unaligned_r16` and `unaligned_r32`, little-endian.
unfoldable pub unaligned_r16 : (ℕ → ℕ) → ℕ
unaligned_r16 code = code 0 + code 1 * 2 ^ 8

unfoldable pub unaligned_r32 : (ℕ → ℕ) → ℕ
unaligned_r32 code = code 0 + code 1 * 2 ^ 8 + code 2 * 2 ^ 16 + code 3 * 2 ^ 24
