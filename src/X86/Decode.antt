-- ===== src/X86/Decode.antt =====
-- `P(dis)` of lib/x86/dis-main.inc.h on x86-64. `read` gives the byte at an offset from
-- `ctx->base.ptr`, and `off` is `ptr - orig`.
pub mod Total
pub mod Ends
use substitute.Common.{
  ℕ, zero, suc, ◌+◌, ◌-◌, ◌*◌, ◌/◌, ◌%◌, ◌^◌, List, [], ◌∷◌, ◌++◌, Bool, true, false, not, ◌&&◌,
  ◌||◌, Option, none, some, if◌then◌else◌, ◌==◌, ltb, leb, bit_and, ◌or◌, ◌>>>◌, ◌<<<◌, u8, u32,
  u64, not32, of_le32,
}
use substitute.Dis.{Event, cc_conditional, cc_call}
use substitute.Dis.Event.{pcrel, branch, ret, indirect_call, unidentified, bad}
use substitute.X86.Flags.{
  i_8, i_16, i_24, i_32, i_v, i_z, i_p, i_imm_mask, i_mod, i_addr, i_moda, i_pfx, i_jmp, i_spec,
  i_type_mask, i_jimm_only, i_jimm, i_bad, i_call,
}
use substitute.X86.Onebyte.{onebyte_bits}
use substitute.X86.Twobyte.{twobyte_bits}

-- `struct arch_pcrel_info`
pub record PcrelInfo : Type 0 where
  pub reg : ℕ
  pub is_jump : Bool

abbrev pub X86Event : Type 0
X86Event = Event PcrelInfo

-- Where the opcode has been read: its first byte, its flags, and the operand size and high bit of
-- the register that the prefixes set. `at_modrm` is the jump to the label `modrm`.
pub record Opcode : Type 0 where
  pub byte1 : ℕ
  pub bits : ℕ
  pub off : ℕ
  pub opnd_size : ℕ
  pub rm : ℕ
  pub at_modrm : Bool

-- One pass from the label `restart`: back to it, or on.
pub data Step : Type 0 where
  restart : ℕ → ℕ → ℕ → Step
  opcode : Opcode → Step
  bad_opcode aborted : Step

pub data Dis : Type 0 where
  decoded : ℕ → List X86Event → Dis
  bad_insn dis_aborts out_of_fuel : Dis

abbrev pub type_of : ℕ → ℕ
type_of bits = bit_and bits i_type_mask

-- A flag of the source is set.
abbrev pub has : ℕ → ℕ → Bool
has bits flag = not (bit_and bits flag == 0)

module _ (read : ℕ → ℕ) where
  -- From `got_bits` on with flags that are no prefix's.
  unfoldable pub plain : ℕ → ℕ → ℕ → ℕ → ℕ → Step
  plain byte1 bits off opnd_size rm =
      if bits == i_bad
      then bad_opcode
      else opcode (record {
        byte1 = byte1;
        bits = bits;
        off = off;
        opnd_size = opnd_size;
        rm = rm;
        at_modrm = false;
      })

  abbrev pub vex_rm : ℕ → ℕ → ℕ
  vex_rm byte2 rm = if bit_and byte2 0x20 == 0 then 8 else rm

  unfoldable pub vex_3_bits : ℕ → ℕ
  vex_3_bits byte2 =
      let map = bit_and byte2 0x1f in
      if map == 1
      then twobyte_bits byte2
      else if map == 2
      then twobyte_bits 0x38
      else if map == 3
      then twobyte_bits 0x3a
      else i_bad

  unfoldable pub xop_bits : ℕ → ℕ
  xop_bits byte2 =
      let map = bit_and byte2 0x1f in
      if map == 8
      then (i_moda or i_8)
      else if map == 9
      then i_moda
      else if map == 10
      then (i_moda or i_32)
      else i_bad

  -- `off` is behind the prefix byte.
  unfoldable pub prefix : ℕ → ℕ → ℕ → ℕ → Step
  prefix byte1 off opnd_size rm =
      let byte2 = read off in
      if byte1 == 0x66
      then restart off 2 rm
      else if bit_and byte1 0xf0 == 0x40
      then restart off (if has byte1 8 then 8 else opnd_size) (if has byte1 1 then 8 else rm)
      else if byte1 == 0xc4
      then plain byte1 (vex_3_bits byte2) (off + 3) opnd_size (vex_rm byte2 rm)
      else if byte1 == 0xc5
      then plain byte1 (twobyte_bits byte2) (off + 1) opnd_size rm
      else if byte1 == 0x8f
      then (if bit_and (byte2 >>> 3) 7 == 0
          then opcode (record {
            byte1 = byte1;
            bits = onebyte_bits byte1;
            off = off;
            opnd_size = opnd_size;
            rm = rm;
            at_modrm = true;
          })
          else plain byte1 (xop_bits byte2) (off + 1) opnd_size (vex_rm byte2 rm))
      else restart off opnd_size rm

  unfoldable pub group_ff_bits : ℕ → ℕ
  group_ff_bits modrm =
      let subop = bit_and (modrm >>> 3) 7 in
      if (subop == 4) || (subop == 5)
      then (i_jmp or i_moda)
      else if (subop == 2) || (subop == 3)
      then (i_call or i_moda)
      else i_moda

  unfoldable pub special : ℕ → ℕ → ℕ → ℕ → Step
  special byte1 off opnd_size rm =
      if byte1 == 0x0f
      then plain byte1 (twobyte_bits (read off)) (off + 1) opnd_size rm
      else if bit_and byte1 0xf8 == 0xd8
      then plain byte1 i_moda (off + 1) opnd_size rm
      else if byte1 == 0xff
      then plain byte1 (group_ff_bits (read off)) off opnd_size rm
      else aborted

  unfoldable pub step : ℕ → ℕ → ℕ → Step
  step off opnd_size rm =
      let byte1 = read off in
      let bits = onebyte_bits byte1 in
      if type_of bits == i_spec
      then special byte1 (off + 1) opnd_size rm
      else if bits == i_bad
      then bad_opcode
      else if type_of bits == i_pfx
      then prefix byte1 (off + 1) opnd_size rm
      else plain byte1 bits (off + 1) opnd_size rm

  -- Prefixes may follow each other without end; `none` is the end of the fuel.
  unfoldable pub opcode_from : ℕ → ℕ → ℕ → ℕ → Option Step
  opcode_from zero off opnd_size rm = none
  opcode_from (suc fuel) off opnd_size rm = elim (step off opnd_size rm) [
    | restart off' opnd_size' rm' ↦ opcode_from fuel off' opnd_size' rm'
    | opcode o ↦ some (opcode o)
    | bad_opcode ↦ some bad_opcode
    | aborted ↦ some aborted
  ]

  unfoldable pub has_modrm : Opcode → Bool
  has_modrm o = o.at_modrm || has o.bits i_mod

  -- `mod` and `rm` of the byte behind the opcode.
  unfoldable pub mod_of : Opcode → ℕ
  mod_of o = read o.off >>> 6

  unfoldable pub rm_of : Opcode → ℕ
  rm_of o = o.rm or bit_and (read o.off) 7

  -- The ModR/M byte, a SIB byte and the displacement.
  unfoldable pub modrm_size : Opcode → ℕ
  modrm_size o =
      let disp =
        if (mod_of o == 0) && (rm_of o == 5)
        then 4
        else if mod_of o == 1
        then 1
        else if mod_of o == 2
        then 4
        else 0 in
      if has_modrm o then 1 + (if rm_of o == 4 then 1 else 0) + disp else 0

  unfoldable pub imm_off : Opcode → ℕ
  imm_off o = o.off + modrm_size o

  unfoldable pub imm_size : Opcode → ℕ
  imm_size o =
      let imm_bits = bit_and o.bits i_imm_mask in
      if leb imm_bits i_32
      then imm_bits
      else if imm_bits == i_v
      then o.opnd_size
      else if imm_bits == i_z
      then (if o.opnd_size == 2 then 2 else 4)
      else if o.opnd_size == 2
      then 4
      else 6

  unfoldable pub op_size : Opcode → ℕ
  op_size o = imm_off o + imm_size o

  -- A signed number of memory, as a pattern of 64 bits; `none` is the abort for another size.
  unfoldable pub signed_8 : ℕ → ℕ
  signed_8 b = if ltb b 0x80 then b else b + 2 ^ 64 - 2 ^ 8

  unfoldable pub signed_16 : ℕ → ℕ
  signed_16 v = if ltb v 0x8000 then v else v + 2 ^ 64 - 2 ^ 16

  unfoldable pub signed_32 : ℕ → ℕ
  signed_32 v = if ltb v 0x80000000 then v else v + 2 ^ 64 - 2 ^ 32

  abbrev pub read_32 : ℕ → ℕ
  read_32 off = of_le32 (read off) (read (off + 1)) (read (off + 2)) (read (off + 3))

  unfoldable pub jump_imm : Opcode → Option ℕ
  jump_imm o =
      let at = imm_off o in
      if imm_size o == 1
      then some (signed_8 (read at))
      else if imm_size o == 2
      then some (signed_16 (read at + read (at + 1) * 256))
      else if imm_size o == 4
      then some (signed_32 (read_32 at))
      else none

  unfoldable pub jump_cc : Opcode → ℕ
  jump_cc o =
      let cond = not ((o.byte1 == 0xe2) || (leb 0xe8 o.byte1 && leb o.byte1 0xeb)) in
      let call = not (has o.bits i_jmp) in
      (if cond then cc_conditional else 0) or (if call then cc_call else 0)

  unfoldable pub is_pcrel : Opcode → Bool
  is_pcrel o = (bit_and o.bits i_moda == i_moda) && ((mod_of o == 0) && (rm_of o == 5))

  unfoldable pub pcrel_event : ℕ → Opcode → X86Event
  pcrel_event pc o =
      pcrel (u64 (pc + op_size o + signed_32 (read_32 (o.off + 1))))
        (record { reg = bit_and (read o.off >>> 3) 7; is_jump = has o.bits i_jmp })

  -- What the disassembler calls, in order. `op_size` is set before all of them but `bad`.
  unfoldable pub events : ℕ → Opcode → Option (List X86Event)
  events pc o =
      if has o.bits i_jimm_only
      then (elim (jump_imm o) [
        | none ↦ none
        | some imm ↦ some (branch (u64 (pc + op_size o + imm)) (jump_cc o) ∷ [])
      ])
      else if is_pcrel o
      then some (
          if has o.bits i_call
          then indirect_call ∷ pcrel_event pc o ∷ []
          else pcrel_event pc o ∷ [])
      else if type_of o.bits == i_jmp
      then some (ret ∷ [])
      else if has o.bits i_call
      then some (indirect_call ∷ [])
      else some (unidentified ∷ [])

  -- `decoded` has the size of the instruction and the calls. `bad_insn` is the call of `bad`, which
  -- sets no size.
  unfoldable pub dis : ℕ → ℕ → Dis
  dis fuel pc = elim (opcode_from fuel 0 4 0) [
    | none ↦ out_of_fuel
    | some (restart off opnd_size rm) ↦ out_of_fuel
    | some bad_opcode ↦ bad_insn
    | some aborted ↦ dis_aborts
    | some (opcode o) ↦ elim (events pc o) [
      | none ↦ dis_aborts
      | some calls ↦ decoded (op_size o) calls
    ]
  ]
