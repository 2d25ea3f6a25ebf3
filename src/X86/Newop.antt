-- ===== src/X86/Newop.antt =====
-- The new instruction that `P(dis)` of lib/x86/dis-main.inc.h builds in `base.newop` where the pass
-- has set `modify`: its `newop_size` bytes.
use substitute.Common.{
  ℕ, zero, suc, ◌+◌, ◌-◌, ◌≡◌, List, [], ◌∷◌, ◌++◌, refl, ap, if◌then◌else◌, ◌==◌, bit_and, ◌or◌,
  ◌<<<◌, u8, u32, le32, take, length,
}
use substitute.X86.Flags.{i_jimm_only}
use substitute.X86.Decode.{Opcode, has, imm_off, imm_size, op_size}

module _ (read : ℕ → ℕ) where
  -- `n` bytes from `off` on.
  unfoldable pub bytes_from : ℕ → ℕ → List ℕ
  bytes_from off zero = []
  bytes_from off (suc n) = read off ∷ bytes_from (off + 1) n

  -- A new immediate of the same size. `newop` has 32 bytes in the source and is a list here: an
  -- instruction with more than 15 prefixes, which would not fit, is not told apart.
  unfoldable pub jump_newop : Opcode → ℕ → List ℕ
  jump_newop o new_imm =
      bytes_from 0 (imm_off read o) ++ take (imm_size read o) (le32 (u32 new_imm))

  -- A register in place of the displacement from the instruction pointer, with a displacement of
  -- eight bits if it is not 0.
  unfoldable pub pcrel_newop : Opcode → ℕ → ℕ → List ℕ
  pcrel_newop o new_reg new_disp =
      let disp = if new_disp == 0 then 0 else 1 in
      let modrm = bit_and (read o.off) 0x38 or disp <<< 6 or new_reg in
      let sib = if new_reg == 4 then 0x24 ∷ [] else [] in
      let disp_byte = if new_disp == 0 then [] else u8 new_disp ∷ [] in
      bytes_from 0 o.off
      ++ (modrm ∷ (sib ++ (disp_byte ++ bytes_from (o.off + 5) (op_size read o - (o.off + 5)))))

  unfoldable pub newop : Opcode → ℕ → ℕ → List ℕ
  newop o newval_0 newval_1 =
      if has o.bits i_jimm_only then jump_newop o newval_0 else pcrel_newop o newval_0 newval_1

  pub length-bytes_from : (off n : ℕ) → length (bytes_from off n) ≡ n
  unfolding bytes_from
  length-bytes_from off zero = refl
  length-bytes_from off (suc n) = ap suc (length-bytes_from (off + 1) n)
