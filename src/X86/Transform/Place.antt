-- ===== src/X86/Transform/Place.antt =====
-- The place that the handlers leave for the new form of an instruction has its size.
use substitute.Common.{
  ℕ, ◌+◌, ◌-◌, ◌*◌, ◌/◌, ◌%◌, ◌^◌, ◌<◌, ◌≤◌, ◌≡◌, ◌⊎◌, inl, inr, refl, arith, true, false, ◌==◌,
  bit_and, length, length-append, take, le32, u32,
}
use substitute.Common.Bits.{bit_and_field}
use substitute.X86.Flags.{i_mod, i_moda}
use substitute.X86.Decode.{Opcode, has, has_modrm, modrm_size, imm_off, imm_size, op_size, is_pcrel}
use substitute.X86.Newop.{jump_newop, pcrel_newop, length-bytes_from}

-- The flags of an operand in memory include that of the ModR/M byte.
moda-mod : (bits : ℕ) → (bit_and bits i_moda == i_moda) ≡ true → has bits i_mod ≡ true
moda-mod bits h =
    let two : bit_and bits i_moda ≡ bits / 2 ^ 3 % 2 ^ 2 * 2 ^ 3 = bit_and_field 3 2 bits in
    let one : bit_and bits i_mod ≡ bits / 2 ^ 3 % 2 ^ 1 * 2 ^ 3 = bit_and_field 3 1 bits in
    let h' = rw two at h in rw one (ground arith)

module _ (read : ℕ → ℕ) where
  imm_size_le : (o : Opcode) → o.opnd_size ≤ 8 → imm_size read o ≤ 8
  unfolding imm_size
  imm_size_le o h = ground arith

  modrm_size_le : (o : Opcode) → modrm_size read o ≤ 6
  unfolding modrm_size
  modrm_size_le o = ground arith

  pub op_size_bounds :
      (o : Opcode) → o.opnd_size ≤ 8 → (o.off ≤ op_size read o) × (op_size read o ≤ o.off + 14)
  unfolding op_size imm_off
  op_size_bounds o h = omega (arith, imm_size_le o h, modrm_size_le o)

  pcrel_modrm_size : (o : Opcode) → is_pcrel read o ≡ true → 5 ≤ modrm_size read o
  unfolding is_pcrel modrm_size has_modrm
  pcrel_modrm_size o h =
      let both : (bit_and o.bits i_moda == i_moda) ≡ true = ground arith in
      let modrm = moda-mod o.bits both in ground arith

  pub pcrel_op_size : (o : Opcode) → is_pcrel read o ≡ true → o.off + 5 ≤ op_size read o
  unfolding op_size imm_off
  pcrel_op_size o h = omega (arith, pcrel_modrm_size o h)

  -- With a register and no displacement.
  pub length-pcrel_newop :
      (o : Opcode) (reg : ℕ)
      → reg < 4
      → is_pcrel read o ≡ true
      → length (pcrel_newop read o reg 0) ≡ op_size read o - 4
  unfolding pcrel_newop
  length-pcrel_newop o reg small h =
      let plain : (reg == 4) ≡ false = ground arith in
      rw (plain, length-append, length-bytes_from, length-bytes_from)
        (omega (arith, pcrel_op_size o h))

  -- With a displacement from the stack pointer.
  pub length-pcrel_newop-stack :
      (o : Opcode) (disp : ℕ)
      → (disp == 0) ≡ false
      → is_pcrel read o ≡ true
      → length (pcrel_newop read o 4 disp) ≡ op_size read o - 2
  unfolding pcrel_newop
  length-pcrel_newop-stack o disp some_disp h =
      rw (some_disp, length-append, length-bytes_from, length-bytes_from)
        (omega (arith, pcrel_op_size o h))

  take-le32 : (n v : ℕ) → (n ≡ 1) ⊎ ((n ≡ 2) ⊎ (n ≡ 4)) → length (take n (le32 v)) ≡ n
  take-le32 n v (inl e) = rw e refl
  take-le32 n v (inr (inl e)) = rw e refl
  take-le32 n v (inr (inr e)) = rw e refl

  -- With another offset of a jump.
  pub length-jump_newop :
      (o : Opcode) (imm : ℕ)
      → (imm_size read o ≡ 1) ⊎ ((imm_size read o ≡ 2) ⊎ (imm_size read o ≡ 4))
      → length (jump_newop read o imm) ≡ op_size read o
  unfolding jump_newop op_size
  length-jump_newop o imm h =
      let same = take-le32 (imm_size read o) (u32 imm) h in
      rw (length-append, length-bytes_from) (omega (arith, same))
