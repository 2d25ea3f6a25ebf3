-- ===== src/Arm/Assemble/MoveWide.antt =====
-- What the words that `MOVW_MOVT` writes encode, by the fields of the two instruction sets.
use substitute.Common.{
  ℕ, ◌+◌, ◌*◌, ◌/◌, ◌%◌, ◌^◌, ◌<◌, ◌≡◌, refl, arith, List, ◌++◌, Bool, true, false, if◌then◌else◌,
  u16, u32, ◌>>>◌, Bool-cases, inl, inr,
}
use substitute.Common.Bits.{bit_or_field, bit_and_mask}
use substitute.Dis.{op32}
use substitute.Arm.Assemble.{AssembleCtx, cond_bits, mov_half, movw_movt}

-- The immediate and the register of a MOVW or MOVT. A Thumb word has its first halfword in the low
-- bits, as it stands in memory.
unfoldable pub imm_of : Bool → ℕ → ℕ
imm_of thumb w =
    if thumb
    then w % 16 * 2 ^ 12 + w / 2 ^ 10 % 2 * 2 ^ 11 + w / 2 ^ 28 % 8 * 2 ^ 8 + w / 2 ^ 16 % 256
    else w / 2 ^ 16 % 16 * 2 ^ 12 + w % 2 ^ 12

unfoldable pub register_of : Bool → ℕ → ℕ
register_of thumb w = if thumb then w / 2 ^ 24 % 16 else w / 2 ^ 12 % 16

-- All other fields: in Thumb mode bits 15 to 11 and 9 to 4 of the first halfword and bit 15 of the
-- second, in ARM mode the condition and bits 27 to 20.
unfoldable pub opcode_of : Bool → ℕ → ℕ
opcode_of thumb w =
    if thumb then w / 2 ^ 11 % 2 ^ 5 * 2 ^ 7 + w / 2 ^ 4 % 2 ^ 6 * 2 + w / 2 ^ 31 else w / 2 ^ 20

-- MOVW and MOVT of the manuals, the latter by one bit more. Thumb has no condition here.
abbrev pub movw_opcode : Bool → ℕ → ℕ
movw_opcode thumb cond = if thumb then 0x1e * 2 ^ 7 + 0x24 * 2 else cond * 2 ^ 8 + 0x30

abbrev pub movt_opcode : Bool → ℕ → ℕ
movt_opcode thumb cond = if thumb then 0x1e * 2 ^ 7 + 0x2c * 2 else cond * 2 ^ 8 + 0x34

-- A MOVW and then a MOVT, under the condition, write the low and the high half of the value to the
-- register.
pub Loads : Bool → ℕ → ℕ → ℕ → List ℕ → Type 0
Loads thumb cond rd val code =
    (w1 w2 : ℕ) × (code ≡ op32 w1 ++ op32 w2)
    × (opcode_of thumb w1 ≡ movw_opcode thumb cond)
    × (opcode_of thumb w2 ≡ movt_opcode thumb cond)
    × (imm_of thumb w1 + imm_of thumb w2 * 2 ^ 16 ≡ val)
    × (register_of thumb w1 ≡ rd)
    × (register_of thumb w2 ≡ rd)

abbrev thumb_word : ℕ → ℕ → ℕ → ℕ
thumb_word op rd half =
    op
    + rd * 2 ^ 24
    + half / 2 ^ 12
    + half / 2 ^ 11 % 2 * 2 ^ 10
    + half / 2 ^ 8 % 8 * 2 ^ 28
    + half % 256 * 2 ^ 16

abbrev arm_word : AssembleCtx → ℕ → ℕ → ℕ → ℕ
arm_word ctx op rd half =
    op + rd * 2 ^ 12 + half / 2 ^ 12 * 2 ^ 16 + half % 2 ^ 12 + ctx.cond * 2 ^ 28

module _ (ctx : AssembleCtx) (rd half : ℕ) (reg : rd < 16) (word : half < 2 ^ 16) where
  -- The opcode has 0 in the fields.
  mov_half-thumb :
      (op other : ℕ)
      → op < 2 ^ 16
      → op % 16 ≡ 0
      → op / 2 ^ 10 % 2 ≡ 0
      → ctx.thumb ≡ true
      → mov_half ctx op other rd half ≡ thumb_word op rd half
  unfolding mov_half
  mov_half-thumb op other small low bit t = rw t (
      ground (
        arith,
        bit_and_mask 1 (half / 2 ^ 11),
        bit_and_mask 3 (half / 2 ^ 8),
        bit_and_mask 8 half,
        bit_or_field 24 4 op rd reg (omega arith),
        bit_or_field 0 4 (op + rd * 2 ^ 24) (half / 2 ^ 12) (omega arith) (omega arith),
        bit_or_field 10 1 (op + rd * 2 ^ 24 + half / 2 ^ 12) (half / 2 ^ 11 % 2) (omega arith)
            (omega arith),
        bit_or_field 28 3 (op + rd * 2 ^ 24 + half / 2 ^ 12 + half / 2 ^ 11 % 2 * 2 ^ 10)
            (half / 2 ^ 8 % 8) (omega arith) (omega arith),
        bit_or_field 16 8
            (op
              + rd * 2 ^ 24
              + half / 2 ^ 12
              + half / 2 ^ 11 % 2 * 2 ^ 10
              + half / 2 ^ 8 % 8 * 2 ^ 28)
            (half % 256) (omega arith) (omega arith),
      ))

  mov_half-arm :
      (op other : ℕ)
      → op < 2 ^ 28
      → op % 2 ^ 20 ≡ 0
      → ctx.cond < 16
      → ctx.thumb ≡ false
      → mov_half ctx other op rd half ≡ arm_word ctx op rd half
  unfolding mov_half
  mov_half-arm op other small low cond t =
      let shifted : cond_bits ctx ≡ ctx.cond * 2 ^ 28 = omega arith in
      rw (t, shifted)
        (ground (
          arith,
          bit_and_mask 12 half,
          bit_or_field 12 4 op rd reg (omega arith),
          bit_or_field 16 4 (op + rd * 2 ^ 12) (half / 2 ^ 12) (omega arith) (omega arith),
          bit_or_field 0 12 (op + rd * 2 ^ 12 + half / 2 ^ 12 * 2 ^ 16) (half % 2 ^ 12)
              (omega arith) (omega arith),
          bit_or_field 28 4 (op + rd * 2 ^ 12 + half / 2 ^ 12 * 2 ^ 16 + half % 2 ^ 12) ctx.cond
              cond (omega arith),
        ))

  -- What is read back of the word.
  Encodes : ℕ → ℕ → ℕ → Type 0
  Encodes thumb_op arm_op w =
      (imm_of ctx.thumb w ≡ half)
      × (register_of ctx.thumb w ≡ rd)
      × (opcode_of ctx.thumb w ≡ (
          if ctx.thumb
          then thumb_op / 2 ^ 11 * 2 ^ 7 + thumb_op / 2 ^ 4 % 2 ^ 6 * 2
          else ctx.cond * 2 ^ 8 + arm_op / 2 ^ 20))

  mov_half-Encodes :
      (thumb_op arm_op : ℕ)
      → thumb_op < 2 ^ 16
      → thumb_op % 16 ≡ 0
      → thumb_op / 2 ^ 10 % 2 ≡ 0
      → arm_op < 2 ^ 28
      → arm_op % 2 ^ 20 ≡ 0
      → ctx.cond < 16
      → Encodes thumb_op arm_op (mov_half ctx thumb_op arm_op rd half)
  unfolding Encodes imm_of register_of opcode_of
  mov_half-Encodes thumb_op arm_op a b c d e cond = elim (Bool-cases ctx.thumb) [
    | inl t ↦ rw (mov_half-thumb thumb_op arm_op a b c t, t) (omega arith, omega arith, omega arith)
    | inr t ↦
        rw (mov_half-arm arm_op thumb_op d e cond t, t) (omega arith, omega arith, omega arith)
  ]

-- What `MOVW_MOVT` writes, for a value of 32 bits, one of 16 registers and one of 16 conditions, is a
-- MOVW and then a MOVT of the instruction set, by all of their opcode bits. They encode the low and
-- the high half of the value and the register, and in ARM mode the condition.
pub movw_movt-Loads :
    (ctx : AssembleCtx) (rd val : ℕ)
    → rd < 16
    → ctx.cond < 16
    → val < 2 ^ 32
    → Loads ctx.thumb ctx.cond rd val (movw_movt ctx rd val)
unfolding movw_movt Loads Encodes
movw_movt-Loads ctx rd val reg cond word =
    let lo = u16 val in
    let hi = u16 (u32 val >>> 16) in
    let (low, low_reg, low_op) =
      mov_half-Encodes ctx rd lo reg (omega arith) 0x0000f240 0x03000000 (omega arith) refl refl
        (omega arith) refl cond in
    let (high, high_reg, high_op) =
      mov_half-Encodes ctx rd hi reg (omega arith) 0x0000f2c0 0x03400000 (omega arith) refl refl
        (omega arith) refl cond in
    (
      mov_half ctx 0x0000f240 0x03000000 rd lo,
      mov_half ctx 0x0000f2c0 0x03400000 rd hi,
      refl,
      low_op,
      high_op,
      omega (arith, low, high),
      low_reg,
      high_reg,
    )
