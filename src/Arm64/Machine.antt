-- ===== src/Arm64/Machine.antt =====
-- What the AArch64 architecture says of the instructions that the library writes and rewrites: an
-- independent reading of the instruction words, against which the assembler is checked.
-- It is a specification, not a model of a file.
use substitute.Common.{
  ℕ, ◌+◌, ◌-◌, ◌*◌, ◌/◌, ◌%◌, ◌^◌, List, ◌∷◌, ◌&&◌, ◌||◌, if◌then◌else◌, ◌==◌, ltb, u64, of_le32,
}

-- The general registers, and the address of the next instruction.
pub record Machine : Type 0 where
  pub x : ℕ → ℕ
  pub pc : ℕ

abbrev pub write : (ℕ → ℕ) → ℕ → ℕ → ℕ → ℕ
write x rd v r = if r == rd then v else x r

-- `jump` has left the straight line.
pub data Outcome : Type 0 where
  next : Machine → Outcome
  jump : Machine → Outcome
  undefined : Outcome

-- An address `d` instructions ahead, where `d` is a two's complement number of `w` bits.
abbrev pub signed_offset : ℕ → ℕ → ℕ → ℕ
signed_offset w scale d = if ltb d (2 ^ (w - 1)) then d * scale else 2 ^ 64 - (2 ^ w - d) * scale

-- MOVZ, MOVK, ADD (immediate), ADRP and BR on 64-bit registers. Number 31 is the zero register, which
-- a write leaves alone; in ADD it is the stack pointer, which this machine does not have.
unfoldable pub step : ℕ → Machine → Outcome
step w m =
    let rd = w % 32 in
    let rn = w / 32 % 32 in
    let hw = w / 2 ^ 21 % 4 in
    let imm16 = w / 32 % 2 ^ 16 in
    let on = λ (v : ℕ).
      if rd == 31
      then next (record { x = m.x; pc = m.pc + 4 })
      else next (record { x = write m.x rd v; pc = m.pc + 4 }) in
    if w / 2 ^ 23 == 0x1a5
    then on (imm16 * 2 ^ (16 * hw))
    else if w / 2 ^ 23 == 0x1e5
    then on (
        m.x rd / 2 ^ (16 * hw + 16) * 2 ^ (16 * hw + 16)
        + imm16 * 2 ^ (16 * hw)
        + m.x rd % 2 ^ (16 * hw))
    else if w / 2 ^ 22 == 0x244
    then (if (rd == 31) || (rn == 31) then undefined else on (u64 (m.x rn + w / 2 ^ 10 % 2 ^ 12)))
    else if (w / 2 ^ 31 == 1) && (w / 2 ^ 24 % 32 == 0x10)
    then on
        (u64 (m.pc / 4096 * 4096 + signed_offset 21 4096 (w / 32 % 2 ^ 19 * 4 + w / 2 ^ 29 % 4)))
    else if (w / 1024 == 0x3587c0) && (w % 32 == 0)
    then jump (record { x = m.x; pc = if rn == 31 then 0 else m.x rn })
    else undefined

-- Runs the bytes as instructions from the first to the last, or to the first jump.
unfoldable pub execute : List ℕ → Machine → Outcome
execute (a ∷ b ∷ c ∷ d ∷ rest) m = elim (step (of_le32 a b c d) m) [
  | next m' ↦ execute rest m'
  | jump m' ↦ jump m'
  | undefined ↦ undefined
]
execute _ m = next m
