-- ===== src/Arm/Dis/Wide/Offset.antt =====
-- The offset of BL and B.W: the bits that the handlers put together, and the architecture's.
use substitute.Common.{
  ℕ, zero, suc, ◌+◌, ◌-◌, ◌*◌, ◌/◌, ◌%◌, ◌^◌, ◌≤◌, ◌<◌, ◌≡◌, ◌≢◌, refl, ap, ◌∙◌, sym, arith, [],
  ◌∷◌, bit_and, bit_or, bit_xor, if◌then◌else◌, ◌==◌, u32, ◌<<<◌, ◌>>>◌, Bool-cases, inl, inr,
  ==_iff,
}
use substitute.Common.Bits.{bit_and_mask, bit_or_field}
use substitute.Common.Bits.Xor.{bit_xor_split}
use substitute.Arm64.Decode.Targets.{sext-signed, zero-bit_or}
use substitute.Dis.{sext, bs_get, run, Bitslice}
use substitute.Arm.Dis.Thumb2.Handlers.{bl_offset}
use substitute.Arm.Dis.Branches.{signed32}

-- The 24 bits of BL and B.W as the slices put them together, from the two halfwords in a word.
unfoldable pub wide : Bitslice
wide = run 0 0 11 ∷ run 11 21 1 ∷ run 13 22 1 ∷ run 16 11 10 ∷ run 26 23 1 ∷ []

abbrev pub raw_24 : ℕ → ℕ
raw_24 op =
    op / 2 ^ 26 % 2 * 2 ^ 23
    + op / 2 ^ 13 % 2 * 2 ^ 22
    + op / 2 ^ 11 % 2 * 2 ^ 21
    + op / 2 ^ 16 % 2 ^ 10 * 2 ^ 11
    + op % 2 ^ 11

pub wide_lem : (op : ℕ) → bs_get wide op ≡ raw_24 op
unfolding wide bs_get
wide_lem op =
    let low = op % 2 ^ 11 in
    let j2 = op / 2 ^ 11 % 2 in
    let j1 = op / 2 ^ 13 % 2 in
    let mid = op / 2 ^ 16 % 2 ^ 10 in
    let sign = op / 2 ^ 26 % 2 in
    let a = low + j2 * 2 ^ 21 in
    let b = a + j1 * 2 ^ 22 in
    let c = b + mid * 2 ^ 11 in
    let p1 : u32 (bit_and (op >>> 0) 2047 <<< 0) ≡ low =
      omega (arith, bit_and_mask 11 (op >>> 0)) in
    let p2 : u32 (bit_and (op >>> 11) 1 <<< 21) ≡ j2 * 2 ^ 21 =
      omega (arith, bit_and_mask 1 (op >>> 11)) in
    let p3 : u32 (bit_and (op >>> 13) 1 <<< 22) ≡ j1 * 2 ^ 22 =
      omega (arith, bit_and_mask 1 (op >>> 13)) in
    let p4 : u32 (bit_and (op >>> 16) 1023 <<< 11) ≡ mid * 2 ^ 11 =
      omega (arith, bit_and_mask 10 (op >>> 16)) in
    let p5 : u32 (bit_and (op >>> 26) 1 <<< 23) ≡ sign * 2 ^ 23 =
      omega (arith, bit_and_mask 1 (op >>> 26)) in
    rw (p1, p2, p3, p4, p5, zero-bit_or low)
      (ap (λ t. bit_or (bit_or (bit_or t (j1 * 2 ^ 22)) (mid * 2 ^ 11)) (sign * 2 ^ 23))
          (bit_or_field 21 1 low j2 (omega arith) (omega arith))
        ∙ ap (λ t. bit_or (bit_or t (mid * 2 ^ 11)) (sign * 2 ^ 23))
            (bit_or_field 22 1 a j1 (omega arith) (omega arith))
        ∙ ap (λ t. bit_or t (sign * 2 ^ 23)) (bit_or_field 11 10 b mid (omega arith) (omega arith))
        ∙ bit_or_field 23 1 c sign (omega arith) (omega arith)
        ∙ omega arith)

-- The offset of the architecture, in halfwords: the two bits below the sign are inverted unless it
-- is set.
abbrev pub imm_24 : ℕ → ℕ → ℕ
imm_24 hw1 hw2 =
    let s = hw1 / 2 ^ 10 % 2 in
    s * 2 ^ 23
    + (if hw2 / 2 ^ 13 % 2 == s then 1 else 0) * 2 ^ 22
    + (if hw2 / 2 ^ 11 % 2 == s then 1 else 0) * 2 ^ 21
    + hw1 % 2 ^ 10 * 2 ^ 11
    + hw2 % 2 ^ 11

flip_3 : (x : ℕ) → x < 4 → bit_xor x 3 ≡ 3 - x
flip_3 zero h = refl
flip_3 (suc zero) h = refl
flip_3 (suc (suc zero)) h = refl
flip_3 (suc (suc (suc zero))) h = refl
flip_3 (suc (suc (suc (suc x)))) h = absurd (omega arith)

-- What the handlers of BL make of it.
bl_offset-high : (v : ℕ) → 2 ^ 23 ≤ v → v < 2 ^ 24 → bl_offset v ≡ 2 * v
unfolding bl_offset
bl_offset-high v h k =
    let one : bit_and (u32 (v <<< 1) >>> 24) 1 ≡ 1 =
      omega (arith, bit_and_mask 1 (u32 (v <<< 1) >>> 24)) in
    rw one (omega arith)

bl_offset-low :
    (x rest : ℕ)
    → x < 4
    → rest < 2 ^ 21
    → bl_offset (x * 2 ^ 21 + rest) ≡ (3 - x) * 2 ^ 22 + 2 * rest
unfolding bl_offset
bl_offset-low x rest h k =
    let crap : u32 ((x * 2 ^ 21 + rest) <<< 1) ≡ x * 2 ^ 22 + 2 * rest = omega arith in
    let none_set : bit_and ((x * 2 ^ 22 + 2 * rest) >>> 24) 1 ≡ 0 =
      omega (arith, bit_and_mask 1 ((x * 2 ^ 22 + 2 * rest) >>> 24)) in
    rw (crap, none_set, bit_xor_split 22 x (2 * rest) 3 (omega arith), flip_3 x h) refl

bit_is_0 : (b : ℕ) → b < 2 → (if b == 0 then 1 else 0) ≡ 1 - b
bit_is_0 b h = ground arith

bit_is_1 : (b : ℕ) → b < 2 → (if b == 1 then 1 else 0) ≡ b
bit_is_1 b h = ground arith

pub bl_offset-imm :
    (hw1 hw2 : ℕ) → hw2 < 2 ^ 16 → bl_offset (raw_24 (hw1 * 2 ^ 16 + hw2)) ≡ 2 * imm_24 hw1 hw2
bl_offset-imm hw1 hw2 h =
    let op = hw1 * 2 ^ 16 + hw2 in
    let x = op / 2 ^ 13 % 2 * 2 + op / 2 ^ 11 % 2 in
    let rest = op / 2 ^ 16 % 2 ^ 10 * 2 ^ 11 + op % 2 ^ 11 in
    let b1 = hw2 / 2 ^ 13 % 2 in
    let b2 = hw2 / 2 ^ 11 % 2 in
    let s : op / 2 ^ 26 % 2 ≡ hw1 / 2 ^ 10 % 2 = omega arith in
    let j1 : op / 2 ^ 13 % 2 ≡ hw2 / 2 ^ 13 % 2 = omega arith in
    let j2 : op / 2 ^ 11 % 2 ≡ hw2 / 2 ^ 11 % 2 = omega arith in
    let mid : op / 2 ^ 16 % 2 ^ 10 ≡ hw1 % 2 ^ 10 = omega arith in
    let low : op % 2 ^ 11 ≡ hw2 % 2 ^ 11 = omega arith in
    elim (Bool-cases (hw1 / 2 ^ 10 % 2 == 0)) [
      | inl e ↦
          let s0 : hw1 / 2 ^ 10 % 2 ≡ 0 = (==_iff _ 0).0 e in
          let raw : raw_24 op ≡ x * 2 ^ 21 + rest = omega (arith, s, s0) in
          ap bl_offset raw
          ∙ bl_offset-low x rest (omega arith) (omega arith)
          ∙ sym (rw s0 (rw (bit_is_0 b1 (omega arith), bit_is_0 b2 (omega arith)) (omega arith)))
      | inr e ↦
          let s1 : hw1 / 2 ^ 10 % 2 ≡ 1 = ground arith in
          bl_offset-high (raw_24 op) (omega arith) (omega arith)
          ∙ sym (rw s1 (rw (bit_is_1 b1 (omega arith), bit_is_1 b2 (omega arith)) (omega arith)))
    ]

-- The bits as they stand are those of the offset only if the sign is set.
pub raw-imm :
    (hw1 hw2 : ℕ)
    → hw2 < 2 ^ 16
    → hw1 / 2 ^ 10 % 2 ≡ 1
    → raw_24 (hw1 * 2 ^ 16 + hw2) ≡ imm_24 hw1 hw2
raw-imm hw1 hw2 h s1 =
    let b1 = hw2 / 2 ^ 13 % 2 in
    let b2 = hw2 / 2 ^ 11 % 2 in
    sym (rw s1 (rw (bit_is_1 b1 (omega arith), bit_is_1 b2 (omega arith)) (omega arith)))

imm-low :
    (hw1 hw2 : ℕ)
    → hw1 / 2 ^ 10 % 2 ≡ 0
    → imm_24 hw1 hw2
      ≡ (1 - hw2 / 2 ^ 13 % 2) * 2 ^ 22
        + (1 - hw2 / 2 ^ 11 % 2) * 2 ^ 21
        + (hw1 % 2 ^ 10 * 2 ^ 11 + hw2 % 2 ^ 11)
imm-low hw1 hw2 s0 =
    let b1 = hw2 / 2 ^ 13 % 2 in
    let b2 = hw2 / 2 ^ 11 % 2 in
    rw s0 (rw (bit_is_0 b1 (omega arith), bit_is_0 b2 (omega arith)) (omega arith))

double_ne :
    (k a b : ℕ)
    → a < 2 ^ 23
    → b < 2 ^ 23
    → a ≢ b
    → u32 (k + signed32 24 2 a) ≢ u32 (k + signed32 24 2 b)
double_ne k a b h l n e = ground arith

pub raw_ne :
    (k hw1 hw2 : ℕ)
    → hw2 < 2 ^ 16
    → hw1 / 2 ^ 10 % 2 ≡ 0
    → u32 (k + signed32 24 2 (raw_24 (hw1 * 2 ^ 16 + hw2)))
      ≢ u32 (k + signed32 24 2 (imm_24 hw1 hw2))
raw_ne k hw1 hw2 h s0 =
    let value = imm-low hw1 hw2 s0 in
    let raw = raw_24 (hw1 * 2 ^ 16 + hw2) in
    double_ne k raw (imm_24 hw1 hw2) (omega arith) (omega (arith, value))
      (λ e. omega (arith, value, e))

pub imm_24_fits : (hw1 hw2 : ℕ) → imm_24 hw1 hw2 < 2 ^ 24
imm_24_fits hw1 hw2 = ground arith

pub target_25 : (k v : ℕ) → v < 2 ^ 24 → u32 (k + sext (2 * v) 25) ≡ u32 (k + signed32 24 2 v)
target_25 k v h = rw (sext-signed (2 * v) 24 (omega arith) (omega arith)) (ground arith)

pub target_24 : (k v : ℕ) → v < 2 ^ 24 → u32 (k + 2 * sext v 24) ≡ u32 (k + signed32 24 2 v)
target_24 k v h = rw (sext-signed v 23 (omega arith) h) (ground arith)
