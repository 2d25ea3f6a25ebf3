-- ===== src/Arm64/Decode/Targets.antt =====
-- The targets that the handlers compute, against the offsets that the instructions encode.
use substitute.Common.{ℕ, ◌+◌, ◌-◌, ◌*◌, ◌/◌, ◌%◌, ◌^◌, ◌≤◌, ◌<◌, ◌≡◌, arith, bit_and, ◌∙◌, u64}
use native.Mathlib.Nat.{div-eq_of_lt, div-eq_of_lt-le, one-le-pow, pow-le-pow_right}
use native.Mathlib.Decide.{dec_lt}
use substitute.Common.Bits.{bit_and_mask, bit_and_field, two-pow-add}
use Prim.Native.Nat.{bit_or, bit_or-bitwise}
use mathlib.Core.List.{[], ◌∷◌}
use substitute.Dis.{sext, bs_get, run}
use substitute.Arm64.Decode.{word_target}
use substitute.Arm64.Machine.{signed_offset}

sign_bit : (val k : ℕ) → bit_and val (1 * 2 ^ k) ≡ val / 2 ^ k % 2 * 2 ^ k
sign_bit val k = bit_and_field k 1 val

two-pow-le : (k : ℕ) → k < 32 → 2 ^ (k + 1) ≤ 2 ^ 32
two-pow-le k h = pow-le-pow_right {n = 2} (omega arith) {j = 32} (omega arith)

-- A value of at most 30 bits, for which the shifts of `sext` are defined, is extended with its sign,
-- to a pattern of 64 bits.
pub sext-signed :
    (val k : ℕ)
    → k < 30
    → val < 2 ^ (k + 1)
    → sext val (k + 1) ≡ signed_offset (k + 1) 1 val % 2 ^ 64
unfolding sext
sext-signed val k hk h =
    let same : k + 1 - 1 ≡ k = omega arith in
    let double : 2 ^ (k + 1) ≡ 2 * 2 ^ k = two-pow-add k 1 ∙ omega arith in
    let top = two-pow-le k (omega arith) in
    let pos = one-le-pow k 2 (omega arith) in
    rw (same, sign_bit val k)
      (elim (dec_lt val (2 ^ k)) [
        | yes low ↦ rw (div-eq_of_lt low) (ground arith)
        | no high ↦
            let one : val / 2 ^ k ≡ 1 = div-eq_of_lt-le (2 ^ k) (omega arith) (omega arith) in
            rw one (ground arith)
      ])

pub zero-bit_or : (a : ℕ) → bit_or 0 a ≡ a
zero-bit_or a = bit_or-bitwise 0 a

-- A slice of one run that starts at bit 0 of the value is a field of the word.
pub bs_get-field : (i l op : ℕ) → l ≤ 32 → bs_get (run i 0 l ∷ []) op ≡ op / 2 ^ i % 2 ^ l
unfolding bs_get
bs_get-field i l op h =
    let small : op / 2 ^ i % 2 ^ l < 2 ^ l = omega (arith, one-le-pow l 2) in
    let fits : 2 ^ l ≤ 2 ^ 32 = pow-le-pow_right {n = 2} (omega arith) {j = 32} h in
    rw (bit_and_mask l (op / 2 ^ i), zero-bit_or) (omega arith)

-- The words are four bytes apart, and the target is the one that the instruction encodes.
pub word_target-field :
    (i k pc op : ℕ)
    → k < 30
    → word_target (run i 0 (k + 1) ∷ []) (k + 1) pc op
      ≡ u64 (pc + signed_offset (k + 1) 4 (op / 2 ^ i % 2 ^ (k + 1)))
unfolding word_target
word_target-field i k pc op hk =
    let v = op / 2 ^ i % 2 ^ (k + 1) in
    let small : v < 2 ^ (k + 1) = omega (arith, one-le-pow (k + 1) 2) in
    let top = two-pow-le k (omega arith) in
    rw (bs_get-field i (k + 1) op (omega arith), sext-signed v k hk small) (ground arith)
