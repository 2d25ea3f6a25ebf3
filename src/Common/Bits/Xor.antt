-- ===== src/Common/Bits/Xor.antt =====
-- `^` on binary digits.
use Prim.Native.Nat.{ℕ, zero, suc, ◌+◌, ◌*◌, ◌/◌, ◌%◌, ◌^◌, ◌<◌, bit_xor, differ, bit_xor-bitwise}
use mathlib.Core.Path.{◌≡◌, refl, ap, ◌∙◌}
use native.Mathlib.Omega.{arith}
use native.Mathlib.Nat.{pow-suc}
use substitute.Common.Bits.{mul-pow-suc}
use substitute.Common.Bits.Digits.{same_digits}

pub bit_xor_digit : (x y : ℕ) → bit_xor x y ≡ differ (x % 2) (y % 2) + 2 * bit_xor (x / 2) (y / 2)
bit_xor_digit zero y = omega (arith, bit_xor-bitwise 0 y, bit_xor-bitwise 0 (y / 2))
bit_xor_digit (suc x) y =
    let half = suc x / 2 in
    omega (
      arith,
      same_digits (λ t. t) differ x half (y / 2) half (omega arith) (omega arith),
      bit_xor-bitwise half (y / 2),
      bit_xor-bitwise (suc x) y,
    )

differ-zero : (x : ℕ) → differ x 0 ≡ x
differ-zero zero = refl
differ-zero (suc x) = refl

pub bit_xor_split :
    (k a b c : ℕ) → b < 2 ^ k → bit_xor (a * 2 ^ k + b) (c * 2 ^ k) ≡ bit_xor a c * 2 ^ k + b
bit_xor_split zero a b c p = let b0 : b ≡ 0 = omega arith in rw b0 (ground arith)
bit_xor_split (suc k) a b c p =
    let x = a * 2 ^ suc k + b in
    let even : c * 2 ^ suc k % 2 ≡ 0 = omega (arith, mul-pow-suc c k) in
    ground (
      arith,
      bit_xor_digit x (c * 2 ^ suc k),
      ap (differ (x % 2)) even ∙ differ-zero (x % 2),
      mul-pow-suc a k,
      mul-pow-suc c k,
      mul-pow-suc (bit_xor a c) k,
      pow-suc 2 k,
      bit_xor_split k a (b / 2) c (omega arith),
    )

xor_zero_below : (bound x : ℕ) → x < bound → bit_xor x 0 ≡ x
xor_zero_below zero x h = omega arith
xor_zero_below (suc n) zero h = bit_xor-bitwise 0 0
xor_zero_below (suc n) (suc x) h = omega (
  arith,
  bit_xor_digit (suc x) 0,
  differ-zero (suc x % 2),
  xor_zero_below n (suc x / 2) (omega arith),
)

pub bit_xor-zero : (x : ℕ) → bit_xor x 0 ≡ x
bit_xor-zero x = xor_zero_below (suc x) x (omega arith)
