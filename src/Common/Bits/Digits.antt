-- ===== src/Common/Bits/Digits.antt =====
-- The native operations stand for a recursion on binary digits with fuel. Here the fuel goes away.
use Prim.Native.Nat.{ℕ, zero, suc, ◌+◌, ◌*◌, ◌/◌, ◌%◌, ◌≤◌, min, max, bit_and, bit_or}
use Prim.Native.Nat.{digits, bit_and-bitwise, bit_or-bitwise}
use mathlib.Core.Path.{◌≡◌, refl}
use native.Mathlib.Omega.{arith}

-- The recursion, at any fuel that the first operand does not exceed.
module _ (end : ℕ → ℕ) (digit : ℕ → ℕ → ℕ) where
  pub same_digits : (i x y j : ℕ) → x ≤ i → x ≤ j → digits end digit i x y ≡ digits end digit j x y
  same_digits zero zero y zero hi hj = refl
  same_digits zero zero y (suc j) hi hj = refl
  same_digits (suc i) zero y zero hi hj = refl
  same_digits (suc i) zero y (suc j) hi hj = refl
  same_digits zero (suc x) y j hi hj = elim hi [ ]
  same_digits (suc i) (suc x) y zero hi hj = elim hj [ ]
  same_digits (suc i) (suc x) y (suc j) hi hj =
      omega (arith, same_digits i (suc x / 2) (y / 2) j (omega arith) (omega arith))

pub bit_or_digit : (x y : ℕ) → bit_or x y ≡ max (x % 2) (y % 2) + 2 * bit_or (x / 2) (y / 2)
bit_or_digit zero y = omega (arith, bit_or-bitwise 0 (y / 2), bit_or-bitwise 0 y)
bit_or_digit (suc x) y =
    let half = suc x / 2 in
    omega (
      arith,
      same_digits (λ t. t) max x half (y / 2) half (omega arith) (omega arith),
      bit_or-bitwise half (y / 2),
      bit_or-bitwise (suc x) y,
    )

pub bit_and_digit : (x y : ℕ) → bit_and x y ≡ min (x % 2) (y % 2) + 2 * bit_and (x / 2) (y / 2)
bit_and_digit zero y = omega (arith, bit_and-bitwise 0 (y / 2), bit_and-bitwise 0 y)
bit_and_digit (suc x) y =
    let half = suc x / 2 in
    omega (
      arith,
      same_digits (λ t. 0) min x half (y / 2) half (omega arith) (omega arith),
      bit_and-bitwise half (y / 2),
      bit_and-bitwise (suc x) y,
    )
