-- ===== src/Common/Bits/Mask.antt =====
-- `bit_and` as an operation on masks: its laws, and what it says of values read under two masks.
use Prim.Native.Nat.{ℕ, zero, suc, ◌/◌, ◌<◌, ◌≤◌, bit_and, bit_or, bit_and-bitwise, bit_or-bitwise}
use mathlib.Core.Path.{◌≡◌, sym, ap, ◌∙◌}
use native.Mathlib.Omega.{arith}
use substitute.Common.Bits.{bit_and_digit, bit_or_digit, bit_and-zero}

comm_below : (n x y : ℕ) → x < n → bit_and x y ≡ bit_and y x
comm_below zero x y h = elim h [ ]
comm_below (suc n) zero y h = rw (bit_and-zero y) (bit_and-bitwise 0 y)
comm_below (suc n) (suc x) y h =
    ground
      (arith, bit_and_digit (suc x) y, bit_and_digit y (suc x), comm_below n (suc x / 2) (y / 2))

assoc_below : (n x y z : ℕ) → x < n → bit_and (bit_and x y) z ≡ bit_and x (bit_and y z)
assoc_below zero x y z h = elim h [ ]
assoc_below (suc n) zero y z h =
    ground (arith, bit_and-bitwise 0 y, bit_and-bitwise 0 z, bit_and-bitwise 0 (bit_and y z))
assoc_below (suc n) (suc x) y z h = ground (
  arith,
  bit_and_digit (suc x) y,
  bit_and_digit (bit_and (suc x) y) z,
  bit_and_digit y z,
  bit_and_digit (suc x) (bit_and y z),
  assoc_below n (suc x / 2) (y / 2) (z / 2),
)

distrib_below : (n x y z : ℕ) → x < n → bit_and x (bit_or y z) ≡ bit_or (bit_and x y) (bit_and x z)
distrib_below zero x y z h = elim h [ ]
distrib_below (suc n) zero y z h = ground (
  arith,
  bit_and-bitwise 0 y,
  bit_and-bitwise 0 z,
  bit_and-bitwise 0 (bit_or y z),
  bit_or-bitwise 0 0,
)
distrib_below (suc n) (suc x) y z h = ground (
  arith,
  bit_and_digit (suc x) (bit_or y z),
  bit_and_digit (suc x) y,
  bit_and_digit (suc x) z,
  bit_or_digit y z,
  bit_or_digit (bit_and (suc x) y) (bit_and (suc x) z),
  distrib_below n (suc x / 2) (y / 2) (z / 2),
)

pub bit_and_comm : (x y : ℕ) → bit_and x y ≡ bit_and y x
bit_and_comm x y = comm_below (suc x) x y (omega arith)

pub bit_and_assoc : (x y z : ℕ) → bit_and (bit_and x y) z ≡ bit_and x (bit_and y z)
bit_and_assoc x y z = assoc_below (suc x) x y z (omega arith)

pub bit_and-bit_or : (x y z : ℕ) → bit_and x (bit_or y z) ≡ bit_or (bit_and x y) (bit_and x z)
bit_and-bit_or x y z = distrib_below (suc x) x y z (omega arith)

le_below : (n x y : ℕ) → y < n → bit_and x y ≤ y
le_below zero x y h = elim h [ ]
le_below (suc n) x zero h = rw (bit_and-zero x) (omega arith)
le_below (suc n) x (suc y) h =
    omega (arith, bit_and_digit x (suc y), le_below n (x / 2) (suc y / 2))

pub bit_and_le : (x y : ℕ) → bit_and x y ≤ y
bit_and_le x y = le_below (suc y) x y (omega arith)

-- Two readings of one word.
module _ (op mask value m v : ℕ) (known : bit_and op mask ≡ value) where
  pub masks_join : bit_and op m ≡ v → bit_and op (bit_or mask m) ≡ bit_or value v
  masks_join read = rw (bit_and-bit_or op mask m, known, read)

  pub masks_agree : bit_and op m ≡ v → bit_and v mask ≡ bit_and value m
  masks_agree read =
      ap (λ t. bit_and t mask) (sym read)
      ∙ bit_and_assoc op m mask
      ∙ ap (bit_and op) (bit_and_comm m mask)
      ∙ sym (bit_and_assoc op mask m)
      ∙ ap (λ t. bit_and t m) known

  pub mask_within : bit_and mask m ≡ m → bit_and op m ≡ bit_and value m
  mask_within within =
      ap (bit_and op) (sym within) ∙ sym (bit_and_assoc op mask m) ∙ ap (λ t. bit_and t m) known
