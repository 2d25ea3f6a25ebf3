-- ===== src/Common/Bits.antt =====
-- `|` and `&` at variables: one equation for the lowest digit, and from it the laws for fields,
-- masks and single bits at every width.
mod Digits
pub mod Mask
pub mod Xor
pub use Digits.{bit_or_digit, bit_and_digit}
use Prim.Native.Nat.{
  ℕ, zero, suc, ◌+◌, ◌-◌, ◌*◌, ◌/◌, ◌%◌, ◌^◌, ◌≤◌, ◌<◌, bit_and, bit_or, bit_or-bitwise,
}
use Prim.Native.Nat.add
use mathlib.Core.Bool.{Bool, true, ◌&&◌}
use mathlib.Core.Path.{◌≡◌, refl, ap, ◌∙◌}
use native.Mathlib.Omega.{arith}
use native.Mathlib.Nat.{pow-suc, one-le-pow}

or_zero_below : (bound x : ℕ) → x < bound → bit_or x 0 ≡ x
or_zero_below zero x small = elim small [ ]
or_zero_below (suc bound) zero small = refl
or_zero_below (suc bound) (suc x) small =
    omega (arith, or_zero_below bound (suc x / 2) (omega arith), bit_or_digit (suc x) 0)

pub bit_or-zero : (x : ℕ) → bit_or x 0 ≡ x
bit_or-zero x = or_zero_below (suc x) x (omega arith)

and_zero_below : (bound x : ℕ) → x < bound → bit_and x 0 ≡ 0
and_zero_below zero x small = elim small [ ]
and_zero_below (suc bound) zero small = refl
and_zero_below (suc bound) (suc x) small =
    omega (arith, and_zero_below bound (suc x / 2) (omega arith), bit_and_digit (suc x) 0)

pub bit_and-zero : (x : ℕ) → bit_and x 0 ≡ 0
bit_and-zero x = and_zero_below (suc x) x (omega arith)

pub mul-pow-suc : (q k : ℕ) → q * 2 ^ suc k ≡ 2 * (q * 2 ^ k)
mul-pow-suc q k = omega (arith, ap (λ (t : ℕ). q * t) (pow-suc 2 k))

-- Two values that are split at the same bit are joined part by part.
pub bit_or_split :
    (k a b c d : ℕ)
    → b < 2 ^ k
    → d < 2 ^ k
    → bit_or (a * 2 ^ k + b) (c * 2 ^ k + d) ≡ bit_or a c * 2 ^ k + bit_or b d
bit_or_split zero a b c d p q =
    let b0 : b ≡ 0 = omega arith in let d0 : d ≡ 0 = omega arith in rw (b0, d0) (ground arith)
bit_or_split (suc k) a b c d p q = ground (
  arith,
  bit_or_digit (a * 2 ^ suc k + b) (c * 2 ^ suc k + d),
  bit_or_digit b d,
  mul-pow-suc a k,
  mul-pow-suc c k,
  mul-pow-suc (bit_or a c) k,
  pow-suc 2 k,
  bit_or_split k a (b / 2) c (d / 2) (omega arith) (omega arith),
)

pub bit_and_split :
    (k a b c d : ℕ)
    → b < 2 ^ k
    → d < 2 ^ k
    → bit_and (a * 2 ^ k + b) (c * 2 ^ k + d) ≡ bit_and a c * 2 ^ k + bit_and b d
bit_and_split zero a b c d p q =
    let b0 : b ≡ 0 = omega arith in let d0 : d ≡ 0 = omega arith in rw (b0, d0) (ground arith)
bit_and_split (suc k) a b c d p q = ground (
  arith,
  bit_and_digit (a * 2 ^ suc k + b) (c * 2 ^ suc k + d),
  bit_and_digit b d,
  mul-pow-suc a k,
  mul-pow-suc c k,
  mul-pow-suc (bit_and a c) k,
  pow-suc 2 k,
  bit_and_split k a (b / 2) c (d / 2) (omega arith) (omega arith),
)

-- `(q << k) | r` is a sum where `r` fits `k` bits.
pub bit_or_low : (k q r : ℕ) → r < 2 ^ k → bit_or (q * 2 ^ k) r ≡ q * 2 ^ k + r
bit_or_low k q r h =
    ground (arith, one-le-pow k 2, bit_or_split k q 0 0 r, bit_or-zero q, bit_or-bitwise 0 r)

bit_or_field_parts :
    (k w h l x : ℕ)
    → x < 2 ^ w
    → l < 2 ^ k
    → bit_or (h * 2 ^ w * 2 ^ k + l) (x * 2 ^ k) ≡ (h * 2 ^ w + x) * 2 ^ k + l
bit_or_field_parts k w h l x hx hl =
    ground
      (arith, one-le-pow k 2, bit_or_split k (h * 2 ^ w) l x 0, bit_or-zero l, bit_or_low w h x hx)

-- A field of `w` bits is written at bit `k` of a word that is clear there. Where `k` and `w` are
-- numerals, `omega` proves the premise that says so.
pub bit_or_field :
    (k w a x : ℕ)
    → x < 2 ^ w
    → a ≡ a / 2 ^ k / 2 ^ w * 2 ^ w * 2 ^ k + a % 2 ^ k
    → bit_or a (x * 2 ^ k) ≡ a + x * 2 ^ k
bit_or_field k w a x hx ha =
    let l : a % 2 ^ k < 2 ^ k = omega (arith, one-le-pow k 2) in
    ap (λ t. bit_or t (x * 2 ^ k)) ha
    ∙ bit_or_field_parts k w (a / 2 ^ k / 2 ^ w) (a % 2 ^ k) x hx l
    ∙ omega (arith, ha)

mask_keeps : (k r : ℕ) → r < 2 ^ k → bit_and r (2 ^ k - 1) ≡ r
mask_keeps zero r h = let r0 : r ≡ 0 = omega arith in rw r0 refl
mask_keeps (suc k) r h =
    ground
      (arith, bit_and_digit r (2 ^ suc k - 1), pow-suc 2 k, one-le-pow k 2, mask_keeps k (r / 2))

-- A mask of `k` low bits is the remainder by `2 ^ k`.
pub bit_and_mask : (k a : ℕ) → bit_and a (2 ^ k - 1) ≡ a % 2 ^ k
bit_and_mask k a = ground (
  arith,
  one-le-pow k 2,
  bit_and_split k (a / 2 ^ k) (a % 2 ^ k) 0 (2 ^ k - 1),
  bit_and-zero (a / 2 ^ k),
  mask_keeps k (a % 2 ^ k),
)

-- A mask that is clear below bit `k` is a mask of the bits above.
pub bit_and_high : (k m a : ℕ) → bit_and a (m * 2 ^ k) ≡ bit_and (a / 2 ^ k) m * 2 ^ k
bit_and_high k m a =
    ground
      (arith, one-le-pow k 2, bit_and_split k (a / 2 ^ k) (a % 2 ^ k) m 0, bit_and-zero (a % 2 ^ k))

-- A mask of `w` bits at bit `k` is a field.
pub bit_and_field : (k w a : ℕ) → bit_and a ((2 ^ w - 1) * 2 ^ k) ≡ a / 2 ^ k % 2 ^ w * 2 ^ k
bit_and_field k w a = rw (bit_and_high k (2 ^ w - 1) a, bit_and_mask w (a / 2 ^ k))

pub two-pow-add : (k n : ℕ) → 2 ^ (k + n) ≡ 2 ^ k * 2 ^ n
two-pow-add zero n = rw (add.zero n) (omega arith)
two-pow-add (suc k) n = rw (add.suc k n) (
    omega (
      arith,
      pow-suc 2 (k + n),
      pow-suc 2 k,
      two-pow-add k n,
      ap (λ (t : ℕ). t * 2 ^ n) (pow-suc 2 k),
    ))

-- Over a small range, every value is checked by evaluation.
unfoldable pub below_all : ℕ → (ℕ → Bool) → Bool
below_all zero test = true
below_all (suc bound) test = test bound && below_all bound test

pub below_all_at :
    (bound : ℕ) (test : ℕ → Bool) (k : ℕ) → below_all bound test ≡ true → k < bound → test k ≡ true
unfolding below_all
below_all_at zero test k all small = elim small [ ]
below_all_at (suc bound) test k all small = ground (arith, below_all_at bound test k)
