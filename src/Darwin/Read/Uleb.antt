-- ===== src/Darwin/Read/Uleb.antt =====
-- `read_leb128` reads back what is written in base 128.
use Prim.Native.Nat.{bit_or-bitwise}
use native.Mathlib.Nat.{mul-le-mul_right}
use substitute.Common.{
  ℕ, zero, suc, ◌+◌, ◌*◌, ◌/◌, ◌%◌, ◌^◌, ◌<◌, ◌≤◌, ◌≡◌, inl, inr, ◌∙◌, refl, ap, arith, List, [],
  ◌∷◌, ◌++◌, true, false, Option, some, if◌then◌else◌, ◌==◌, ltb, bit_and, bit_or, u32, u64,
  Bool-cases,
}
use substitute.Common.Bits.{bit_or_split, bit_or-zero, bit_and_mask, bit_and_field, two-pow-add}
use substitute.Darwin.Read.{Leb, add_bits, read_bits, extend_sign, read_leb128}

-- The digits of a number in base 128, the lowest first; all but the last have the high bit.
unfoldable pub uleb : ℕ → ℕ → List ℕ
uleb zero v = []
uleb (suc digits) v = if ltb v 128 then v ∷ [] else (128 + v % 128) ∷ uleb digits (v / 128)

distribute : (a b p : ℕ) → (a * 128 + b) * p ≡ a * (128 * p) + b * p
distribute a b p = omega arith

split_mul : (v p : ℕ) → v * p ≡ v / 128 * (128 * p) + v % 128 * p
split_mul v p =
    let digits : v ≡ v / 128 * 128 + v % 128 = omega arith in
    ap (λ t. t * p) digits ∙ distribute (v / 128) (v % 128) p

zero_or : (a b p : ℕ) → bit_or 0 a * p + bit_or b 0 ≡ a * p + b
zero_or a b p =
    let zero_left : bit_or 0 a ≡ a = ground (arith, bit_or-bitwise 0 a) in
    rw (bit_or-zero b, zero_left) refl

add_bits-sum :
    (result bit s : ℕ)
    → s < 64
    → result < 2 ^ s
    → bit % 128 * 2 ^ s < 2 ^ 64
    → add_bits result bit s ≡ bit % 128 * 2 ^ s + result
unfolding add_bits
add_bits-sum result bit s small low fits =
    let k : bit_and bit 0x7f ≡ bit % 128 = bit_and_mask 7 bit in
    let under : ltb s 64 ≡ true = ground arith in
    let whole : u64 (bit % 128 * 2 ^ s) ≡ bit % 128 * 2 ^ s = omega (arith, fits) in
    let sum = bit_or_split s 0 result (bit % 128) 0 low (omega (arith, low)) in
    let left : result ≡ 0 * 2 ^ s + result = omega arith in
    let right : bit % 128 * 2 ^ s ≡ bit % 128 * 2 ^ s + 0 = omega arith in
    rw (under, k, whole)
      (ap (λ t. bit_or t (bit % 128 * 2 ^ s)) left
        ∙ ap (λ t. bit_or (0 * 2 ^ s + result) t) right
        ∙ sum
        ∙ zero_or (bit % 128) result (2 ^ s))

read_bits-ends :
    (bit result s : ℕ) (rest : List ℕ)
    → bit < 128
    → read_bits (bit ∷ rest) result s
      ≡ some
          (record { result = add_bits result bit s; shift = u32 (s + 7); bit = bit; rest = rest })
unfolding read_bits
read_bits-ends bit result s rest h =
    let high : bit_and bit 0x80 ≡ bit / 2 ^ 7 % 2 ^ 1 * 2 ^ 7 = bit_and_field 7 1 bit in
    let clear : (bit_and bit 0x80 == 0) ≡ true = rw high (ground arith) in rw clear refl

read_bits-goes_on :
    (bit result s : ℕ) (rest : List ℕ)
    → 128 ≤ bit
    → bit < 256
    → read_bits (bit ∷ rest) result s ≡ read_bits rest (add_bits result bit s) (u32 (s + 7))
unfolding read_bits
read_bits-goes_on bit result s rest h k =
    let high : bit_and bit 0x80 ≡ bit / 2 ^ 7 % 2 ^ 1 * 2 ^ 7 = bit_and_field 7 1 bit in
    let set : (bit_and bit 0x80 == 0) ≡ false = rw high (ground arith) in rw set refl

-- What is read of digits.
Reads : ℕ → List ℕ → Option Leb → Type 0
Reads value rest found = (l : Leb) × (found ≡ some l) × (l.result ≡ value) × (l.rest ≡ rest)

one_digit :
    (v : ℕ) (rest : List ℕ) (digits result s : ℕ)
    → v < 128
    → s < 64
    → result < 2 ^ s
    → v * 2 ^ s < 2 ^ 64
    → Reads (v * 2 ^ s + result) rest (read_bits (uleb (suc digits) v ++ rest) result s)
unfolding Reads uleb
one_digit v rest digits result s small shift low fits =
    let under : ltb v 128 ≡ true = ground arith in
    let same : v % 128 ≡ v = omega arith in
    let sum = add_bits-sum result v s shift low (rw same fits) in
    rw under (_, read_bits-ends v result s rest small, rw same at sum, refl)

next_low : (r p result : ℕ) → r < 128 → result < p → r * p + result < p * 128
next_low r p result h k =
    let most : r * p ≤ 127 * p = mul-le-mul_right p (omega arith) in omega (arith, most)

more_room : (digits v s : ℕ) → s + 7 * suc digits ≡ 70 → v * 2 ^ s < 2 ^ 64 → 128 ≤ v → s + 7 < 64
more_room zero v s e fits big =
    let last : s ≡ 63 = omega (arith, e) in let fits' = rw last at fits in absurd (omega arith)
more_room (suc digits) v s e fits big = omega (arith, e)

read_bits-more :
    (digits v result s : ℕ) (rest : List ℕ)
    → 128 ≤ v
    → read_bits (uleb (suc digits) v ++ rest) result s
      ≡ read_bits (uleb digits (v / 128) ++ rest) (add_bits result (128 + v % 128) s) (u32 (s + 7))
unfolding uleb
read_bits-more digits v result s rest big =
    let over : ltb v 128 ≡ false = ground arith in
    rw over (
      read_bits-goes_on (128 + v % 128) result s (uleb digits (v / 128) ++ rest) (omega arith)
        (omega arith))

read_bits-uleb :
    (digits v result s : ℕ) (rest : List ℕ)
    → s + 7 * digits ≡ 70
    → s < 64
    → result < 2 ^ s
    → v * 2 ^ s < 2 ^ 64
    → Reads (v * 2 ^ s + result) rest (read_bits (uleb digits v ++ rest) result s)
read_bits-uleb zero v result s rest e shift low fits = absurd (omega arith)
read_bits-uleb (suc digits) v result s rest e shift low fits = elim (Bool-cases (ltb v 128)) [
  | inl last ↦ one_digit v rest digits result s (ground arith) shift low fits
  | inr more ↦
      let big : 128 ≤ v = ground arith in
      let bit = 128 + v % 128 in
      let p = 2 ^ s in
      let split = split_mul v p in
      let wide : 2 ^ (s + 7) ≡ p * 2 ^ 7 = two-pow-add s 7 in
      let low_bits : bit % 128 ≡ v % 128 = omega arith in
      let here : bit % 128 * p < 2 ^ 64 = rw low_bits (omega (arith, split, fits)) in
      let sum : add_bits result bit s ≡ v % 128 * p + result =
        add_bits-sum result bit s shift low here ∙ ap (λ t. t * p + result) low_bits in
      let shifted : u32 (s + 7) ≡ s + 7 = omega (arith, shift) in
      let commuted : p * 2 ^ 7 ≡ 128 * p = omega arith in
      let high : v / 128 * 2 ^ (s + 7) ≡ v / 128 * (128 * p) =
        ap (λ t. v / 128 * t) (wide ∙ commuted) in
      let value : v / 128 * 2 ^ (s + 7) + (v % 128 * p + result) ≡ v * p + result =
        omega (arith, high, split) in
      let again =
        read_bits-uleb digits (v / 128) (v % 128 * p + result) (s + 7) rest (omega (arith, e))
          (more_room digits v s e fits big)
          (rw wide (next_low (v % 128) p result (omega arith) low))
          (omega (arith, high, split, fits)) in
      rw (read_bits-more digits v result s rest big, sum, shifted) (rw value at again)
]

-- A number of 64 bits that is written in base 128, with the high bit in all digits but the last, is
-- read back without its sign, and what stands behind it is left.
pub read_leb128-uleb :
    (v : ℕ) (rest : List ℕ) → v < 2 ^ 64 → read_leb128 (uleb 10 v ++ rest) false ≡ some (v, rest)
unfolding read_leb128 extend_sign Reads
read_leb128-uleb v rest h =
    let (l, found, value, left) =
      read_bits-uleb 10 v 0 0 rest refl (omega arith) (omega arith) (omega arith) in
    let whole : l.result ≡ v = value ∙ omega arith in rw (found, read_leb128, whole, left) refl
