-- ===== src/Arm64/Assemble/Sizes.antt =====
-- How many bytes the writers of lib/arm64/assemble.h write, against what they announce.
use substitute.Common.{
  ℕ, zero, suc, ◌+◌, ◌-◌, ◌*◌, ◌/◌, ◌^◌, ◌≤◌, ◌<◌, ◌≡◌, refl, arith, length, length-append, inl,
  inr, Bool-cases, ◌==◌, if◌then◌else◌, ltb, ◌∙◌, sym,
}
use native.Mathlib.Nat.{pow-suc, one-le-pow}
use substitute.Arm64.Assemble.{bit_length, mov_op, mov_loop, mov_i64, size_of_mov_i64}
use substitute.Arm64.Assemble.Execute.{length-op32}

-- `bit_length` counts the digits: it is at most `k` exactly for the values below `2 ^ k`.
bit_length-le : (fuel k n : ℕ) → n < 2 ^ k → bit_length fuel n ≤ k
unfolding bit_length
bit_length-le zero k n h = omega arith
bit_length-le (suc fuel) zero n h = ground arith
bit_length-le (suc fuel) (suc k) n h = ground (arith, pow-suc 2 k, bit_length-le fuel k (n / 2))

lt-bit_length : (fuel k n : ℕ) → 2 ^ k ≤ n → k < fuel → k < bit_length fuel n
unfolding bit_length
lt-bit_length zero k n h hk = absurd (omega arith)
lt-bit_length (suc fuel) zero n h hk = ground arith
lt-bit_length (suc fuel) (suc k) n h hk =
    ground (arith, pow-suc 2 k, one-le-pow k 2, lt-bit_length fuel k (n / 2))

length-mov_loop-suc :
    (fuel s rd v : ℕ)
    → length (mov_loop (suc fuel) s rd v)
      ≡ (if v / 2 ^ 16 == 0 then 4 else 4 + length (mov_loop fuel (suc s) rd (v / 2 ^ 16)))
unfolding mov_loop
length-mov_loop-suc fuel s rd v = elim (Bool-cases (v / 2 ^ 16 == 0)) [
  | inl e ↦ rw (e, length-append) (omega (arith, length-op32 (mov_op s rd v)))
  | inr e ↦ rw (e, length-append) (omega (arith, length-op32 (mov_op s rd v)))
]

-- Four, eight, twelve or sixteen bytes, by the highest halfword that is not 0.
length-mov_loop :
    (rd v : ℕ)
    → v < 2 ^ 64
    → length (mov_loop 4 0 rd v) ≡ (
        if ltb v (2 ^ 16)
        then 4
        else if ltb v (2 ^ 32)
        then 8
        else if ltb v (2 ^ 48)
        then 12
        else 16)
length-mov_loop rd v h = ground (
  arith,
  length-mov_loop-suc 3 0 rd v,
  length-mov_loop-suc 2 1 rd (v / 2 ^ 16),
  length-mov_loop-suc 1 2 rd (v / 2 ^ 16 / 2 ^ 16),
  length-mov_loop-suc 0 3 rd (v / 2 ^ 16 / 2 ^ 16 / 2 ^ 16),
)

size_of_mov_i64-digits :
    (v : ℕ)
    → size_of_mov_i64 v ≡ 4 * (if v == 0 then 1 else (64 - (64 - bit_length 64 v) + 15) / 16)
unfolding size_of_mov_i64
size_of_mov_i64-digits v = refl

size_of_mov_i64-halfwords :
    (v : ℕ)
    → v < 2 ^ 64
    → size_of_mov_i64 v ≡ (
        if ltb v (2 ^ 16)
        then 4
        else if ltb v (2 ^ 32)
        then 8
        else if ltb v (2 ^ 48)
        then 12
        else 16)
size_of_mov_i64-halfwords v h = ground (
  arith,
  size_of_mov_i64-digits v,
  bit_length-le 64 16 v,
  bit_length-le 64 32 v,
  bit_length-le 64 48 v,
  bit_length-le 64 64 v,
  lt-bit_length 64 0 v,
  lt-bit_length 64 16 v,
  lt-bit_length 64 32 v,
  lt-bit_length 64 48 v,
)

-- `size_of_MOVi64` announces exactly what `MOVi64` writes for a 64-bit value.
pub length-mov_i64 : (rd v : ℕ) → v < 2 ^ 64 → length (mov_i64 rd v) ≡ size_of_mov_i64 v
length-mov_i64 rd v h = mov_i64-loop ∙ length-mov_loop rd v h ∙ sym (size_of_mov_i64-halfwords v h)
  where
    mov_i64-loop : length (mov_i64 rd v) ≡ length (mov_loop 4 0 rd v)
    mov_i64-loop = unfold mov_i64 in refl

pub size_of_mov_i64-le : (v : ℕ) → v < 2 ^ 64 → (4 ≤ size_of_mov_i64 v) × (size_of_mov_i64 v ≤ 16)
size_of_mov_i64-le v h = ground (arith, size_of_mov_i64-halfwords v h)
