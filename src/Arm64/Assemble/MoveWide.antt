-- ===== src/Arm64/Assemble/MoveWide.antt =====
-- The MOVZ and MOVK words of `MOVi64`, field by field, and what they do on the machine.
use mathlib.Core.Path.{ap, ◌∙◌}
use mathlib.Core.List.{append_assoc}
use native.Mathlib.Nat.{mul-le-mul_right, zero-mul, div-add-mod', div-eq_of_lt, mod-eq_of_lt}
use substitute.Common.{
  ℕ, zero, suc, ◌+◌, ◌*◌, ◌/◌, ◌%◌, ◌^◌, ◌<◌, ◌≤◌, ◌≡◌, refl, arith, ◌++◌, List, [], length,
  length-append, ◌==◌, inl, inr, Bool-cases, ==_refl, ==_ne, ◌≢◌,
}
use substitute.Common.Bits.{bit_or_field, bit_and_mask, two-pow-add}
use substitute.Dis.{op32}
use substitute.Arm64.Assemble.{mov_op, mov_loop, mov_i64}
use substitute.Arm64.Assemble.Execute.{execute-op32_next, length-op32}
use substitute.Arm64.Machine.{Machine, write, next, step, execute}

movz_sum : (rd v : ℕ) → rd < 31 → mov_op 0 rd v ≡ 0xd2800000 + rd + v % 2 ^ 16 * 32
unfolding mov_op
movz_sum rd v h = ground (
  arith,
  bit_and_mask 16 v,
  bit_or_field 0 5 0xd2800000 rd (omega arith) (omega arith),
  bit_or_field 5 16 (0xd2800000 + rd) (v % 2 ^ 16) (omega arith) (omega arith),
  bit_or_field 21 2 (0xd2800000 + rd + v % 2 ^ 16 * 32) 0 (omega arith) (omega arith),
)

movk_sum :
    (s rd v : ℕ)
    → s < 3
    → rd < 31
    → mov_op (suc s) rd v ≡ 0xf2800000 + rd + v % 2 ^ 16 * 32 + suc s * 2 ^ 21
unfolding mov_op
movk_sum s rd v hs h = ground (
  arith,
  bit_and_mask 16 v,
  bit_or_field 0 5 0xf2800000 rd (omega arith) (omega arith),
  bit_or_field 5 16 (0xf2800000 + rd) (v % 2 ^ 16) (omega arith) (omega arith),
  bit_or_field 21 2 (0xf2800000 + rd + v % 2 ^ 16 * 32) (suc s) (omega arith) (omega arith),
)

pub step-movz :
    (rd v : ℕ) (m : Machine)
    → rd < 31
    → step (mov_op 0 rd v) m ≡ next (record { x = write m.x rd (v % 2 ^ 16); pc = m.pc + 4 })
unfolding step
step-movz rd v m h = ground (arith, movz_sum rd v h)

-- MOVK replaces the halfword above what is there.
pub step-movk :
    (s rd v : ℕ) (m : Machine)
    → s < 3
    → rd < 31
    → step (mov_op (suc s) rd v) m
      ≡ next (record {
        x = write m.x rd (
            m.x rd / 2 ^ (16 * suc s + 16) * 2 ^ (16 * suc s + 16)
            + v % 2 ^ 16 * 2 ^ (16 * suc s)
            + m.x rd % 2 ^ (16 * suc s));
        pc = m.pc + 4;
      })
unfolding step
step-movk s rd v m hs h =
    let hw : mov_op (suc s) rd v / 2 ^ 21 % 4 ≡ suc s = omega (arith, movk_sum s rd v hs h) in
    let r : mov_op (suc s) rd v % 32 ≡ rd = omega (arith, movk_sum s rd v hs h) in
    let i : mov_op (suc s) rd v / 32 % 2 ^ 16 ≡ v % 2 ^ 16 = omega (arith, movk_sum s rd v hs h) in
    let c : mov_op (suc s) rd v / 2 ^ 23 ≡ 0x1e5 = omega (arith, movk_sum s rd v hs h) in
    let written : rd ≢ 31 = omega arith in rw (c, hw, r, i, ==_ne _ _ written) refl

-- The register `rd` ends with `v`, and no other register changes.
pub record Loads (code : List ℕ) (rd v : ℕ) (m : Machine) : Type 0 where
  pub after : Machine
  pub runs : (rest : List ℕ) → execute (code ++ rest) m ≡ execute rest after
  pub value : (r : ℕ) → after.x r ≡ write m.x rd v r
  pub advances : after.pc ≡ m.pc + length code

pow_halfword : (s : ℕ) → 2 ^ (16 * suc s) ≡ 65536 * 2 ^ (16 * s)
pow_halfword s = ap (λ (t : ℕ). 2 ^ t) (omega arith) ∙ two-pow-add 16 (16 * s)

-- The value after one round.
abbrev halfword_in : ℕ → ℕ → ℕ → ℕ
halfword_in s v a = a + v % 2 ^ 16 * 2 ^ (16 * s)

movk-below :
    (s v a : ℕ)
    → a < 2 ^ (16 * suc s)
    → a / 2 ^ (16 * suc s + 16) * 2 ^ (16 * suc s + 16)
        + v % 2 ^ 16 * 2 ^ (16 * suc s)
        + a % 2 ^ (16 * suc s)
      ≡ halfword_in (suc s) v a
movk-below s v a h =
    let q : a / 2 ^ (16 * suc s + 16) ≡ 0 =
      div-eq_of_lt (omega (arith, two-pow-add (16 * suc s) 16)) in
    rw (q, mod-eq_of_lt h) (omega arith)

halfword_total :
    (s v a : ℕ)
    → halfword_in (suc s) v a + v / 2 ^ 16 * 2 ^ (16 * suc (suc s)) ≡ a + v * 2 ^ (16 * suc s)
halfword_total s v a = omega (
  arith,
  pow_halfword (suc s),
  ap (λ (t : ℕ). v / 2 ^ 16 * t) (pow_halfword (suc s)),
  ap (λ (t : ℕ). t * 2 ^ (16 * suc s)) (div-add-mod' v (2 ^ 16)),
)

pub Loads-nil : (rd v : ℕ) (m : Machine) → m.x rd ≡ v → Loads [] rd v m
Loads-nil rd v m h = record {
  after = m;
  runs = λ rest. refl;
  value = λ r. ground arith;
  advances = omega arith;
}

-- A word that writes only `rd`, and then code that leaves `v` there.
pub Loads-cons :
    (w a rd v : ℕ) (code : List ℕ) (m : Machine)
    → w < 2 ^ 32
    → step w m ≡ next (record { x = write m.x rd a; pc = m.pc + 4 })
    → Loads code rd v (record { x = write m.x rd a; pc = m.pc + 4 })
    → Loads (op32 w ++ code) rd v m
Loads-cons w a rd v code m fits one more = record {
  after = more.after;
  runs = λ rest. rw append_assoc (execute-op32_next w (code ++ rest) m fits one ∙ more.runs rest);
  value = λ r. ground (arith, more.value r);
  advances = omega (arith, more.advances, length-append (op32 w) code, length-op32 w);
}

halfword-lt : (s v a : ℕ) → a < 2 ^ (16 * suc s) → halfword_in (suc s) v a < 2 ^ (16 * suc (suc s))
halfword-lt s v a h =
    let top : v % 2 ^ 16 * 2 ^ (16 * suc s) ≤ 65535 * 2 ^ (16 * suc s) =
      mul-le-mul_right (2 ^ (16 * suc s)) (omega arith) in
    omega (arith, pow_halfword (suc s))

mov_loop-Loads :
    (fuel s rd v a : ℕ) (m : Machine)
    → suc s + fuel ≡ 4
    → rd < 31
    → v < 2 ^ (16 * fuel)
    → m.x rd ≡ a
    → a < 2 ^ (16 * suc s)
    → Loads (mov_loop fuel (suc s) rd v) rd (a + v * 2 ^ (16 * suc s)) m
unfolding mov_loop
mov_loop-Loads zero s rd v a m e h hv ha small =
    let v0 : v ≡ 0 = omega arith in rw (v0, zero-mul) (Loads-nil rd _ m (omega arith))
mov_loop-Loads (suc fuel) s rd v a m e h hv ha small =
    let a' = halfword_in (suc s) v a in
    let m' : Machine = record { x = write m.x rd a'; pc = m.pc + 4 } in
    let fits : mov_op (suc s) rd v < 2 ^ 32 = omega (arith, movk_sum s rd v (omega arith) h) in
    let one = rw (ha, movk-below s v a small) at (step-movk s rd v m (omega arith) h) in
    let total = halfword_total s v a in
    let bound : a' < 2 ^ (16 * suc (suc s)) = halfword-lt s v a small in
    let more =
      mov_loop-Loads fuel (suc s) rd (v / 2 ^ 16) a' m' (omega arith) h
        (omega (arith, pow_halfword fuel)) (rw ==_refl) bound in
    Loads-cons (mov_op (suc s) rd v) a' rd _ _ m fits one (elim (Bool-cases (v / 2 ^ 16 == 0)) [
      | inl done ↦
          let small_v : v / 2 ^ 16 ≡ 0 = ground arith in
          rw done (Loads-nil rd _ m' (rw (==_refl, ← total, small_v, zero-mul) (omega arith)))
      | inr again ↦ rw (again, ← total) more
    ])

-- `MOVi64` leaves the 64-bit value in any of the 31 registers and writes no other.
pub mov_i64-Loads : (rd v : ℕ) (m : Machine) → rd < 31 → v < 2 ^ 64 → Loads (mov_i64 rd v) rd v m
unfolding mov_i64
mov_i64-Loads rd v m h hv =
    let a = v % 2 ^ 16 in
    let m' : Machine = record { x = write m.x rd a; pc = m.pc + 4 } in
    let fits : mov_op 0 rd v < 2 ^ 32 = omega (arith, movz_sum rd v h) in
    let more =
      mov_loop-Loads 3 0 rd (v / 2 ^ 16) a m' refl h (omega arith) (rw ==_refl) (omega arith) in
    let total : a + v / 2 ^ 16 * 2 ^ 16 ≡ v = omega arith in
    Loads-cons (mov_op 0 rd v) a rd _ _ m fits (step-movz rd v m h)
      (elim (Bool-cases (v / 2 ^ 16 == 0)) [
        | inl done ↦ rw done (Loads-nil rd _ m' (rw ==_refl (ground arith)))
        | inr again ↦ rw again (rw total at more)
      ])
