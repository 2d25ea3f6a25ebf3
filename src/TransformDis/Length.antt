-- ===== src/TransformDis/Length.antt =====
-- How much code each instruction is rewritten to.
use substitute.Common.{
  ℕ, zero, suc, ◌+◌, ◌-◌, ◌*◌, ◌/◌, ◌^◌, ◌<◌, ◌≤◌, ◌≡◌, ◌⊎◌, inl, inr, refl, arith, List, [], ◌∷◌,
  ◌++◌, true, none, some, length, length-append, take, drop, Bool-cases, Option-cases,
}
use substitute.Dis.{PcrelLoadMode, op32}
use substitute.Dis.PcrelLoadMode.{adr, u128_load}
use substitute.Arm64.Assemble.{get_unwritten_temp_reg, mov_loop, mov_i64, ldr_xi}
use substitute.Arm64.Assemble.Execute.{length-op32}
use substitute.Arm64.Decode.{PcrelInfo}
use substitute.TransformDis.{Ctx, is_simd, pcrel_code, overwrite, copy_insn}

length-mov_loop_le :
    (fuel s rd v : ℕ)
    → (length (mov_loop fuel s rd v) ≤ 4 * fuel) × (0 < fuel → 4 ≤ length (mov_loop fuel s rd v))
unfolding mov_loop
length-mov_loop_le zero s rd v = (omega arith, λ h. elim h [ ])
length-mov_loop_le (suc fuel) s rd v =
    let (le, _) = length-mov_loop_le fuel (suc s) rd (v / 2 ^ 16) in
    rw (length-append, length-op32) (ground arith)

pub length-mov_i64_le : (rd v : ℕ) → (4 ≤ length (mov_i64 rd v)) × (length (mov_i64 rd v) ≤ 16)
unfolding mov_i64
length-mov_i64_le rd v = let (le, ge) = length-mov_loop_le 4 0 rd v in (ge (omega arith), le)

one_word : (w : ℕ) (code : List ℕ) → some (op32 w) ≡ some code → length code ≤ 4
one_word w code h = let same : code ≡ op32 w = cc in rw (same, length-op32) (omega arith)

length-ldr_xi_le :
    (rt rn : ℕ) (mode : PcrelLoadMode) (code : List ℕ)
    → ldr_xi rt rn 0 true mode ≡ some code
    → length code ≤ 4
unfolding ldr_xi
length-ldr_xi_le rt rn adr code h = let e : code ≡ [] = cc in rw e (omega arith)
length-ldr_xi_le rt rn u128_load code h = cc
length-ldr_xi_le rt rn mode code h = one_word _ code h

pub length-pcrel_code :
    (regs dpc : ℕ) (info : PcrelInfo) (code : List ℕ)
    → pcrel_code regs dpc info ≡ some code
    → (4 ≤ length code) × (length code ≤ 20)
unfolding pcrel_code
length-pcrel_code regs dpc info code h = elim (Bool-cases (is_simd info.load_mode)) [
  | inl simd ↦ elim (Option-cases (get_unwritten_temp_reg regs)) [
    | inl e ↦ let h' = rw (simd, e, pcrel_code) at h in cc
    | inr (temp, e) ↦ elim (Option-cases (ldr_xi temp 0 0 true info.load_mode)) [
      | inl f ↦ let h' = rw (simd, e, f, pcrel_code) at h in cc
      | inr (load, f) ↦
          let h' = rw (simd, e, f, pcrel_code) at h in
          let same : code ≡ mov_i64 0 dpc ++ load = cc in
          rw (same, length-append)
            (omega (arith, length-mov_i64_le 0 dpc, length-ldr_xi_le temp 0 info.load_mode load f))
    ]
  ]
  | inr general ↦ elim (Option-cases (ldr_xi info.reg info.reg 0 true info.load_mode)) [
    | inl f ↦ let h' = rw (general, f, pcrel_code) at h in cc
    | inr (load, f) ↦
        let h' = rw (general, f, pcrel_code) at h in
        let same : code ≡ mov_i64 info.reg dpc ++ load = cc in
        rw (same, length-append)
          (omega (
            arith,
            length-mov_i64_le info.reg dpc,
            length-ldr_xi_le info.reg info.reg info.load_mode load f,
          ))
  ]
]

-- What a handler leaves of the context, and how much code it has put out: none and the
-- instruction is copied, or some, with or without a place for the new form before it.
pub record Handled (before after : Ctx) : Type 0 where
  pub at_pc : after.pc ≡ before.pc
  pub start : after.pc_patch_start ≡ before.pc_patch_start
  pub stop : after.pc_patch_end ≡ before.pc_patch_end
  pub put_out :
      ((after.write_newop_here ≡ some (length before.rewritten))
        × (length after.rewritten ≡ length before.rewritten))
      ⊎ ((after.write_newop_here ≡ none ⊎ (after.write_newop_here ≡ some (length before.rewritten)))
          × (length before.rewritten + 4 ≤ length after.rewritten)
          × (length after.rewritten ≤ length before.rewritten + 24))

length-take : (n : ℕ) (xs : List ℕ) → n ≤ length xs → length (take n xs) ≡ n
length-take zero xs h = refl
length-take (suc n) [] h = elim h [ ]
length-take (suc n) (x ∷ xs) h = omega (arith, length-take n xs (omega arith))

length-drop : (n : ℕ) (xs : List ℕ) → length (drop n xs) ≡ length xs - n
length-drop zero xs = omega arith
length-drop (suc n) [] = omega arith
length-drop (suc n) (x ∷ xs) = omega (arith, length-drop n xs)

pub length-overwrite :
    (out bytes : List ℕ) (at : ℕ)
    → at ≤ length out
    → length (overwrite out at bytes) ≡ at + length bytes + (length out - (at + length bytes))
unfolding overwrite
length-overwrite out bytes at h =
    rw (length-append, length-append, length-take at out h, length-drop (at + length bytes) out)
      (omega arith)

overwrite_bounds :
    (out : List ℕ) (at w : ℕ)
    → at ≤ length out
    → length out ≤ at + 24
    → (at + 4 ≤ length (overwrite out at (op32 w))) × (length (overwrite out at (op32 w)) ≤ at + 24)
overwrite_bounds out at w lo hi =
    rw (length-overwrite out (op32 w) at lo, length-op32) (omega arith, omega arith)

-- The instruction leaves between four and 24 bytes.
pub length-copy_insn :
    (before after : Ctx)
    → Handled before after
    → (length before.rewritten + 4 ≤ length (copy_insn after).rewritten)
      × (length (copy_insn after).rewritten ≤ length before.rewritten + 24)
unfolding copy_insn
length-copy_insn before after h = elim h.put_out [
  | inl (here, same) ↦ rw here (overwrite_bounds after.rewritten _ _ (omega arith) (omega arith))
  | inr (inl e, lo, hi) ↦ rw e (lo, hi)
  | inr (inr e, lo, hi) ↦ rw e (overwrite_bounds after.rewritten _ _ (omega arith) (omega arith))
]

pub copy_insn-frame :
    (ctx : Ctx)
    → ((copy_insn ctx).pc ≡ ctx.pc)
      × ((copy_insn ctx).pc_patch_start ≡ ctx.pc_patch_start)
      × ((copy_insn ctx).pc_patch_end ≡ ctx.pc_patch_end)
unfolding copy_insn
copy_insn-frame ctx = elim (Option-cases ctx.write_newop_here) [
  | inl e ↦ rw e (refl, refl, refl)
  | inr (at, e) ↦ rw e (refl, refl, refl)
]
