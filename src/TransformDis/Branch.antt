-- ===== src/TransformDis/Branch.antt =====
-- What the code for a jump under the patch does.
use mathlib.Core.Path.{◌∙◌, ap}
use substitute.Common.{
  ℕ, ◌/◌, ◌%◌, ◌^◌, ◌<◌, ◌≤◌, ◌≡◌, ◌≢◌, inl, inr, refl, arith, false, List, ◌++◌, none, some,
  Option-cases,
}
use substitute.Arm64.Assemble.{get_unwritten_temp_reg, mov_i64, br}
use substitute.Arm64.Assemble.Register.{
  get_unwritten_temp_reg-some, get_unwritten_temp_reg-none_iff,
}
use substitute.Arm64.Assemble.MoveWide.{mov_i64-Loads}
use substitute.Arm64.JumpPatch.Jumps.{JumpsTo, Loads-br}
use substitute.Arm64.Machine.{Machine}
use substitute.TransformDis.{Ctx, branch_top, branch_skip, on_branch}
use substitute.TransformDis.Handlers.{branch_top-err}

-- The code that was put out for a jump to `dpc`, and what it does wherever it runs.
pub record Jump (ctx : Ctx) (dpc : ℕ) (m : Machine) : Type 0 where
  pub after : Ctx
  pub handled : on_branch ctx dpc 0 ≡ some after
  pub code : List ℕ
  pub put_out : after.rewritten ≡ ctx.rewritten ++ code
  pub not_copied : after.write_newop_here ≡ none
  pub reg : ℕ
  pub low : 9 ≤ reg
  pub high : reg ≤ 17
  pub free : ctx.regs_possibly_written / 2 ^ reg % 2 ≡ 0
  pub jumps_to : JumpsTo dpc reg code m

branch_skip_zero :
    (ctx : Ctx) (dpc : ℕ)
    → (e : ℕ) × (branch_skip (branch_top ctx dpc 0) dpc 0
        ≡ record ctx { err = e; write_newop_here = none })
unfolding branch_skip
branch_skip_zero ctx dpc = let (e, _, top) = branch_top-err ctx dpc 0 in (e, rw top refl)

abbrev add_jump : Ctx → ℕ → ℕ → Ctx
add_jump skip dpc reg = record skip {
  rewritten = skip.rewritten ++ (mov_i64 reg dpc ++ br reg false);
}

on_branch-add_jump :
    (ctx : Ctx) (dpc reg : ℕ)
    → get_unwritten_temp_reg (branch_skip (branch_top ctx dpc 0) dpc 0).regs_possibly_written
      ≡ some reg
    → on_branch ctx dpc 0 ≡ some (add_jump (branch_skip (branch_top ctx dpc 0) dpc 0) dpc reg)
unfolding on_branch
on_branch-add_jump ctx dpc reg h = rw (h, on_branch) refl

on_branch-jump :
    (ctx : Ctx) (dpc reg : ℕ)
    → get_unwritten_temp_reg ctx.regs_possibly_written ≡ some reg
    → (e : ℕ) × (on_branch ctx dpc 0
        ≡ some (add_jump (record ctx { err = e; write_newop_here = none }) dpc reg))
on_branch-jump ctx dpc reg h =
    let (e, skip) = branch_skip_zero ctx dpc in
    (e, on_branch-add_jump ctx dpc reg (rw skip h) ∙ ap (λ s. some (add_jump s dpc reg)) skip)

-- An unconditional jump to a 64-bit address is rewritten, unless the mask of 32 bits has all of x9
-- to x17, to code that goes to the same address from wherever it stands. It changes one register,
-- one of x9 to x17 that is not in the mask of those that may have been written, and the
-- instruction itself is not copied.
pub on_branch-JumpsTo :
    (ctx : Ctx) (dpc : ℕ) (m : Machine)
    → dpc < 2 ^ 64
    → ctx.regs_possibly_written < 2 ^ 32
    → ctx.regs_possibly_written / 512 % 512 ≢ 511
    → Jump ctx dpc m
on_branch-JumpsTo ctx dpc m hd hr some_free =
    let regs = ctx.regs_possibly_written in
    elim (Option-cases (get_unwritten_temp_reg regs)) [
      | inl none_free ↦ absurd (some_free ((get_unwritten_temp_reg-none_iff regs hr).0 none_free))
      | inr (reg, picked) ↦
          let (lo, hi, unused) = get_unwritten_temp_reg-some regs reg hr picked in
          let (e, handled) = on_branch-jump ctx dpc reg picked in
          record {
            after = _;
            handled = handled;
            code = mov_i64 reg dpc ++ br reg false;
            put_out = refl;
            not_copied = refl;
            reg = reg;
            low = lo;
            high = hi;
            free = unused;
            jumps_to =
                Loads-br reg dpc _ m (omega arith) (mov_i64-Loads reg dpc m (omega arith) hd);
          }
    ]
