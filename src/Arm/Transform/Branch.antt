-- ===== src/Arm/Transform/Branch.antt =====
-- What `transform_dis_branch` of lib/arm/arch-transform-dis.inc.h puts out for a branch.
mod Pieces
use mathlib.Core.Path.{subst}
use substitute.Common.{
  ℕ, ◌%◌, ◌/◌, ◌+◌, ◌-◌, ◌*◌, ◌^◌, ◌<◌, ◌≤◌, ◌≡◌, ◌≢◌, ◌⊎◌, inl, inr, refl, ap, ◌∙◌, sym, arith,
  List, [], ◌∷◌, ◌++◌, Bool, true, false, ◌&&◌, not, Option, bit_or, bit_xor, none, some, bit_and,
  ◌or◌, u32, if◌then◌else◌, ◌==◌, ltb, leb, length, length-append, Bool-cases, ==_iff, append-nil,
  append_assoc,
}
use substitute.Common.Bits.{bit_or_digit, bit_or-zero, bit_or_field}
use substitute.Common.Bits.Xor.{bit_xor_digit, bit_xor-zero}
use substitute.Common.Bits.Mask.{mask_within}
use substitute.Dis.{op32, op16}
use substitute.Arm.Assemble.{AssembleCtx, movw_movt, blx_r, bcc_rel, divide_int}
use substitute.Arm.Assemble.MoveWide.{Loads, movw_movt-Loads}
use substitute.Arm.Context.{cc_armcc, cc_cbxz}
use substitute.Arm.Transform.State.{
  Ctx, code_at, tdctx_to_actx, put, invert_arm_cond, branch_top, goes_on, on_ret, on_indirect_call,
}
use substitute.Arm.Transform.{put_jump, move_size, on_branch}
use Pieces.{
  jump, put_jump_lem, or_low_word, branch_top-err, opposite, invert_arm_cond-opposite,
  invert_arm_cond-none, skip_over, bcc_rel-skip, length-skip_over, not_cbxz, blx_lr, blx_r-lr,
}

-- Are the conditions ones that the pass cannot turn round?
abbrev refused : ℕ → Bool
refused flags = (bit_and flags cc_armcc == cc_armcc) && leb 14 (bit_and flags 0xf)

-- The code for a branch: a jump over the rest if the branch has a condition, and the jump.
abbrev skip_of : Bool → ℕ → List ℕ
skip_of thumb flags =
    if bit_and flags cc_armcc == cc_armcc then skip_over thumb (bit_and flags 0xf) else []

-- What the context is after the branch.
abbrev Becomes : Ctx → ℕ → ℕ → Ctx → Type 0
Becomes ctx dpc flags after =
    let thumb = ctx.arch.pc_low_bit in
    (load : List ℕ) × Loads thumb 0xe 14 (u32 dpc or (if thumb then 1 else 0)) load
    × (after ≡ record (branch_top ctx dpc flags) {
      write_newop_here = none;
      rewritten = ctx.rewritten ++ (skip_of thumb flags ++ (load ++ blx_lr thumb));
    })

module _ (ctx : Ctx) (dpc flags : ℕ) where
  abbrev top : Ctx
  top = branch_top ctx dpc flags

  abbrev actx : AssembleCtx
  actx = tdctx_to_actx top

  abbrev cleared : Ctx
  cleared = record top { write_newop_here = none }

  abbrev short : ℕ
  short = if actx.thumb then 2 else 4

  plain_branch :
      (bit_and flags cc_armcc == cc_armcc) ≡ false
      → on_branch ctx dpc flags ≡ some (put (put cleared []) (jump actx.thumb dpc actx))
  unfolding on_branch tdctx_to_actx put
  plain_branch plain =
      rw (plain, not_cbxz flags plain)
        (put_jump_lem cleared actx dpc (move_size actx) (omega arith) (omega arith)
          ∙ ap (λ t. some (put (record cleared { rewritten = t }) (jump actx.thumb dpc actx)))
              (sym (append-nil top.rewritten)))

  refused_branch :
      (bit_and flags cc_armcc == cc_armcc) ≡ true
      → 14 ≤ bit_and flags 0xf
      → on_branch ctx dpc flags ≡ none
  unfolding on_branch
  refused_branch conditional large =
      rw (conditional, invert_arm_cond-none (bit_and flags 0xf) large) refl

  conditional_branch :
      (bit_and flags cc_armcc == cc_armcc) ≡ true
      → bit_and flags 0xf < 14
      → on_branch ctx dpc flags
        ≡ some (
            put (put cleared (skip_over actx.thumb (bit_and flags 0xf))) (jump actx.thumb dpc actx))
  unfolding on_branch put tdctx_to_actx
  conditional_branch conditional small =
      let cond = bit_and flags 0xf in
      let c = put cleared (skip_over actx.thumb cond) in
      let counted : length (top.rewritten ++ skip_over actx.thumb cond)
          ≡ length top.rewritten + short =
        length-append top.rewritten (skip_over actx.thumb cond)
        ∙ ap (λ t. length top.rewritten + t) (length-skip_over actx.thumb cond) in
      rw (conditional, invert_arm_cond-opposite cond small, bcc_rel-skip actx cond small)
        (put_jump_lem c actx dpc (move_size actx + short) (omega (arith, counted))
          (omega (arith, counted)))

  load : List ℕ
  load = movw_movt (record actx { cond = 0xe }) 14 (u32 dpc or (if actx.thumb then 1 else 0))

  -- The code put out, with the parts of the context that the check has left alone.
  emitted :
      (skip : List ℕ)
      → put (put cleared skip) (jump actx.thumb dpc actx) ≡ record top {
        write_newop_here = none;
        rewritten = ctx.rewritten ++ (skip ++ (load ++ blx_lr actx.thumb));
      }
  unfolding put jump load
  emitted skip =
      let kept : top.rewritten ≡ ctx.rewritten =
        ap (λ t. t.rewritten) (branch_top-err ctx dpc flags) in
      ap (λ r. record cleared { rewritten = r })
        (append_assoc top.rewritten skip (load ++ blx_r (record actx { cond = 0xe }) 14)
          ∙ ap (λ t. top.rewritten ++ (skip ++ (load ++ t)))
              (blx_r-lr (record actx { cond = 0xe }) refl)
          ∙ ap (λ t. t ++ (skip ++ (load ++ blx_lr actx.thumb))) kept)

  becomes :
      (skip : List ℕ)
      → skip ≡ skip_of actx.thumb flags
      → Becomes ctx dpc flags (put (put cleared skip) (jump actx.thumb dpc actx))
  unfolding load tdctx_to_actx
  becomes skip is_skip =
      let thumb_same : actx.thumb ≡ ctx.arch.pc_low_bit =
        ap (λ t. t.arch.pc_low_bit) (branch_top-err ctx dpc flags) in
      let bit : ℕ = if actx.thumb then 1 else 0 in
      let loads : Loads actx.thumb 0xe 14 (u32 dpc or bit) load =
        movw_movt-Loads (record actx { cond = 0xe }) 14 (u32 dpc or bit) (omega arith) (omega arith)
          (or_low_word dpc bit (ground arith)) in
      (
        load,
        subst (λ t. Loads t 0xe 14 (u32 dpc or (if t then 1 else 0)) load) thumb_same loads,
        emitted skip
            ∙ ap
                (λ s. record cleared {
                  rewritten = ctx.rewritten ++ (s ++ (load ++ blx_lr actx.thumb));
                })
                is_skip
            ∙ ap
                (λ t. record cleared {
                  rewritten = ctx.rewritten ++ (skip_of t flags ++ (load ++ blx_lr t));
                })
                thumb_same,
      )

abbrev pub Outcome : Ctx → ℕ → ℕ → Type 0
Outcome ctx dpc flags =
    ((refused flags ≡ true) × (on_branch ctx dpc flags ≡ none))
    ⊎ ((refused flags ≡ false)
        × ((after : Ctx) × (on_branch ctx dpc flags ≡ some after) × Becomes ctx dpc flags after))

-- A branch fails the assertion on its condition exactly where its flags have those of a condition
-- and the condition is not below 14. Any other branch is put out as MOVW and MOVT of its target,
-- with the Thumb bit, to LR and BLX LR, behind a branch with the opposite condition over them where
-- the flags have those of a condition, as those of CBZ and CBNZ have too. The assertion on the size
-- holds, no instruction is copied, and nothing changes beside that but the error.
pub on_branch-Outcome : (ctx : Ctx) (dpc flags : ℕ) → Outcome ctx dpc flags
unfolding on_branch
on_branch-Outcome ctx dpc flags =
    let thumb = (actx ctx dpc flags).thumb in
    let chosen = λ (b : Bool). if b then skip_over thumb (bit_and flags 0xf) else [] in
    elim (Bool-cases (bit_and flags cc_armcc == cc_armcc)) [
      | inl conditional ↦ elim (Bool-cases (leb 14 (bit_and flags 0xf))) [
        | inl large ↦ inl (ground arith, refused_branch ctx dpc flags conditional (ground arith))
        | inr small ↦ inr (
          ground arith,
          (
            _,
            conditional_branch ctx dpc flags conditional (ground arith),
            becomes ctx dpc flags (skip_over thumb (bit_and flags 0xf))
                (ap chosen (sym conditional)),
          ),
        )
      ]
      | inr plain ↦ inr (
        ground arith,
        (_, plain_branch ctx dpc flags plain, becomes ctx dpc flags [] (ap chosen (sym plain))),
      )
    ]
