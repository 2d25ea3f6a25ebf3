-- ===== src/TransformDis/Handlers.antt =====
-- What each handler leaves of the context.
use mathlib.Core.Path.{◌∙◌}
use substitute.Common.{
  ℕ, ◌+◌, ◌≤◌, ◌≡◌, ◌⊎◌, inl, inr, refl, arith, List, [], ◌∷◌, ◌++◌, Bool, true, false, ◌&&◌, none,
  some, length, length-append, Bool-cases, Option-cases, if◌then◌else◌, ◌==◌, ltb, leb, bit_and,
  bit_xor,
}
use substitute.Dis.{cc_conditional, cc_call}
use substitute.Dis.Event.{pcrel, branch, ret, indirect_call, unidentified, bad}
use substitute.Arm64.Assemble.{get_unwritten_temp_reg, mov_i64, size_of_mov_i64, bcc_rel, br}
use substitute.Arm64.Decode.{Arm64Event, PcrelInfo, cc_armcc, cc_xbxz}
use substitute.TransformDis.{
  Ctx, goes_on, on_indirect_call, on_ret, branch_top, pcrel_code, on_pcrel, branch_skip, on_branch,
  on_event,
}
use substitute.TransformDis.Length.{Handled, length-pcrel_code, length-mov_i64_le}

-- An error number, or the one that was there.
abbrev pub IsError : ℕ → ℕ → Type 0
IsError old e = (e ≡ old) ⊎ ((1 ≤ e) × (e ≤ 3))

on_ret-err : (ctx : Ctx) → (e : ℕ) × IsError ctx.err e × (on_ret ctx ≡ record ctx { err = e })
unfolding on_ret
on_ret-err ctx = elim (Bool-cases (goes_on ctx)) [
  | inl h ↦ (1, inr (omega arith, omega arith), rw h refl)
  | inr h ↦ (ctx.err, inl refl, rw h refl)
]

on_indirect_call-err :
    (ctx : Ctx) → (e : ℕ) × IsError ctx.err e × (on_indirect_call ctx ≡ record ctx { err = e })
unfolding on_indirect_call
on_indirect_call-err ctx = elim (Bool-cases (ctx.ban_calls && goes_on ctx)) [
  | inl h ↦ (3, inr (omega arith, omega arith), rw h refl)
  | inr h ↦ (ctx.err, inl refl, rw h refl)
]

pub branch_top-err :
    (ctx : Ctx) (dpc cc : ℕ)
    → (e : ℕ) × IsError ctx.err e × (branch_top ctx dpc cc ≡ record ctx { err = e })
unfolding branch_top
branch_top-err ctx dpc c =
    elim (Bool-cases (leb ctx.pc_patch_start dpc && ltb dpc ctx.pc_patch_end)) [
      | inl h ↦ (2, inr (omega arith, omega arith), rw h refl)
      | inr h ↦ elim (Bool-cases (bit_and c cc_call == 0)) [
        | inr k ↦ let (e, is, same) = on_indirect_call-err ctx in (e, is, rw (h, k) same)
        | inl k ↦ elim (Bool-cases (bit_and c cc_conditional == 0)) [
          | inl l ↦ let (e, is, same) = on_ret-err ctx in (e, is, rw (h, k, l) same)
          | inr l ↦ (ctx.err, inl refl, rw (h, k, l) refl)
        ]
      ]
    ]

module _ (ctx : Ctx) (ready : ctx.write_newop_here ≡ some (length ctx.rewritten)) where
  -- A handler that puts nothing out.
  err-Handled : (e : ℕ) → Handled ctx (record ctx { err = e })
  err-Handled e = record { at_pc = refl; start = refl; stop = refl; put_out = inl (ready, refl) }

  on_pcrel-Handled :
      (dpc : ℕ) (info : PcrelInfo) (after : Ctx)
      → on_pcrel ctx dpc info ≡ some after
      → Handled ctx after × (after.err ≡ ctx.err)
  unfolding on_pcrel
  on_pcrel-Handled dpc info after h =
      elim (Option-cases (pcrel_code ctx.regs_possibly_written dpc info)) [
        | inl e ↦ let h' = rw (e, on_pcrel) at h in cc
        | inr (code, e) ↦
            let h' = rw (e, on_pcrel) at h in
            let same : after
                ≡ record ctx { write_newop_here = none; rewritten = ctx.rewritten ++ code } =
              cc in
            let size = length-pcrel_code ctx.regs_possibly_written dpc info code e in
            rw same (
              record {
                at_pc = refl;
                start = refl;
                stop = refl;
                put_out = inr (
                  inl refl,
                  rw length-append (omega (arith, size)),
                  rw length-append (omega (arith, size)),
                );
              },
              refl,
            )
      ]

-- After the turned condition.
record Skipped (before after : Ctx) : Type 0 where
  at_pc : after.pc ≡ before.pc
  start : after.pc_patch_start ≡ before.pc_patch_start
  stop : after.pc_patch_end ≡ before.pc_patch_end
  place :
      (after.write_newop_here ≡ none) ⊎ (after.write_newop_here ≡ some (length before.rewritten))
  lo : length before.rewritten ≤ length after.rewritten
  hi : length after.rewritten ≤ length before.rewritten + 4

length-bcc_rel : (c offset : ℕ) → length (bcc_rel c offset) ≡ 4
unfolding bcc_rel
length-bcc_rel c offset = refl

length-br : (reg : ℕ) (link : Bool) → length (br reg link) ≡ 4
unfolding br
length-br reg link = refl

branch_skip-Skipped : (ctx : Ctx) (dpc c : ℕ) → Skipped ctx (branch_skip ctx dpc c)
unfolding branch_skip
branch_skip-Skipped ctx dpc c =
    let longer : (xs : List ℕ)
        → length xs ≡ 4
        → length (ctx.rewritten ++ xs) ≡ length ctx.rewritten + 4 =
      λ xs h. length-append ctx.rewritten xs ∙ omega (arith, h) in
    elim (Bool-cases (bit_and c cc_armcc == cc_armcc)) [
      | inl h ↦
          let size =
            longer _ (length-bcc_rel (bit_xor (bit_and c 0xf) 1) (4 + (size_of_mov_i64 dpc + 4))) in
          rw h (record {
            at_pc = refl;
            start = refl;
            stop = refl;
            place = inl refl;
            lo = omega (arith, size);
            hi = omega (arith, size);
          })
      | inr h ↦ elim (Bool-cases (bit_and c cc_xbxz == cc_xbxz)) [
        | inl k ↦
            let size = longer (0 ∷ 0 ∷ 0 ∷ 0 ∷ []) refl in
            rw (h, k)
              (record {
                at_pc = refl;
                start = refl;
                stop = refl;
                place = inr refl;
                lo = omega (arith, size);
                hi = omega (arith, size);
              })
        | inr k ↦
            rw (h, k)
              (record {
                at_pc = refl;
                start = refl;
                stop = refl;
                place = inl refl;
                lo = omega arith;
                hi = omega arith;
              })
      ]
    ]

branch_skip-err : (ctx : Ctx) (dpc c : ℕ) → (branch_skip ctx dpc c).err ≡ ctx.err
unfolding branch_skip
branch_skip-err ctx dpc c = ground arith

add_jump-Handled :
    (before skip : Ctx) (reg dpc : ℕ) (link : Bool)
    → Skipped before skip
    → Handled before
        (record skip { rewritten = skip.rewritten ++ (mov_i64 reg dpc ++ br reg link) })
add_jump-Handled before skip reg dpc link s =
    let inner = length-append (mov_i64 reg dpc) (br reg link) in
    let size = length-append skip.rewritten (mov_i64 reg dpc ++ br reg link) in
    record {
      at_pc = s.at_pc;
      start = s.start;
      stop = s.stop;
      put_out = inr (
        s.place,
        omega (arith, size, inner, length-mov_i64_le reg dpc, length-br reg link, s.lo),
        omega (arith, size, inner, length-mov_i64_le reg dpc, length-br reg link, s.hi),
      );
    }

on_branch-Handled :
    (ctx : Ctx) (dpc c : ℕ) (after : Ctx)
    → on_branch ctx dpc c ≡ some after
    → Handled ctx after × IsError ctx.err after.err
unfolding on_branch
on_branch-Handled ctx dpc c after h =
    let (e, is, top) = branch_top-err ctx dpc c in
    let skip = branch_skip (branch_top ctx dpc c) dpc c in
    let s = branch_skip-Skipped (record ctx { err = e }) dpc c in
    let skipped : Skipped ctx skip = rw top (record {
      at_pc = s.at_pc;
      start = s.start;
      stop = s.stop;
      place = s.place;
      lo = s.lo;
      hi = s.hi;
    }) in
    elim (Option-cases (get_unwritten_temp_reg skip.regs_possibly_written)) [
      | inl k ↦ let h' = rw (k, on_branch) at h in cc
      | inr (reg, k) ↦
          let link = if bit_and c cc_call == 0 then false else true in
          let h' = rw (k, on_branch) at h in
          let same : after
              ≡ record skip { rewritten = skip.rewritten ++ (mov_i64 reg dpc ++ br reg link) } =
            cc in
          rw same (
            add_jump-Handled ctx skip reg dpc link skipped,
            rw (branch_skip-err (branch_top ctx dpc c) dpc c, top) is,
          )
    ]

-- A handler leaves the error of the context or sets one of the three.
pub on_event-Handled :
    (ctx : Ctx) (e : Arm64Event) (after : Ctx)
    → ctx.write_newop_here ≡ some (length ctx.rewritten)
    → on_event ctx e ≡ some after
    → Handled ctx after × IsError ctx.err after.err
unfolding on_event
on_event-Handled ctx (pcrel dpc info) after w h =
    let (handled, same) = on_pcrel-Handled ctx w dpc info after h in (handled, inl same)
on_event-Handled ctx (branch dpc c) after w h = on_branch-Handled ctx dpc c after h
on_event-Handled ctx ret after w h =
    let (e, is, same) = on_ret-err ctx in
    let this : after ≡ record ctx { err = e } = cc in rw this (err-Handled ctx w e, is)
on_event-Handled ctx indirect_call after w h =
    let (e, is, same) = on_indirect_call-err ctx in
    let this : after ≡ record ctx { err = e } = cc in rw this (err-Handled ctx w e, is)
on_event-Handled ctx unidentified after w h =
    let this : after ≡ ctx = cc in rw this (err-Handled ctx w ctx.err, inl refl)
on_event-Handled ctx bad after w h =
    let this : after ≡ record ctx { err = 2 } = cc in
    rw this (err-Handled ctx w 2, inr (omega arith, omega arith))
