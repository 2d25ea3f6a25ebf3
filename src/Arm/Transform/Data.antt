-- ===== src/Arm/Transform/Data.antt =====
-- `transform_dis_data` of lib/arm/arch-transform-dis.inc.h.
use substitute.Common.{
  ℕ, ◌+◌, List, [], ◌∷◌, ◌++◌, Bool, true, false, ◌||◌, not, Option, none, some, bit_and, ◌or◌,
  ◌<<<◌, if◌then◌else◌, ◌==◌, map, u16, u32, not32,
}
use substitute.Arm.Assemble.{AssembleCtx, push_one, pop_one, pop_multi, movw_movt, str_ri}
use substitute.Arm.Context.{null_op, dflag_is_ldrd_strd}
use substitute.Arm.Dis.Thumb.{ctz}
use substitute.Arm.Transform.State.{Ctx, tdctx_to_actx, put, put_newop, on_ret}

-- `1 << n` is not defined for the -1 that stands for no register: what it gives is a parameter.
module _ (shift_by_minus_1 : ℕ) where
  abbrev bit_of_out : Option ℕ → ℕ
  bit_of_out none = shift_by_minus_1
  bit_of_out (some n) = u32 (1 <<< n)

  -- The loop over the four operands, from the one at `i`: the registers read, and the one written.
  unfoldable pub operand_regs : List ℕ → ℕ → ℕ → ℕ → Option ℕ → ℕ × Option ℕ
  operand_regs [] i out_mask in_regs out_reg = (in_regs, out_reg)
  operand_regs (v ∷ vs) i out_mask in_regs out_reg =
      let is_out = not (bit_and out_mask (1 <<< i) == 0) in
      let used = if is_out || (v == null_op) then in_regs else u16 (in_regs or u32 (1 <<< v)) in
      operand_regs vs (i + 1) out_mask used (if is_out then some v else out_reg)

  unfoldable pub scratch_of : ℕ → Option ℕ → ℕ
  unfolding ctz
  scratch_of in_regs out_reg = ctz 32 (not32 (in_regs or bit_of_out out_reg))

  abbrev replace_pc : List ℕ → ℕ → List ℕ
  replace_pc newval reg = map (λ v. if v == 15 then reg else v) newval

  -- An instruction that writes PC; `reads_pc` returns as the source has it.
  unfoldable pub data_out_pc : Ctx → AssembleCtx → Bool → ℕ → ℕ → Ctx
  data_out_pc ctx actx reads_pc pc scratch =
      let before =
        put (record ctx { newval = replace_pc ctx.newval scratch })
          (push_one actx scratch ++ (push_one actx scratch ++ movw_movt actx scratch pc)) in
      let after =
        put (put_newop before)
          (str_ri actx scratch 13 4 ++ pop_multi actx (u32 (1 <<< scratch) or 1 <<< 15)) in
      let moved = record after { modify = true } in
      if reads_pc then ctx else if actx.cond == 0xe then moved else on_ret moved

  -- An instruction that reads PC, with the register that it writes to hand or with the stack.
  unfoldable pub data_in_pc : Ctx → AssembleCtx → ℕ → Option ℕ → ℕ → ℕ → Ctx
  data_in_pc ctx actx in_regs out_reg pc scratch =
      let by_stack =
        record (put
          (put_newop (
            put (record ctx { newval = replace_pc ctx.newval scratch })
              (push_one actx scratch ++ movw_movt actx scratch pc)))
          (pop_one actx scratch)) { modify = true } in
      elim out_reg as (λ o. Ctx) [
        | none ↦ by_stack
        | some out ↦
            if bit_and in_regs (u32 (1 <<< out)) == 0
            then record (put_newop
                (put (record ctx { newval = replace_pc ctx.newval out }) (movw_movt actx out pc))) {
                  modify = true;
                }
            else by_stack
      ]

  abbrev is_pc : Option ℕ → Bool
  is_pc none = false
  is_pc (some n) = n == 15

  unfoldable pub on_data : Ctx → ℕ → ℕ → ℕ → ℕ → ℕ → Ctx
  unfolding operand_regs scratch_of
  on_data ctx o0 o1 o2 o3 out_mask =
      let actx = tdctx_to_actx ctx in
      let vals = o0 ∷ o1 ∷ o2 ∷ o3 ∷ [] in
      let regs = operand_regs vals 0 out_mask 0 none in
      let in_regs =
        if bit_and out_mask dflag_is_ldrd_strd == 0
        then regs.0
        else u16 (regs.0 or u32 (1 <<< (o0 + 1))) in
      let pc = u32 (ctx.pc + (if ctx.arch.pc_low_bit then 4 else 8)) in
      let scratch = scratch_of in_regs regs.1 in
      let c = record ctx { newval = vals } in
      let reads_pc = not (bit_and in_regs (1 <<< 15) == 0) in
      if bit_and (o0 or o1 or o2 or o3) 15 == 15
      then (if is_pc regs.1
          then data_out_pc c actx reads_pc pc scratch
          else if reads_pc
          then data_in_pc c actx in_regs regs.1 pc scratch
          else c)
      else ctx
