-- ===== src/Arm/Transform.antt =====
-- lib/arm/arch-transform-dis.inc.h with lib/transform-dis.c on 32-bit ARM: what the pass does at the
-- calls of the disassembler. `none` is an assertion that fails.
pub mod State
mod Data
pub mod Branch
mod Tests
use substitute.Common.{
  ℕ, zero, suc, ◌+◌, ◌-◌, ◌*◌, ◌/◌, ◌%◌, ◌^◌, List, [], ◌∷◌, ◌++◌, Bool, true, false, ◌&&◌, ◌||◌,
  not, Option, none, some, bit_and, bit_xor, ◌or◌, ◌>>>◌, ◌<<<◌, if◌then◌else◌, ◌==◌, ltb, leb,
  length, get_or, map, take, drop, replicate, u16, u32, not32,
}
use substitute.Dis.{PcrelLoadMode, cc_conditional, cc_call}
use substitute.Arm.Assemble.{
  AssembleCtx, push_one, pop_one, pop_multi, movw_movt, str_ri, ldr_xi, blx_r, bcc_rel,
}
use substitute.Arm.Context.{
  PcrelInfo, ArchDisCtx, Event, cc_armcc, cc_cbxz, null_op, dflag_is_ldrd_strd,
}
use substitute.Arm.Context.Event.{
  pcrel, branch, operands, ret, indirect_call, unidentified, bad, thumb_it,
}
use substitute.Arm.Dis.Thumb.{ctz}
use State.{
  Ctx, err_func_bad_insn_at_start, tdctx_to_actx, invert_arm_cond, put, on_ret, on_indirect_call,
  branch_top, code_at,
}
use Data.{on_data}

unfoldable pub on_pcrel : Ctx → ℕ → PcrelInfo → Option Ctx
on_pcrel ctx dpc info =
    let actx = tdctx_to_actx ctx in
    let c = record ctx { write_newop_here = none } in
    let load = λ (reg : ℕ). elim info.load_mode as (λ m. Option (List ℕ)) [
      | PcrelLoadMode.adr ↦ some []
      | mode ↦ ldr_xi actx reg reg 0 mode
    ] in
    if info.reg == 15
    then (elim (load 0) [
      | none ↦ none
      | some code ↦ some (
          on_ret (
            put c (
              push_one actx 0
              ++ (push_one actx 0
                  ++ (movw_movt actx 0 dpc
                      ++ (code ++ (str_ri actx 0 13 4 ++ pop_multi actx (1 or 1 <<< 15))))))))
    ])
    else (elim (load info.reg) [
      | none ↦ none
      | some code ↦ some (put c (movw_movt actx info.reg dpc ++ code))
    ])

abbrev pub move_size : AssembleCtx → ℕ
move_size actx = 8 + (if actx.thumb then 2 else 4)

-- The jump itself, which is always BLX through LR, and the assertion on the size of it all.
unfoldable pub put_jump : Ctx → AssembleCtx → ℕ → ℕ → Option Ctx
put_jump ctx actx dpc replacement_size =
    let always = record actx { cond = 0xe } in
    let low_bit = if ctx.arch.pc_low_bit then 1 else 0 in
    let jump = movw_movt always 14 (u32 dpc or low_bit) ++ blx_r always 14 in
    let after = put ctx jump in
    if code_at after - actx.code_base == replacement_size then some after else none

unfoldable pub on_branch : Ctx → ℕ → ℕ → Option Ctx
on_branch ctx dpc cc =
    let top = branch_top ctx dpc cc in
    let actx = tdctx_to_actx top in
    let c = record top { write_newop_here = none } in
    let size = move_size actx in
    if bit_and cc cc_armcc == cc_armcc
    then (elim (invert_arm_cond (bit_and cc 0xf)) [
      | none ↦ none
      | some cond ↦
          let skip_size = size + (if actx.thumb then 2 else 4) in
          let skip = bcc_rel (record actx { cond = cond }) skip_size in
          put_jump (put c skip) actx dpc skip_size
    ])
    else if bit_and cc cc_cbxz == cc_cbxz
    then put_jump
        (record c {
          modify = true;
          newval =
              u32 (actx.pc_of_code_base + (size + 2))
              ∷ 1
              ∷ get_or c.newval 2 0
              ∷ get_or c.newval 3 0
              ∷ [];
          write_newop_here = some (length c.rewritten);
          rewritten = c.rewritten ++ (0 ∷ 0 ∷ []);
        })
        actx dpc (size + 2)
    else put_jump c actx dpc size

-- What a shift by the -1 for no register gives.
module _ (shift_by_minus_1 : ℕ) where
  -- The functions `transform_dis_` of the disassembler; `none` is an abort.
  unfoldable pub on_event : Ctx → Event → Option Ctx
  on_event ctx (pcrel dpc info) = on_pcrel ctx dpc info
  on_event ctx (branch dpc cc) = on_branch ctx dpc cc
  on_event ctx (operands o0 o1 o2 o3 out_mask) =
      some (on_data shift_by_minus_1 ctx o0 o1 o2 o3 out_mask)
  on_event ctx ret = some (on_ret ctx)
  on_event ctx indirect_call = some (on_indirect_call ctx)
  on_event ctx unidentified = some ctx
  on_event ctx bad = some (record ctx { err = err_func_bad_insn_at_start })
  on_event ctx thumb_it = some ctx

-- Two bytes are left free for the branch over an instruction in an IT block.
unfoldable pub pre_dis : Ctx → Option Ctx
pre_dis ctx =
    let cond = get_or ctx.arch.it_conds 0 0 in
    if cond == 0xe then some (record ctx { bccrel_p = none }) else (elim (invert_arm_cond cond) [
      | none ↦ none
      | some bits ↦ some (record ctx {
        bccrel_bits = bits;
        bccrel_p = some (length ctx.rewritten);
        rewritten = ctx.rewritten ++ (0 ∷ 0 ∷ []);
      })
    ])

unfoldable pub overwrite : List ℕ → ℕ → List ℕ → List ℕ
overwrite out at bytes = take at out ++ (bytes ++ drop (at + length bytes) out)

unfoldable pub post_dis : Ctx → Ctx
unfolding overwrite
post_dis ctx =
    let kept = record ctx { force_keep_transforming = not (get_or ctx.arch.it_conds 0 0 == 0xe) } in
    elim ctx.bccrel_p as (λ p. Ctx) [
      | none ↦ kept
      | some at ↦
          let actx : AssembleCtx = record {
            at = ctx.start + at;
            code_base = ctx.start + at;
            pc_of_code_base = u32 (ctx.start + at);
            thumb = true;
            cond = ctx.bccrel_bits;
          } in
          record kept {
            rewritten = overwrite ctx.rewritten at (bcc_rel actx (length ctx.rewritten - at));
          }
    ]
