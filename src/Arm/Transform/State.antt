-- ===== src/Arm/Transform/State.antt =====
-- The context of lib/transform-dis.c on 32-bit ARM, and the checks and the writers that the calls
-- of the disassembler share. The buffer that `*rewritten_ptr_ptr` walks through is the list of the
-- bytes before it, and starts at the address `start`.
use substitute.Common.{
  ℕ, ◌+◌, List, ◌++◌, Bool, ◌&&◌, Option, none, some, bit_and, bit_xor, ◌>>>◌, if◌then◌else◌, ◌==◌,
  ltb, leb, length, replicate, u32,
}
use substitute.Dis.{cc_conditional, cc_call}
use substitute.Arm.Assemble.{AssembleCtx}
use substitute.Arm.Context.{ArchDisCtx}

abbrev pub err_func_too_short : ℕ
err_func_too_short = 1

abbrev pub err_func_bad_insn_at_start : ℕ
err_func_bad_insn_at_start = 2

abbrev pub err_func_calls_at_start : ℕ
err_func_calls_at_start = 3

-- `struct transform_dis_ctx`. `write_newop_here` and `bccrel_p` are offsets into the buffer, or none
-- for NULL; `newval` is its four numbers.
pub record Ctx : Type 0 where
  pub err : ℕ
  pub pc : ℕ
  pub op : ℕ
  pub op_size : ℕ
  pub modify : Bool
  pub newval : List ℕ
  pub pc_patch_start : ℕ
  pub pc_patch_end : ℕ
  pub force_keep_transforming : Bool
  pub ban_calls : Bool
  pub start : ℕ
  pub rewritten : List ℕ
  pub write_newop_here : Option ℕ
  pub arch : ArchDisCtx
  pub bccrel_bits : ℕ
  pub bccrel_p : Option ℕ

-- Does the patch go on after this instruction?
unfoldable pub goes_on : Ctx → Bool
goes_on ctx = ltb (u32 (ctx.pc + ctx.op_size)) ctx.pc_patch_end

unfoldable pub on_indirect_call : Ctx → Ctx
on_indirect_call ctx =
    if ctx.ban_calls && goes_on ctx then record ctx { err = err_func_calls_at_start } else ctx

unfoldable pub on_ret : Ctx → Ctx
on_ret ctx = if goes_on ctx then record ctx { err = err_func_too_short } else ctx

unfoldable pub branch_top : Ctx → ℕ → ℕ → Ctx
branch_top ctx dpc cc =
    if leb ctx.pc_patch_start dpc && ltb dpc ctx.pc_patch_end
    then record ctx { err = err_func_bad_insn_at_start }
    else if bit_and cc cc_call == 0
    then (if bit_and cc cc_conditional == 0 then on_ret ctx else ctx)
    else on_indirect_call ctx

-- Where the code that is put out stands.
abbrev pub code_at : Ctx → ℕ
code_at ctx = ctx.start + length ctx.rewritten

unfoldable pub tdctx_to_actx : Ctx → AssembleCtx
tdctx_to_actx ctx = record {
  at = code_at ctx;
  code_base = code_at ctx;
  pc_of_code_base = u32 (code_at ctx);
  thumb = ctx.arch.pc_low_bit;
  cond = if ctx.arch.pc_low_bit then (if ctx.op >>> 28 == 0xf then 0xe else ctx.op >>> 28) else 0;
}

unfoldable pub invert_arm_cond : ℕ → Option ℕ
invert_arm_cond cc = if ltb cc 0xe then some (bit_xor cc 1) else none

unfoldable pub put : Ctx → List ℕ → Ctx
put ctx code = record ctx { rewritten = ctx.rewritten ++ code }

-- Room of the size of the instruction, in which it is copied later.
unfoldable pub put_newop : Ctx → Ctx
put_newop ctx = record ctx {
  write_newop_here = some (length ctx.rewritten);
  rewritten = ctx.rewritten ++ replicate ctx.op_size 0;
}
