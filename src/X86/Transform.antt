-- ===== src/X86/Transform.antt =====
-- lib/transform-dis.c with lib/x86/arch-transform-dis.inc.h on x86-64: the rewriting of the
-- instructions under a patch. The buffer is the list of the bytes before `*rewritten_ptr_ptr`; bytes
-- that a handler leaves for the new instruction are zeros until it is copied there.
pub mod Place
pub mod Offsets
pub mod Insn
pub mod Passes
pub mod Handlers
pub mod Ends
use substitute.Common.{
  ℕ, zero, suc, ◌+◌, ◌-◌, ◌*◌, ◌/◌, ◌%◌, ◌^◌, List, [], ◌∷◌, ◌++◌, Bool, true, false, not, ◌&&◌,
  Option, none, some, if◌then◌else◌, ◌==◌, ltb, leb, bit_and, length, replicate, take, drop, u8,
  u32, u64, sub64,
}
use substitute.Dis.{op8, op64, cc_conditional, cc_call}
use substitute.Dis.Event.{pcrel, branch, ret, indirect_call, unidentified, bad}
use substitute.TransformDis.{
  add_offset, overwrite, err_func_too_short, err_func_bad_insn_at_start, err_func_calls_at_start,
}
use substitute.X86.JumpPatch.{jump_patch_size, make_jmp_or_call, make_jump_patch}
use substitute.X86.Decode.{Opcode, Step, X86Event, PcrelInfo, opcode_from, op_size, events}
use substitute.X86.Decode.Step.{restart, opcode, bad_opcode, aborted}
use substitute.X86.Newop.{bytes_from, newop}

-- `struct transform_dis_ctx`, with the members of `base` that the handlers use.
pub record Ctx : Type 0 where
  pub err : ℕ
  pub pc : ℕ
  pub insn_size : ℕ
  pub modify : Bool
  pub newval_0 : ℕ
  pub newval_1 : ℕ
  pub pc_trampoline : ℕ
  pub pc_patch_start : ℕ
  pub pc_patch_end : ℕ
  pub ban_calls : Bool
  pub rewritten : List ℕ
  pub write_newop_here : Option ℕ

unfoldable pub push_mov_head : ℕ → Bool → List ℕ
push_mov_head imm rax =
    op8 (if rax then 0x50 else 0x51) ++ (op8 0x48 ++ (op8 (if rax then 0xb8 else 0xb9) ++ op64 imm))

unfoldable pub push_mov_tail : Bool → List ℕ
push_mov_tail rax = op8 (if rax then 0x58 else 0x59)

unfoldable pub goes_on : Ctx → Bool
goes_on ctx = ltb (u64 (ctx.pc + ctx.insn_size)) ctx.pc_patch_end

unfoldable pub on_indirect_call : Ctx → Ctx
on_indirect_call ctx =
    if ctx.ban_calls && goes_on ctx then record ctx { err = err_func_calls_at_start } else ctx

unfoldable pub on_ret : Ctx → Ctx
on_ret ctx = if goes_on ctx then record ctx { err = err_func_too_short } else ctx

unfoldable pub branch_top : Ctx → ℕ → ℕ → Ctx
branch_top ctx dpc cc =
    if leb ctx.pc_patch_start dpc && ltb dpc ctx.pc_patch_end
    then record ctx { err = err_func_bad_insn_at_start }
    else if bit_and cc cc_call == 0
    then (if bit_and cc cc_conditional == 0 then on_ret ctx else ctx)
    else on_indirect_call ctx

-- A jump through memory pushes the target's address below the stack and reads it from there; any
-- other instruction gets the address in rcx, or in rax if it may use rcx.
unfoldable pub on_pcrel : Ctx → ℕ → PcrelInfo → Ctx
on_pcrel ctx dpc info =
    if info.is_jump
    then (let before =
          ctx.rewritten
          ++ (push_mov_head dpc true
              ++ ((0x48 ∷ 0x89 ∷ 0x44 ∷ 0x24 ∷ 0xf8 ∷ []) ++ push_mov_tail true)) in
        record ctx {
          modify = true;
          newval_0 = 4;
          newval_1 = u32 (2 ^ 32 - 0x10);
          write_newop_here = some (length before);
          rewritten = before ++ replicate (ctx.insn_size - 2) 0;
        })
    else (let rax = info.reg == 1 in
        let before = ctx.rewritten ++ push_mov_head dpc rax in
        record ctx {
          modify = true;
          newval_0 = if rax then 0 else 1;
          newval_1 = 0;
          write_newop_here = some (length before);
          rewritten = before ++ (replicate (ctx.insn_size - 4) 0 ++ push_mov_tail rax);
        })

-- `call .; pop %some`
unfoldable pub call_next : Ctx → ℕ → Ctx
call_next ctx dpc = record ctx {
  write_newop_here = none;
  rewritten =
      ctx.rewritten
      ++ (op8 0x50
          ++ (push_mov_head dpc true
              ++ ((0x48 ∷ 0x8b ∷ 0x44 ∷ 0x24 ∷ 0x08 ∷ []) ++ push_mov_tail true)));
}

-- A conditional branch is kept, to jump over a jump past its new target.
unfoldable pub conditional_code : ℕ → ℕ → ℕ → List ℕ
conditional_code pc_trampoline insn_size dpc =
    let source = u64 (pc_trampoline + insn_size + 2) in
    let size : ℕ = elim (jump_patch_size source dpc true) [ none ↦ 0xff | some n ↦ n ] in
    replicate insn_size 0 ++ (op8 0xeb ++ (op8 size ++ make_jump_patch source dpc))

unfoldable pub on_branch : Ctx → ℕ → ℕ → Ctx
on_branch ctx dpc cc =
    if (dpc == u64 (ctx.pc + ctx.insn_size)) && not (bit_and cc cc_call == 0)
    then call_next ctx dpc
    else (let top = branch_top ctx dpc cc in
        if bit_and cc cc_conditional == 0
        then record top {
          write_newop_here = none;
          rewritten =
              top.rewritten
              ++ make_jmp_or_call top.pc_trampoline dpc (not (bit_and cc cc_call == 0));
        }
        else on_ret (record top {
          modify = true;
          newval_0 = 2;
          write_newop_here = some (length top.rewritten);
          rewritten = top.rewritten ++ conditional_code top.pc_trampoline top.insn_size dpc;
        }))

unfoldable pub on_event : Ctx → X86Event → Ctx
on_event ctx (pcrel dpc info) = on_pcrel ctx dpc info
on_event ctx (branch dpc cc) = on_branch ctx dpc cc
on_event ctx ret = on_ret ctx
on_event ctx indirect_call = on_indirect_call ctx
on_event ctx unidentified = ctx
on_event ctx bad = record ctx { err = err_func_bad_insn_at_start }

unfoldable pub on_events : Ctx → List X86Event → Ctx
on_events ctx [] = ctx
on_events ctx (e ∷ es) = on_events (on_event ctx e) es

module _ (read : ℕ → ℕ) where
  -- The copy of the instruction, or of its new form, to the place that is left. A copy to the end of
  -- the buffer advances the end by the instruction.
  unfoldable pub copy_insn : Opcode → Ctx → Ctx
  copy_insn o ctx = elim ctx.write_newop_here [
    | none ↦ ctx
    | some at ↦
        let bytes =
          if ctx.modify
          then newop read o ctx.newval_0 ctx.newval_1
          else bytes_from read 0 ctx.insn_size in
        record ctx { rewritten = overwrite ctx.rewritten at bytes }
  ]

pub record Rewritten : Type 0 where
  pub code : List ℕ
  pub pc_patch_end : ℕ
  pub offsets : List (Option ℕ)

pub data Result : Type 0 where
  done : Rewritten → Result
  failed : ℕ → Result
  aborts out_of_fuel : Result

-- `read` gives the byte at an offset from `code_ptr`. `prefixes` bounds the prefixes of one
-- instruction, and the fuel of `rewrite` the instructions.
module _ (read : ℕ → ℕ) (pc_trampoline prefixes : ℕ) where
  abbrev pub here : Ctx → ℕ → ℕ
  here ctx off = read (sub64 ctx.pc ctx.pc_patch_start + off)

  -- What the handlers are called on, with the size of the instruction.
  unfoldable pub begin_insn : Ctx → ℕ → Ctx
  begin_insn ctx insn_size = record ctx {
    modify = false;
    err = 0;
    insn_size = insn_size;
    pc_trampoline = u64 (pc_trampoline + length ctx.rewritten);
    write_newop_here = some (length ctx.rewritten);
  }

  -- One round: an error, an end, or the next context.
  pub data Round : Type 0 where
    go_on : Ctx → Round
    halt : Result → Round

  unfoldable pub finish_insn : Ctx → Opcode → Ctx → Round
  finish_insn ctx o seen =
      if seen.err == 0
      then (let copied = copy_insn (here ctx) o seen in
          go_on (record copied { pc = u64 (copied.pc + copied.insn_size) }))
      else halt (failed seen.err)

  unfoldable pub round : Ctx → Round
  round ctx = elim (opcode_from (here ctx) prefixes 0 4 0) [
    | none ↦ halt out_of_fuel
    | some (restart off opnd_size rm) ↦ halt out_of_fuel
    | some bad_opcode ↦ halt (failed err_func_bad_insn_at_start)
    | some aborted ↦ halt aborts
    | some (opcode o) ↦ elim (events (here ctx) ctx.pc o) [
      | none ↦ halt aborts
      | some calls ↦ finish_insn ctx o (on_events (begin_insn ctx (op_size (here ctx) o)) calls)
    ]
  ]

  unfoldable pub rewrite : ℕ → Ctx → List (Option ℕ) → Result
  rewrite zero ctx offsets = out_of_fuel
  rewrite (suc fuel) ctx offsets = elim (ltb ctx.pc ctx.pc_patch_end) [
    | false ↦ done (record { code = ctx.rewritten; pc_patch_end = ctx.pc; offsets = offsets })
    | true ↦ elim (round ctx) [
      | halt result ↦ result
      | go_on passed ↦
          rewrite fuel passed
            (add_offset offsets (sub64 passed.pc passed.pc_patch_start) (length passed.rewritten))
    ]
  ]

  unfoldable pub begin : ℕ → ℕ → Bool → Ctx
  begin pc_patch_start pc_patch_end ban_calls = record {
    err = 0;
    pc = pc_patch_start;
    insn_size = 0;
    modify = false;
    newval_0 = 0;
    newval_1 = 0;
    pc_trampoline = 0;
    pc_patch_start = pc_patch_start;
    pc_patch_end = pc_patch_end;
    ban_calls = ban_calls;
    rewritten = [];
    write_newop_here = none;
  }

  unfoldable pub transform_dis_main : ℕ → ℕ → Bool → Result
  transform_dis_main pc_patch_start pc_patch_end ban_calls =
      rewrite (suc (pc_patch_end - pc_patch_start)) (begin pc_patch_start pc_patch_end ban_calls)
        (some 0 ∷ [])
