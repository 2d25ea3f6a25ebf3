-- ===== src/TransformDis.antt =====
-- lib/transform-dis.c and lib/arm64/arch-transform-dis.inc.h: the rewriting of the instructions
-- under a patch, so that they can run elsewhere. `read` gives the word at an offset from `code_ptr`.
-- The buffer that `*rewritten_ptr_ptr` walks through is the list of the bytes before it. On AArch64
-- nothing sets `force_keep_transforming`, and `op_size` and `newop_size` are 4.
pub mod Length
pub mod Handlers
pub mod Entries
pub mod Table
pub mod Branch
mod Tests
use substitute.Common.{
  ℕ, zero, suc, ◌+◌, ◌-◌, ◌*◌, ◌^◌, List, [], ◌∷◌, ◌++◌, Bool, true, false, ◌&&◌, Option, none,
  some, bit_and, bit_xor, ◌or◌, ◌>>>◌, ◌<<<◌, if◌then◌else◌, ◌==◌, ltb, leb, length, take, drop,
  replicate, u32, u64, sub64,
}
use substitute.Dis.{PcrelLoadMode, op32, cc_conditional, cc_call}
use substitute.Dis.PcrelLoadMode.{u32_simd, u64_simd, u128_simd}
use substitute.Dis.Event.{pcrel, branch, ret, indirect_call, unidentified, bad}
use substitute.Arm64.Assemble.{
  get_unwritten_temp_reg, size_of_mov_i64, mov_i64, ldr_xi, bcc_rel, br,
}
use substitute.Arm64.Tree.{Insn, find_insn}
use substitute.Arm64.Decode.{
  Arm64Event, PcrelInfo, dis, cc_armcc, cc_xbxz, imm_19, imm_14, tbrcond_newop,
}

abbrev pub err_func_too_short : ℕ
err_func_too_short = 1

abbrev pub err_func_bad_insn_at_start : ℕ
err_func_bad_insn_at_start = 2

abbrev pub err_func_calls_at_start : ℕ
err_func_calls_at_start = 3

-- `struct transform_dis_ctx`. `write_newop_here` is an offset into the buffer, or none for NULL.
pub record Ctx : Type 0 where
  pub err : ℕ
  pub pc : ℕ
  pub op : ℕ
  pub modify : Bool
  pub newval_0 : ℕ
  pub newval_1 : ℕ
  pub pc_trampoline : ℕ
  pub pc_patch_start : ℕ
  pub pc_patch_end : ℕ
  pub ban_calls : Bool
  pub rewritten : List ℕ
  pub write_newop_here : Option ℕ
  pub regs_possibly_written : ℕ

-- Does the patch go on after this instruction?
unfoldable pub goes_on : Ctx → Bool
goes_on ctx = ltb (u64 (ctx.pc + 4)) ctx.pc_patch_end

unfoldable pub on_indirect_call : Ctx → Ctx
on_indirect_call ctx =
    if ctx.ban_calls && goes_on ctx then record ctx { err = err_func_calls_at_start } else ctx

unfoldable pub on_ret : Ctx → Ctx
on_ret ctx = if goes_on ctx then record ctx { err = err_func_too_short } else ctx

unfoldable pub branch_top : Ctx → ℕ → ℕ → Ctx
branch_top ctx dpc cc =
    if leb ctx.pc_patch_start dpc && ltb dpc ctx.pc_patch_end
    then record ctx { err = err_func_bad_insn_at_start }
    else if bit_and cc cc_call == 0
    then (if bit_and cc cc_conditional == 0 then on_ret ctx else ctx)
    else on_indirect_call ctx

unfoldable pub is_simd : PcrelLoadMode → Bool
is_simd u32_simd = true
is_simd u64_simd = true
is_simd u128_simd = true
is_simd _ = false

-- The code for a PC-relative instruction. The moves of the SIMD forms go to x0, and their loads to
-- the temporary register.
unfoldable pub pcrel_code : ℕ → ℕ → PcrelInfo → Option (List ℕ)
pcrel_code regs dpc info =
    if is_simd info.load_mode
    then (elim (get_unwritten_temp_reg regs) [
      | none ↦ none
      | some temp ↦ elim (ldr_xi temp 0 0 true info.load_mode) [
        | none ↦ none
        | some load ↦ some (mov_i64 0 dpc ++ load)
      ]
    ])
    else (elim (ldr_xi info.reg info.reg 0 true info.load_mode) [
      | none ↦ none
      | some load ↦ some (mov_i64 info.reg dpc ++ load)
    ])

unfoldable pub on_pcrel : Ctx → ℕ → PcrelInfo → Option Ctx
on_pcrel ctx dpc info = elim (pcrel_code ctx.regs_possibly_written dpc info) [
  | none ↦ none
  | some code ↦ some (record ctx { write_newop_here = none; rewritten = ctx.rewritten ++ code })
]

-- A conditional branch is turned round, to skip the jump. For CBZ and TBZ four bytes are left free.
unfoldable pub branch_skip : Ctx → ℕ → ℕ → Ctx
branch_skip ctx dpc cc =
    let mov_br_size = size_of_mov_i64 dpc + 4 in
    if bit_and cc cc_armcc == cc_armcc
    then record ctx {
      write_newop_here = none;
      rewritten = ctx.rewritten ++ bcc_rel (bit_xor (bit_and cc 0xf) 1) (4 + mov_br_size);
    }
    else if bit_and cc cc_xbxz == cc_xbxz
    then record ctx {
      modify = true;
      newval_0 = u32 (ctx.pc + 4 + mov_br_size);
      newval_1 = 1;
      write_newop_here = some (length ctx.rewritten);
      rewritten = ctx.rewritten ++ (0 ∷ 0 ∷ 0 ∷ 0 ∷ []);
    }
    else record ctx { write_newop_here = none }

unfoldable pub on_branch : Ctx → ℕ → ℕ → Option Ctx
on_branch ctx dpc cc =
    let skip = branch_skip (branch_top ctx dpc cc) dpc cc in
    elim (get_unwritten_temp_reg skip.regs_possibly_written) [
      | none ↦ none
      | some reg ↦
          let link = if bit_and cc cc_call == 0 then false else true in
          some (record skip { rewritten = skip.rewritten ++ (mov_i64 reg dpc ++ br reg link) })
    ]

-- The functions `transform_dis_` of the disassembler; `none` is an abort.
unfoldable pub on_event : Ctx → Arm64Event → Option Ctx
on_event ctx (pcrel dpc info) = on_pcrel ctx dpc info
on_event ctx (branch dpc cc) = on_branch ctx dpc cc
on_event ctx ret = some (on_ret ctx)
on_event ctx indirect_call = some (on_indirect_call ctx)
on_event ctx unidentified = some ctx
on_event ctx bad = some (record ctx { err = err_func_bad_insn_at_start })

-- `base.newop` where `modify` is set, which only the handlers of CBZ and TBZ read.
unfoldable pub newop : Ctx → ℕ
newop ctx = elim (find_insn ctx.op) [
  | Insn.cbz ↦ tbrcond_newop imm_19 ctx.pc ctx.op ctx.newval_0 ctx.newval_1
  | _ ↦ tbrcond_newop imm_14 ctx.pc ctx.op ctx.newval_0 ctx.newval_1
]

unfoldable pub overwrite : List ℕ → ℕ → List ℕ → List ℕ
overwrite out at bytes = take at out ++ (bytes ++ drop (at + length bytes) out)

-- The copy of the instruction, or of its new form. A copy to the end of the buffer advances the end
-- by the four bytes.
unfoldable pub copy_insn : Ctx → Ctx
copy_insn ctx = elim ctx.write_newop_here [
  | none ↦ ctx
  | some at ↦
      let bytes = op32 (if ctx.modify then newop ctx else ctx.op) in
      record ctx { rewritten = overwrite ctx.rewritten at bytes }
]

unfoldable pub mark_written : ℕ → ℕ → ℕ
mark_written regs op =
    regs
    or (1 <<< bit_and op 31)
    or (1 <<< bit_and (op >>> 10) 31)
    or (1 <<< bit_and (op >>> 16) 31)

-- `transform_dis_post_dis`, after the instruction has been passed.
unfoldable pub pass_insn : Ctx → Ctx
pass_insn ctx = record ctx {
  pc = u64 (ctx.pc + 4);
  regs_possibly_written = mark_written ctx.regs_possibly_written ctx.op;
}

-- `offset_by_pcdiff`, as far as it is written; none is its -1. The array is the caller's, and of a
-- size that is not looked at here; nor is it seen that `pcdiff` is an int, which holds for patches of
-- less than 2^31 bytes.
unfoldable pub add_offset : List (Option ℕ) → ℕ → ℕ → List (Option ℕ)
add_offset offsets pcdiff offset =
    offsets ++ (replicate (pcdiff - length offsets) none ++ (some offset ∷ []))

-- What `transform_dis_main` leaves behind: the buffer, the end of the patch, the registers and the
-- table.
pub record Rewritten : Type 0 where
  pub code : List ℕ
  pub pc_patch_end : ℕ
  pub regs : ℕ
  pub offsets : List (Option ℕ)

pub data Result : Type 0 where
  done : Rewritten → Result
  failed : ℕ → Result
  aborted out_of_fuel : Result

module _ (read : ℕ → ℕ) (pc_trampoline : ℕ) where
  -- What the handlers are called on.
  unfoldable pub begin_insn : Ctx → Ctx
  begin_insn ctx = record ctx {
    modify = false;
    err = 0;
    op = read (sub64 ctx.pc ctx.pc_patch_start);
    pc_trampoline = u64 (pc_trampoline + length ctx.rewritten);
    write_newop_here = some (length ctx.rewritten);
  }

  unfoldable pub dis_insn : Ctx → Option Ctx
  dis_insn ctx = elim (dis ctx.pc ctx.op) [ none ↦ none | some event ↦ on_event ctx event ]

  unfoldable pub rewrite : ℕ → Ctx → List (Option ℕ) → Result
  rewrite zero ctx offsets = out_of_fuel
  rewrite (suc fuel) ctx offsets = elim (ltb ctx.pc ctx.pc_patch_end) [
    | false ↦ done (record {
      code = ctx.rewritten;
      pc_patch_end = ctx.pc;
      regs = ctx.regs_possibly_written;
      offsets = offsets;
    })
    | true ↦ elim (dis_insn (begin_insn ctx)) [
      | none ↦ aborted
      | some seen ↦ elim (seen.err == 0) [
        | false ↦ failed seen.err
        | true ↦
            let passed = pass_insn (copy_insn seen) in
            rewrite fuel passed
              (add_offset offsets (sub64 passed.pc passed.pc_patch_start) (length passed.rewritten))
      ]
    ]
  ]

  unfoldable pub begin : ℕ → ℕ → ℕ → Bool → Ctx
  begin pc_patch_start pc_patch_end regs ban_calls = record {
    err = 0;
    pc = pc_patch_start;
    op = 0;
    modify = false;
    newval_0 = 0;
    newval_1 = 0;
    pc_trampoline = 0;
    pc_patch_start = pc_patch_start;
    pc_patch_end = pc_patch_end;
    ban_calls = ban_calls;
    rewritten = [];
    write_newop_here = none;
    regs_possibly_written = regs;
  }

  -- A round for each address of the patch is more than there are instructions.
  unfoldable pub transform_dis_main : ℕ → ℕ → ℕ → Bool → Result
  transform_dis_main pc_patch_start pc_patch_end regs ban_calls =
      rewrite (suc (pc_patch_end - pc_patch_start))
        (begin pc_patch_start pc_patch_end regs ban_calls) (some 0 ∷ [])
