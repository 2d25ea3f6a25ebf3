-- ===== src/Arm/Dis/ArmMode.antt =====
-- lib/arm/dis-arm.inc.h: the handlers by the leaves of the tree, and the disassembler of the instruction set.
pub mod Insn
pub mod Handlers
pub mod Tree0
pub mod Tree9
pub mod Tree24
pub mod Tree30
pub mod Tree
use substitute.Common.{
  ℕ, ◌+◌, ◌-◌, ◌*◌, ◌/◌, ◌%◌, ◌^◌, List, [], ◌∷◌, Bool, true, false, Option, none, some, bit_and,
  bit_xor, ◌or◌, ◌>>>◌, ◌<<<◌, u16, u32, not32, if◌then◌else◌, ◌==◌, zero, suc, get_or, set, map,
  leb, ltb,
}
use substitute.Dis.{Bitslice, run, sext, bs_get, bs_set, PcrelLoadMode, cc_call}
use substitute.Arm.Context.{
  PcrelInfo, ArchDisCtx, Event, Call, plain, DisCtx, Outcome, done, aborts, overruns, r, rs, rout,
  rnull, data_flags, cc_armcc, cc_already_in_it, cc_cbxz, dflag_is_ldrd_strd, advance_it_cond,
  unaligned_r16, unaligned_r32,
}
use substitute.Arm.Context.Event.{pcrel, branch, ret, indirect_call, bad, thumb_it, unidentified}
use substitute.Arm.Switch.{find}
use substitute.Arm.Dis.ArmMode.Insn.{ArmInsn}
use substitute.Arm.Dis.ArmMode.Tree.{find_tree}
use substitute.Arm.Dis.ArmMode.Handlers.{
  stlexd, movr, addrr, addrsi, addrsr, addri, mcr, stl, strbt_post_imm, strbt_post_reg, strd_post,
  strhti, strd, strd_pre, stri12, strb_pre_imm, strb_pre_reg, strrs, mcrr, strbi12, strbrs,
  ldc2l_option, stc2l_option, ldrbt_post_imm, ldrbt_post_reg, ldrd_post, ldrhti, ldc2l_post,
  stc2l_post, lda, ldrd, ldrd_pre, ldc2l_offset, stc2l_offset, ldc2l_pre, stc2l_pre, ldrbi12,
  ldrb_pre_imm, adr, bcc, ldrb_pre_reg, ldrbrs, movr_tc, movti16, mrc, ldmda, stmda, stlex, ldrhtr,
  strhtr, bx, blx, bl,
}

-- The handler at each leaf, with the slices that the tree hands to it.
unfoldable pub handle : ArmInsn → DisCtx → Call
unfolding stlexd movr addrr addrsi addrsr addri mcr stl strbt_post_imm strbt_post_reg strd_post
    strhti strd strd_pre stri12 strb_pre_imm strb_pre_reg strrs mcrr strbi12 strbrs ldc2l_option
    stc2l_option ldrbt_post_imm ldrbt_post_reg ldrd_post ldrhti ldc2l_post stc2l_post lda ldrd
    ldrd_pre ldc2l_offset stc2l_offset ldc2l_pre stc2l_pre ldrbi12 ldrb_pre_imm adr bcc ldrb_pre_reg
    ldrbrs movr_tc movti16 mrc ldmda stmda stlex ldrhtr strhtr bx blx bl
handle ArmInsn.ldrd_post c =
    ldrd_post (run 0 0 4 ∷ run 8 4 4 ∷ run 22 9 1 ∷ run 23 8 1 ∷ []) (run 12 0 4 ∷ [])
      (run 16 0 4 ∷ []) c
handle ArmInsn.strd_post c =
    strd_post (run 0 0 4 ∷ run 8 4 4 ∷ run 22 9 1 ∷ run 23 8 1 ∷ []) (run 12 0 4 ∷ [])
      (run 16 0 4 ∷ []) c
handle ArmInsn.adr c = adr (run 0 0 12 ∷ run 22 12 2 ∷ []) (run 12 0 4 ∷ []) c
handle ArmInsn.strbt_post_imm c =
    strbt_post_imm (run 0 0 12 ∷ run 23 12 1 ∷ []) (run 12 0 4 ∷ []) (run 16 0 4 ∷ []) c
handle ArmInsn.strbt_post_reg c =
    strbt_post_reg (run 0 0 4 ∷ run 5 5 7 ∷ run 23 12 1 ∷ []) (run 12 0 4 ∷ []) (run 16 0 4 ∷ []) c
handle ArmInsn.stmda c = stmda (run 0 0 16 ∷ []) (run 16 0 4 ∷ []) c
handle ArmInsn.bcc c = bcc (run 0 0 24 ∷ []) (run 28 0 4 ∷ []) c
handle ArmInsn.mcr c = mcr (run 12 0 4 ∷ []) c
handle ArmInsn.ldrbt_post_imm c =
    ldrbt_post_imm (run 0 0 12 ∷ run 23 12 1 ∷ []) (run 12 0 4 ∷ []) (run 16 0 4 ∷ []) c
handle ArmInsn.ldrbt_post_reg c =
    ldrbt_post_reg (run 0 0 4 ∷ run 5 5 7 ∷ run 23 12 1 ∷ []) (run 12 0 4 ∷ []) (run 16 0 4 ∷ []) c
handle ArmInsn.ldmda c = ldmda (run 0 0 16 ∷ []) (run 16 0 4 ∷ []) c
handle ArmInsn.mrc c = mrc (run 12 0 4 ∷ []) c
handle ArmInsn.strhtr c = strhtr (run 0 0 4 ∷ run 23 4 1 ∷ []) (run 12 0 4 ∷ []) (run 16 0 4 ∷ []) c
handle ArmInsn.stc2l_post c = stc2l_post (run 0 0 8 ∷ run 23 8 1 ∷ []) (run 16 0 4 ∷ []) c
handle ArmInsn.ldrhtr c = ldrhtr (run 0 0 4 ∷ run 23 4 1 ∷ []) (run 12 0 4 ∷ []) (run 16 0 4 ∷ []) c
handle ArmInsn.ldc2l_post c = ldc2l_post (run 0 0 8 ∷ run 23 8 1 ∷ []) (run 16 0 4 ∷ []) c
handle ArmInsn.mcrr c = mcrr (run 12 0 4 ∷ []) c
handle ArmInsn.strhti c =
    strhti (run 0 0 4 ∷ run 8 4 4 ∷ run 23 8 1 ∷ []) (run 12 0 4 ∷ []) (run 16 0 4 ∷ []) c
handle ArmInsn.ldrhti c =
    ldrhti (run 0 0 4 ∷ run 8 4 4 ∷ run 23 8 1 ∷ []) (run 12 0 4 ∷ []) (run 16 0 4 ∷ []) c
handle ArmInsn.addrr c = addrr (run 0 0 4 ∷ []) (run 12 0 4 ∷ []) (run 16 0 4 ∷ []) c
handle ArmInsn.addrsi c = addrsi (run 0 0 4 ∷ run 5 5 7 ∷ []) (run 12 0 4 ∷ []) (run 16 0 4 ∷ []) c
handle ArmInsn.addrsr c =
    addrsr (run 0 0 4 ∷ run 5 5 2 ∷ run 8 8 4 ∷ []) (run 12 0 4 ∷ []) (run 16 0 4 ∷ []) c
handle ArmInsn.addri c = addri (run 12 0 4 ∷ []) (run 16 0 4 ∷ []) c
handle ArmInsn.stc2l_option c = stc2l_option (run 16 0 4 ∷ []) c
handle ArmInsn.ldc2l_option c = ldc2l_option (run 16 0 4 ∷ []) c
handle ArmInsn.lda c = lda (run 12 0 4 ∷ []) (run 16 0 4 ∷ []) c
handle ArmInsn.strd c =
    strd (run 0 0 4 ∷ run 8 4 4 ∷ run 16 9 4 ∷ run 22 13 1 ∷ run 23 8 1 ∷ []) (run 12 0 4 ∷ []) c
handle ArmInsn.ldrd c =
    ldrd (run 0 0 4 ∷ run 8 4 4 ∷ run 16 9 4 ∷ run 22 13 1 ∷ run 23 8 1 ∷ []) (run 12 0 4 ∷ []) c
handle ArmInsn.movti16 c = movti16 (run 12 0 4 ∷ []) c
handle ArmInsn.stri12 c = stri12 (run 0 0 12 ∷ run 16 13 4 ∷ run 23 12 1 ∷ []) (run 12 0 4 ∷ []) c
handle ArmInsn.strrs c =
    strrs (run 0 0 4 ∷ run 5 5 7 ∷ run 16 13 4 ∷ run 23 12 1 ∷ []) (run 12 0 4 ∷ []) c
handle ArmInsn.bl c = bl (run 0 0 24 ∷ []) c
handle ArmInsn.stc2l_offset c = stc2l_offset (run 0 0 8 ∷ run 16 9 4 ∷ run 23 8 1 ∷ []) c
handle ArmInsn.ldc2l_offset c = ldc2l_offset (run 0 0 8 ∷ run 16 9 4 ∷ run 23 8 1 ∷ []) c
handle ArmInsn.ldrbi12 c = ldrbi12 (run 0 0 12 ∷ run 16 13 4 ∷ run 23 12 1 ∷ []) (run 12 0 4 ∷ []) c
handle ArmInsn.ldrbrs c =
    ldrbrs (run 0 0 4 ∷ run 5 5 7 ∷ run 16 13 4 ∷ run 23 12 1 ∷ []) (run 12 0 4 ∷ []) c
handle ArmInsn.bx c = bx (run 0 0 4 ∷ []) c
handle ArmInsn.blx c = blx (run 0 0 4 ∷ []) c
handle ArmInsn.strd_pre c =
    strd_pre (run 0 0 4 ∷ run 8 4 4 ∷ run 16 9 4 ∷ run 22 13 1 ∷ run 23 8 1 ∷ []) (run 12 0 4 ∷ [])
      c
handle ArmInsn.ldrd_pre c =
    ldrd_pre (run 0 0 4 ∷ run 8 4 4 ∷ run 16 9 4 ∷ run 22 13 1 ∷ run 23 8 1 ∷ []) (run 12 0 4 ∷ [])
      c
handle ArmInsn.strb_pre_imm c =
    strb_pre_imm (run 0 0 12 ∷ run 16 13 4 ∷ run 23 12 1 ∷ []) (run 12 0 4 ∷ []) c
handle ArmInsn.strb_pre_reg c =
    strb_pre_reg (run 0 0 4 ∷ run 5 5 7 ∷ run 16 13 4 ∷ run 23 12 1 ∷ []) (run 12 0 4 ∷ []) c
handle ArmInsn.stc2l_pre c = stc2l_pre (run 0 0 8 ∷ run 16 9 4 ∷ run 23 8 1 ∷ []) c
handle ArmInsn.ldrb_pre_imm c =
    ldrb_pre_imm (run 0 0 12 ∷ run 16 13 4 ∷ run 23 12 1 ∷ []) (run 12 0 4 ∷ []) c
handle ArmInsn.ldrb_pre_reg c =
    ldrb_pre_reg (run 0 0 4 ∷ run 5 5 7 ∷ run 16 13 4 ∷ run 23 12 1 ∷ []) (run 12 0 4 ∷ []) c
handle ArmInsn.ldc2l_pre c = ldc2l_pre (run 0 0 8 ∷ run 16 9 4 ∷ run 23 8 1 ∷ []) c
handle ArmInsn.strbi12 c = strbi12 (run 0 0 12 ∷ run 16 13 4 ∷ run 23 12 1 ∷ []) (run 12 0 4 ∷ []) c
handle ArmInsn.strbrs c =
    strbrs (run 0 0 4 ∷ run 5 5 7 ∷ run 16 13 4 ∷ run 23 12 1 ∷ []) (run 12 0 4 ∷ []) c
handle ArmInsn.stl c = stl (run 0 0 4 ∷ []) (run 16 0 4 ∷ []) c
handle ArmInsn.stlex c = stlex (run 0 0 4 ∷ []) (run 12 0 4 ∷ []) (run 16 0 4 ∷ []) c
handle ArmInsn.movr c = movr (run 0 0 4 ∷ []) (run 12 0 4 ∷ []) c
handle ArmInsn.movr_tc c = movr_tc (run 0 0 4 ∷ []) (run 12 0 4 ∷ []) c
handle ArmInsn.stlexd c = stlexd (run 0 0 4 ∷ []) (run 12 0 4 ∷ []) (run 16 0 4 ∷ []) c
handle ArmInsn.unidentified c = plain unidentified

-- Behind the switches stands a `__builtin_abort`.
unfoldable pub call_insn : Option ArmInsn → DisCtx → Outcome
call_insn none c = aborts
call_insn (some insn) c = done (handle insn c) c

unfoldable pub dis_arm : DisCtx → Outcome
unfolding call_insn
dis_arm ctx =
    let c = record ctx { op = unaligned_r32 ctx.code; op_size = 4; newop_size = 4 } in
    call_insn (find find_tree c.op) c
