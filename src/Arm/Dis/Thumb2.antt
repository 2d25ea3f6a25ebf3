-- ===== src/Arm/Dis/Thumb2.antt =====
-- lib/arm/dis-thumb2.inc.h: the handlers by the leaves of the tree, and the disassembler of the instruction set.
pub mod Insn
pub mod Handlers
pub mod Tree0
pub mod Tree3
pub mod Tree6
pub mod Tree11
pub mod Tree16
pub mod Tree19
pub mod Tree23
pub mod Tree27
pub mod Tree
use substitute.Common.{
  ℕ, ◌+◌, ◌-◌, ◌*◌, ◌/◌, ◌%◌, ◌^◌, List, [], ◌∷◌, Bool, true, false, Option, none, some, bit_and,
  bit_xor, ◌or◌, ◌>>>◌, ◌<<<◌, u16, u32, not32, if◌then◌else◌, ◌==◌, zero, suc, get_or, set, map,
  leb, ltb,
}
use substitute.Dis.{Bitslice, run, sext, bs_get, bs_set, PcrelLoadMode, cc_call}
use substitute.Arm.Context.{
  PcrelInfo, ArchDisCtx, Event, Call, plain, DisCtx, Outcome, done, aborts, overruns, r, rs, rout,
  rnull, data_flags, cc_armcc, cc_already_in_it, cc_cbxz, dflag_is_ldrd_strd, advance_it_cond,
  unaligned_r16, unaligned_r32,
}
use substitute.Arm.Context.Event.{pcrel, branch, ret, indirect_call, bad, thumb_it, unidentified}
use substitute.Arm.Switch.{find}
use substitute.Arm.Dis.Thumb2.Insn.{Thumb2Insn}
use substitute.Arm.Dis.Thumb2.Tree.{find_tree}
use mathlib.Core.Option
use substitute.Arm.Dis.Thumb2.Handlers.{
  flip16, t2_movr, t2_ldmdb, t2_stmdb, t2_addri12, vmovdrr, t2_stri12, t2_stri8, t2_strs, t2_addrr,
  t2_addri, t2_str_pre, t2_str_post, t2_stl, t2_stlex, t2_ldc2l_option, t2_stc2l_option,
  t2_ldc2l_post, t2_stc2l_post, t2_lda, vldrd, t2_stc2l_offset, t2_ldc2l_pre, t2_stc2l_pre, t2_bcc,
  t2_strex, t2_strbi12, t2_strb_pre, t2_strdi8, t2_strd_pre, t2_strbi8, t2_strbs, t2_strb_post,
  t2_ldrex, t2_ldrbi12, t2_strbt, t2_ldrb_pre, t2_ldrb_post, t2_ldrdi8, t2_ldrd_pre, t2_ldrbi8,
  t2_ldrbt, t2_ldrbs, t2_adr, t2_ldrbpci, t2_b, t2_movti16, t2_tbb, vmovrrd, t_bl, t_blxi, t2_bxj,
}

-- The handler at each leaf, with the slices that the tree hands to it.
unfoldable pub handle : Thumb2Insn → DisCtx → Outcome
unfolding t2_movr t2_ldmdb t2_stmdb t2_addri12 vmovdrr t2_stri12 t2_stri8 t2_strs t2_addrr t2_addri
    t2_str_pre t2_str_post t2_stl t2_stlex t2_ldc2l_option t2_stc2l_option t2_ldc2l_post
    t2_stc2l_post t2_lda vldrd t2_stc2l_offset t2_ldc2l_pre t2_stc2l_pre t2_bcc t2_strex t2_strbi12
    t2_strb_pre t2_strdi8 t2_strd_pre t2_strbi8 t2_strbs t2_strb_post t2_ldrex t2_ldrbi12 t2_strbt
    t2_ldrb_pre t2_ldrb_post t2_ldrdi8 t2_ldrd_pre t2_ldrbi8 t2_ldrbt t2_ldrbs t2_adr t2_ldrbpci
    t2_b t2_movti16 t2_tbb vmovrrd t_bl t_blxi t2_bxj
handle Thumb2Insn.t2_adr c =
    done
      (t2_adr (run 0 0 8 ∷ run 12 8 3 ∷ run 21 12 1 ∷ run 23 12 1 ∷ run 26 11 1 ∷ [])
        (run 8 0 4 ∷ []) c)
      c
handle Thumb2Insn.t2_addri12 c = done (t2_addri12 (run 8 0 4 ∷ []) (run 16 0 4 ∷ []) c) c
handle Thumb2Insn.t2_bcc c =
    done
      (t2_bcc (run 0 1 11 ∷ run 11 19 1 ∷ run 13 18 1 ∷ run 16 12 6 ∷ run 26 20 1 ∷ [])
        (run 22 0 4 ∷ []) c)
      c
handle Thumb2Insn.t2_b c =
    done (t2_b (run 0 0 11 ∷ run 11 21 1 ∷ run 13 22 1 ∷ run 16 11 10 ∷ run 26 23 1 ∷ []) c) c
handle Thumb2Insn.t_blxi c =
    done (t_blxi (run 1 1 10 ∷ run 11 21 1 ∷ run 13 22 1 ∷ run 16 11 10 ∷ run 26 23 1 ∷ []) c) c
handle Thumb2Insn.t_bl c =
    done (t_bl (run 0 0 11 ∷ run 11 21 1 ∷ run 13 22 1 ∷ run 16 11 10 ∷ run 26 23 1 ∷ []) c) c
handle Thumb2Insn.t2_strbs c =
    done (t2_strbs (run 0 2 4 ∷ run 4 0 2 ∷ run 16 6 4 ∷ []) (run 12 0 4 ∷ []) c) c
handle Thumb2Insn.t2_strb_post c =
    done (t2_strb_post (run 0 0 8 ∷ run 9 8 1 ∷ []) (run 12 0 4 ∷ []) (run 16 0 4 ∷ []) c) c
handle Thumb2Insn.t2_strbi8 c =
    done (t2_strbi8 (run 0 0 8 ∷ run 9 8 1 ∷ run 16 9 4 ∷ []) (run 12 0 4 ∷ []) c) c
handle Thumb2Insn.t2_strb_pre c =
    done (t2_strb_pre (run 0 0 8 ∷ run 9 8 1 ∷ run 16 9 4 ∷ []) (run 12 0 4 ∷ []) c) c
handle Thumb2Insn.t2_strbt c = done (t2_strbt (run 0 0 8 ∷ run 16 9 4 ∷ []) (run 12 0 4 ∷ []) c) c
handle Thumb2Insn.vmovdrr c = done (vmovdrr (run 12 0 4 ∷ []) c) c
handle Thumb2Insn.t2_ldrbs c =
    done (t2_ldrbs (run 0 2 4 ∷ run 4 0 2 ∷ run 16 6 4 ∷ []) (run 12 0 4 ∷ []) c) c
handle Thumb2Insn.t2_ldrbpci c =
    elim (t2_ldrbpci (run 0 0 12 ∷ run 23 12 1 ∷ []) (run 12 0 4 ∷ []) c) [
      | none ↦ aborts
      | some call ↦ done call c
    ]
handle Thumb2Insn.t2_ldrb_post c =
    done (t2_ldrb_post (run 0 0 8 ∷ run 9 8 1 ∷ []) (run 12 0 4 ∷ []) (run 16 0 4 ∷ []) c) c
handle Thumb2Insn.t2_ldrbi8 c =
    done (t2_ldrbi8 (run 0 0 8 ∷ run 9 8 1 ∷ run 16 9 4 ∷ []) (run 12 0 4 ∷ []) c) c
handle Thumb2Insn.t2_ldrb_pre c =
    done (t2_ldrb_pre (run 0 0 8 ∷ run 9 8 1 ∷ run 16 9 4 ∷ []) (run 12 0 4 ∷ []) c) c
handle Thumb2Insn.t2_ldrbt c = done (t2_ldrbt (run 0 0 8 ∷ run 16 9 4 ∷ []) (run 12 0 4 ∷ []) c) c
handle Thumb2Insn.vmovrrd c = done (vmovrrd (run 12 0 4 ∷ []) c) c
handle Thumb2Insn.t2_stc2l_post c =
    done (t2_stc2l_post (run 0 0 8 ∷ run 23 8 1 ∷ []) (run 16 0 4 ∷ []) c) c
handle Thumb2Insn.t2_ldc2l_post c =
    done (t2_ldc2l_post (run 0 0 8 ∷ run 23 8 1 ∷ []) (run 16 0 4 ∷ []) c) c
handle Thumb2Insn.t2_strex c =
    done (t2_strex (run 0 0 8 ∷ run 16 8 4 ∷ []) (run 8 0 4 ∷ []) (run 12 0 4 ∷ []) c) c
handle Thumb2Insn.t2_movr c = done (t2_movr (run 0 0 4 ∷ []) (run 8 0 4 ∷ []) c) c
handle Thumb2Insn.t2_movti16 c = done (t2_movti16 (run 8 0 4 ∷ []) c) c
handle Thumb2Insn.t2_strs c =
    done (t2_strs (run 0 2 4 ∷ run 4 0 2 ∷ run 16 6 4 ∷ []) (run 12 0 4 ∷ []) c) c
handle Thumb2Insn.t2_str_post c =
    done (t2_str_post (run 0 0 8 ∷ run 9 8 1 ∷ []) (run 12 0 4 ∷ []) (run 16 0 4 ∷ []) c) c
handle Thumb2Insn.t2_stri8 c =
    done (t2_stri8 (run 0 0 8 ∷ run 9 8 1 ∷ run 16 9 4 ∷ []) (run 12 0 4 ∷ []) c) c
handle Thumb2Insn.t2_str_pre c =
    done (t2_str_pre (run 0 0 8 ∷ run 9 8 1 ∷ run 16 9 4 ∷ []) (run 12 0 4 ∷ []) c) c
handle Thumb2Insn.t2_ldrex c = done (t2_ldrex (run 0 0 8 ∷ run 16 8 4 ∷ []) (run 12 0 4 ∷ []) c) c
handle Thumb2Insn.t2_stl c = done (t2_stl (run 12 0 4 ∷ []) (run 16 0 4 ∷ []) c) c
handle Thumb2Insn.t2_lda c = done (t2_lda (run 12 0 4 ∷ []) (run 16 0 4 ∷ []) c) c
handle Thumb2Insn.t2_stmdb c = done (t2_stmdb (run 0 0 13 ∷ run 14 14 1 ∷ []) (run 16 0 4 ∷ []) c) c
handle Thumb2Insn.t2_stc2l_option c = done (t2_stc2l_option (run 16 0 4 ∷ []) c) c
handle Thumb2Insn.t2_strbi12 c =
    done (t2_strbi12 (run 0 0 12 ∷ run 16 13 4 ∷ []) (run 12 0 4 ∷ []) c) c
handle Thumb2Insn.t2_ldmdb c = done (t2_ldmdb (run 0 0 16 ∷ []) (run 16 0 4 ∷ []) c) c
handle Thumb2Insn.t2_ldrbi12 c =
    done (t2_ldrbi12 (run 0 0 12 ∷ run 16 13 4 ∷ []) (run 12 0 4 ∷ []) c) c
handle Thumb2Insn.t2_ldc2l_option c = done (t2_ldc2l_option (run 16 0 4 ∷ []) c) c
handle Thumb2Insn.t2_stlex c =
    done (t2_stlex (run 0 0 4 ∷ []) (run 12 0 4 ∷ []) (run 16 0 4 ∷ []) c) c
handle Thumb2Insn.t2_stri12 c =
    done (t2_stri12 (run 0 0 12 ∷ run 16 13 4 ∷ []) (run 12 0 4 ∷ []) c) c
handle Thumb2Insn.t2_tbb c = done (t2_tbb (run 0 0 4 ∷ []) c) c
handle Thumb2Insn.t2_addri c = done (t2_addri (run 8 0 4 ∷ []) (run 16 0 4 ∷ []) c) c
handle Thumb2Insn.t2_addrr c =
    done (t2_addrr (run 0 0 4 ∷ []) (run 8 0 4 ∷ []) (run 16 0 4 ∷ []) c) c
handle Thumb2Insn.vldrd c = done (vldrd (run 0 0 8 ∷ run 16 9 4 ∷ run 23 8 1 ∷ []) c) c
handle Thumb2Insn.t2_stc2l_offset c =
    done (t2_stc2l_offset (run 0 0 8 ∷ run 16 9 4 ∷ run 23 8 1 ∷ []) c) c
handle Thumb2Insn.t2_stc2l_pre c =
    done (t2_stc2l_pre (run 0 0 8 ∷ run 16 9 4 ∷ run 23 8 1 ∷ []) c) c
handle Thumb2Insn.t2_ldc2l_pre c =
    done (t2_ldc2l_pre (run 0 0 8 ∷ run 16 9 4 ∷ run 23 8 1 ∷ []) c) c
handle Thumb2Insn.t2_strdi8 c =
    done (t2_strdi8 (run 0 0 8 ∷ run 16 9 4 ∷ run 23 8 1 ∷ []) (run 12 0 4 ∷ []) c) c
handle Thumb2Insn.t2_ldrdi8 c =
    done (t2_ldrdi8 (run 0 0 8 ∷ run 16 9 4 ∷ run 23 8 1 ∷ []) (run 12 0 4 ∷ []) c) c
handle Thumb2Insn.t2_strd_pre c =
    done (t2_strd_pre (run 0 0 8 ∷ run 16 9 4 ∷ run 23 8 1 ∷ []) (run 12 0 4 ∷ []) c) c
handle Thumb2Insn.t2_ldrd_pre c =
    done (t2_ldrd_pre (run 0 0 8 ∷ run 16 9 4 ∷ run 23 8 1 ∷ []) (run 12 0 4 ∷ []) c) c
handle Thumb2Insn.t2_bxj c = done (t2_bxj (run 16 0 4 ∷ []) c) c
handle Thumb2Insn.unidentified c = done (plain unidentified) c

-- Behind the switches stands a `__builtin_abort`.
unfoldable pub call_insn : Option Thumb2Insn → DisCtx → Outcome
call_insn none c = aborts
call_insn (some insn) c = handle insn c

unfoldable pub thumb2_do_it : DisCtx → Outcome
unfolding call_insn
thumb2_do_it c = call_insn (find find_tree c.op) c

-- What a handler has written is put into the order of memory.
unfoldable pub flip_newop : Call → Call
flip_newop call = record call {
  newop = λ newval newop. Option.map flip16 (call.newop newval newop);
}

-- What `dis_thumb2` does behind the call of `thumb2_do_it`.
unfoldable pub flipped : Outcome → Outcome
unfolding flip_newop
flipped (done call c) =
    done (flip_newop call) (record c { op = flip16 c.op; arch = advance_it_cond c.arch })
flipped aborts = aborts
flipped overruns = overruns

unfoldable pub dis_thumb2 : DisCtx → Outcome
unfolding flipped
dis_thumb2 ctx = flipped (
    thumb2_do_it (record ctx { op = flip16 (unaligned_r32 ctx.code); op_size = 4; newop_size = 4 }))
