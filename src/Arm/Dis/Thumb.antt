-- ===== src/Arm/Dis/Thumb.antt =====
-- lib/arm/dis-thumb.inc.h: the handlers by the leaves of the tree, and the disassembler of the instruction set.
pub mod Insn
pub mod Handlers
pub mod Tree
use substitute.Common.{
  ℕ, ◌+◌, ◌-◌, ◌*◌, ◌/◌, ◌%◌, ◌^◌, List, [], ◌∷◌, Bool, true, false, Option, none, some, bit_and,
  bit_xor, ◌or◌, ◌>>>◌, ◌<<<◌, u16, u32, not32, if◌then◌else◌, ◌==◌, zero, suc, get_or, set, map,
  leb, ltb,
}
use substitute.Dis.{Bitslice, run, sext, bs_get, bs_set, PcrelLoadMode, cc_call}
use substitute.Arm.Context.{
  PcrelInfo, ArchDisCtx, Event, Call, plain, DisCtx, Outcome, done, aborts, overruns, r, rs, rout,
  rnull, data_flags, cc_armcc, cc_already_in_it, cc_cbxz, dflag_is_ldrd_strd, advance_it_cond,
  unaligned_r16, unaligned_r32,
}
use substitute.Arm.Context.Event.{pcrel, branch, ret, indirect_call, bad, thumb_it, unidentified}
use substitute.Arm.Switch.{find}
use substitute.Arm.Dis.Thumb.Insn.{ThumbInsn}
use substitute.Arm.Dis.Thumb.Tree.{find_tree}
use substitute.Arm.Dis.Thumb.Handlers.{
  t_addhirr, t_addrsp, t_addspr, t_bx, t_movr, t_ldmia, t_stmia_upd, t_pop, t_push, t_ldrpci, t_adr,
  t_bcc, t_b, t_cbnz, t_blxr,
}

-- `__builtin_ctz` of a number that is not 0 and below `2 ^ width`.
unfoldable pub ctz : ℕ → ℕ → ℕ
ctz zero x = 0
ctz (suc width) x = if x % 2 == 1 then 0 else suc (ctz width (x / 2))

-- One round of the loop: the condition of instruction `i + 1` of the block. `none` is a write at
-- index 5 of the five conditions.
unfoldable pub it_round : ℕ → ℕ → ℕ → List ℕ → Option (List ℕ)
it_round mask_val cc_val i conds =
    if ltb (i + 2) 5
    then some (set conds (i + 2) (bit_and cc_val (not32 1) or bit_and (mask_val >>> (3 - i)) 1))
    else none

-- The rounds from `i` on, `left` of them.
unfoldable pub it_loop : ℕ → ℕ → ℕ → ℕ → List ℕ → Option (List ℕ)
unfolding it_round
it_loop mask_val cc_val zero i conds = some conds
it_loop mask_val cc_val (suc left) i conds = elim (it_round mask_val cc_val i conds) [
  | none ↦ none
  | some next ↦ it_loop mask_val cc_val left (i + 1) next
]

unfoldable pub mark_block : ℕ → ℕ → List ℕ → Option (List ℕ)
unfolding it_loop ctz
mark_block mask_val cc_val conds =
    it_loop mask_val cc_val (4 - ctz 4 mask_val) 0 (set conds 1 cc_val)

unfoldable pub it_done : Option (List ℕ) → DisCtx → Outcome
it_done none c = overruns
it_done (some conds) c =
    done (plain thumb_it) (record c { arch = record c.arch { it_conds = conds } })

unfoldable pub it_block : ℕ → ℕ → DisCtx → Outcome
unfolding mark_block it_done
it_block mask_val cc_val c =
    if mask_val == 0
    then done (plain unidentified) c
    else it_done (mark_block mask_val cc_val c.arch.it_conds) c

unfoldable pub t2_it : Bitslice → Bitslice → DisCtx → Outcome
unfolding it_block
t2_it mask cc c = it_block (bs_get mask c.op) (bs_get cc c.op) c

-- The handler at each leaf, with the slices that the tree hands to it.
unfoldable pub handle : ThumbInsn → DisCtx → Outcome
unfolding t_addhirr t_addrsp t_addspr t_bx t_movr t_ldmia t_stmia_upd t_pop t_push t_ldrpci t_adr
    t_bcc t_b t_cbnz t_blxr t2_it
handle ThumbInsn.t_stmia_upd c = done (t_stmia_upd (run 0 0 8 ∷ []) (run 8 0 3 ∷ []) c) c
handle ThumbInsn.t_addspr c = done (t_addspr (run 3 0 4 ∷ []) c) c
handle ThumbInsn.t_addhirr c = done (t_addhirr (run 0 0 3 ∷ run 7 3 1 ∷ []) (run 3 0 4 ∷ []) c) c
handle ThumbInsn.t_addrsp c = done (t_addrsp (run 0 0 3 ∷ run 7 3 1 ∷ []) c) c
handle ThumbInsn.t_movr c = done (t_movr (run 0 0 3 ∷ run 7 3 1 ∷ []) (run 3 0 4 ∷ []) c) c
handle ThumbInsn.t_bx c = done (t_bx (run 3 0 4 ∷ []) c) c
handle ThumbInsn.t_blxr c = done (t_blxr (run 3 0 4 ∷ []) c) c
handle ThumbInsn.t_ldrpci c = done (t_ldrpci (run 0 0 8 ∷ []) (run 8 0 3 ∷ []) c) c
handle ThumbInsn.t_ldmia c = done (t_ldmia (run 0 0 8 ∷ []) (run 8 0 3 ∷ []) c) c
handle ThumbInsn.t_bcc c = done (t_bcc (run 0 0 8 ∷ []) (run 8 0 4 ∷ []) c) c
handle ThumbInsn.t_adr c = done (t_adr (run 0 0 8 ∷ []) (run 8 0 3 ∷ []) c) c
handle ThumbInsn.t_b c = done (t_b (run 0 0 11 ∷ []) c) c
handle ThumbInsn.t_cbnz c = done (t_cbnz (run 3 0 5 ∷ run 9 5 1 ∷ []) c) c
handle ThumbInsn.t_push c = done (t_push (run 0 0 8 ∷ run 8 14 1 ∷ []) c) c
handle ThumbInsn.t_pop c = done (t_pop (run 0 0 8 ∷ run 8 15 1 ∷ []) c) c
handle ThumbInsn.t2_it c = t2_it (run 0 0 4 ∷ []) (run 4 0 4 ∷ []) c
handle ThumbInsn.unidentified c = done (plain unidentified) c

-- Behind the switches stands a `__builtin_abort`.
unfoldable pub call_insn : Option ThumbInsn → DisCtx → Outcome
call_insn none c = aborts
call_insn (some insn) c = handle insn c

unfoldable pub thumb_do_it : DisCtx → Outcome
unfolding call_insn
thumb_do_it ctx =
    let c = record ctx { op = unaligned_r16 ctx.code } in call_insn (find find_tree c.op) c

-- What `dis_thumb` does behind the call of `thumb_do_it`.
unfoldable pub advanced : Outcome → Outcome
advanced (done call c) = done call (record c { arch = advance_it_cond c.arch })
advanced aborts = aborts
advanced overruns = overruns

unfoldable pub dis_thumb : DisCtx → Outcome
unfolding advanced
dis_thumb ctx = advanced (thumb_do_it (record ctx { op_size = 2; newop_size = 2 }))
