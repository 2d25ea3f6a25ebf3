-- ===== src/Arm/Dis/Thumb/Handlers.antt =====
-- The handlers of lib/arm/dis-thumb.inc.h, by the names of `ThumbInsn`.
use substitute.Common.{
  ℕ, ◌+◌, ◌-◌, ◌*◌, ◌/◌, ◌^◌, some, bit_and, bit_xor, ◌or◌, ◌<<<◌, u32, not32, if◌then◌else◌, ◌==◌,
  get_or,
}
use substitute.Dis.{Bitslice, sext, bs_get, bs_set, PcrelLoadMode}
use substitute.Arm.Context.{
  ArchDisCtx, Call, plain, DisCtx, r, rout, rnull, data_flags, cc_armcc, cc_already_in_it, cc_cbxz,
}
use substitute.Arm.Context.Event.{pcrel, branch, ret, indirect_call, bad, unidentified}

unfoldable pub it_cc : ArchDisCtx → ℕ
it_cc arch = if get_or arch.it_conds 0 0 == 0xe then 0 else cc_already_in_it

-- From the first two bytes of `newop`. `newop[0] - (pc + 4)` is of unsigned numbers.
unfoldable pub cbnz_newop : Bitslice → DisCtx → ℕ → ℕ → ℕ
cbnz_newop target c newop_0 newop_1 =
    let new_target = u32 (newop_0 + 2 ^ 32 - u32 (c.pc + 4)) / 2 in
    let new = bs_set target new_target c.op in if newop_1 == 0 then new else bit_xor new (1 <<< 11)

unfoldable pub t_addhirr : Bitslice → Bitslice → DisCtx → Call
t_addhirr rdn rm c = data_flags 0 (rout rdn) (r rm) (r rdn) rnull c.op

unfoldable pub t_addrsp : Bitslice → DisCtx → Call
t_addrsp rdn c = plain unidentified

unfoldable pub t_addspr : Bitslice → DisCtx → Call
t_addspr rm c = plain unidentified

unfoldable pub t_bx : Bitslice → DisCtx → Call
t_bx rm c = if bs_get rm c.op == 15 then plain bad else plain ret

unfoldable pub t_movr : Bitslice → Bitslice → DisCtx → Call
t_movr rd rm c =
    let rd_val = bs_get rd c.op in
    let rm_val = bs_get rm c.op in
    if rd_val == 15
    then plain bad
    else if rm_val == 15
    then plain (pcrel (u32 (c.pc + 4)) (record { reg = rd_val; load_mode = PcrelLoadMode.adr }))
    else plain unidentified

unfoldable pub t_ldmia : Bitslice → Bitslice → DisCtx → Call
t_ldmia regs rn c = plain unidentified

unfoldable pub t_stmia_upd : Bitslice → Bitslice → DisCtx → Call
t_stmia_upd regs rn c = plain unidentified

unfoldable pub t_pop : Bitslice → DisCtx → Call
t_pop regs c =
    let regs_val = bs_get regs c.op in
    if bit_and regs_val (1 <<< 15) == 0 then plain unidentified else plain ret

unfoldable pub t_push : Bitslice → DisCtx → Call
t_push regs c = plain unidentified

unfoldable pub t_ldrpci : Bitslice → Bitslice → DisCtx → Call
t_ldrpci addr rt c = plain (
    pcrel (u32 (bit_and (u32 (c.pc + 4)) (not32 2) + bs_get addr c.op))
      (record { reg = bs_get rt c.op; load_mode = PcrelLoadMode.u32_load }))

unfoldable pub t_adr : Bitslice → Bitslice → DisCtx → Call
t_adr addr rd c = plain (
    pcrel (u32 (bit_and (u32 (c.pc + 4)) (not32 2) + bs_get addr c.op))
      (record { reg = bs_get rd c.op; load_mode = PcrelLoadMode.adr }))

unfoldable pub t_bcc : Bitslice → Bitslice → DisCtx → Call
t_bcc target p c =
    plain (branch (u32 (c.pc + 4 + 2 * sext (bs_get target c.op) 8)) (cc_armcc or bs_get p c.op))

unfoldable pub t_b : Bitslice → DisCtx → Call
unfolding it_cc
t_b target c = plain (branch (u32 (c.pc + 4 + 2 * sext (bs_get target c.op) 11)) (it_cc c.arch))

unfoldable pub t_cbnz : Bitslice → DisCtx → Call
unfolding cbnz_newop
t_cbnz target c = record {
  event = branch (u32 (c.pc + 4 + 2 * bs_get target c.op)) cc_cbxz;
  newop = λ newval newop. some (cbnz_newop target c (newop 0) (newop 1));
}

unfoldable pub t_blxr : Bitslice → DisCtx → Call
t_blxr func c = plain indirect_call
