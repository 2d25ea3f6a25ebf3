-- ===== src/Arm/Dis/Thumb2/Handlers.antt =====
-- The handlers of lib/arm/dis-thumb2.inc.h, by the names of `Thumb2Insn`.
use substitute.Common.{
  ℕ, ◌+◌, ◌*◌, Option, none, some, bit_and, bit_xor, ◌or◌, ◌>>>◌, ◌<<<◌, u32, not32, if◌then◌else◌,
  ◌==◌,
}
use substitute.Dis.{Bitslice, sext, bs_get, PcrelLoadMode, cc_call}
use substitute.Arm.Context.{
  Call, plain, DisCtx, r, rs, rout, rnull, data_flags, cc_armcc, dflag_is_ldrd_strd,
}
use substitute.Arm.Context.Event.{pcrel, branch, ret, bad, unidentified}
use substitute.Arm.Dis.Thumb.Handlers.{it_cc}

unfoldable pub flip16 : ℕ → ℕ
flip16 op = op >>> 16 or u32 (op <<< 16)

-- `none` is the `__builtin_abort`.
unfoldable pub get_thumb2_load_mode : ℕ → Option PcrelLoadMode
unfolding flip16
get_thumb2_load_mode word =
    let op = flip16 word in
    let sign = bit_and (op >>> 8) 1 == 1 in
    let size = bit_and (op >>> 5) 3 in
    if size == 0
    then some (if sign then PcrelLoadMode.s8_load else PcrelLoadMode.u8_load)
    else if size == 1
    then some (if sign then PcrelLoadMode.s16_load else PcrelLoadMode.u16_load)
    else if size == 2
    then some PcrelLoadMode.u32_load
    else none

-- `crap` of the handlers of BL and BLX, with the two bits that a negative offset does not invert.
unfoldable pub bl_offset : ℕ → ℕ
bl_offset func_val =
    let crap = u32 (func_val <<< 1) in
    if bit_and (crap >>> 24) 1 == 0 then bit_xor crap (3 <<< 22) else crap

unfoldable pub t2_movr : Bitslice → Bitslice → DisCtx → Call
t2_movr rm rd c = data_flags 0 (rout rd) (r rm) rnull rnull c.op

unfoldable pub t2_ldmdb : Bitslice → Bitslice → DisCtx → Call
t2_ldmdb regs rn c =
    let regs_val = bs_get regs c.op in
    if bit_and regs_val (1 <<< 15) == 0 then plain unidentified else plain ret

unfoldable pub t2_stmdb : Bitslice → Bitslice → DisCtx → Call
t2_stmdb regs rn c = plain unidentified

unfoldable pub t2_addri12 : Bitslice → Bitslice → DisCtx → Call
t2_addri12 rd rn c = data_flags 0 (rout rd) (r rn) rnull rnull c.op

unfoldable pub vmovdrr : Bitslice → DisCtx → Call
vmovdrr rt c = plain unidentified

unfoldable pub t2_stri12 : Bitslice → Bitslice → DisCtx → Call
t2_stri12 addr rt c = data_flags 0 (rs addr 13 4) (r rt) rnull rnull c.op

unfoldable pub t2_stri8 : Bitslice → Bitslice → DisCtx → Call
t2_stri8 addr rt c = data_flags 0 (rs addr 9 4) (r rt) rnull rnull c.op

unfoldable pub t2_strs : Bitslice → Bitslice → DisCtx → Call
t2_strs addr rt c = data_flags 0 (rs addr 6 4) (rs addr 2 4) (r rt) rnull c.op

unfoldable pub t2_addrr : Bitslice → Bitslice → Bitslice → DisCtx → Call
t2_addrr rm rd rn c = data_flags 0 (rout rd) (r rm) (r rn) rnull c.op

unfoldable pub t2_addri : Bitslice → Bitslice → DisCtx → Call
t2_addri rd rn c = data_flags 0 (rout rd) (r rn) rnull rnull c.op

unfoldable pub t2_str_pre : Bitslice → Bitslice → DisCtx → Call
t2_str_pre addr rt c = data_flags 0 (rs addr 9 4) (r rt) rnull rnull c.op

unfoldable pub t2_str_post : Bitslice → Bitslice → Bitslice → DisCtx → Call
t2_str_post offset rt rn c = data_flags 0 (r rt) (r rn) rnull rnull c.op

unfoldable pub t2_stl : Bitslice → Bitslice → DisCtx → Call
t2_stl rt addr c = data_flags 0 (rout rt) (r addr) rnull rnull c.op

unfoldable pub t2_stlex : Bitslice → Bitslice → Bitslice → DisCtx → Call
t2_stlex rd rt addr c = data_flags 0 (rout rd) (r rt) (r addr) rnull c.op

unfoldable pub t2_ldc2l_option : Bitslice → DisCtx → Call
t2_ldc2l_option addr c = data_flags 0 (r addr) rnull rnull rnull c.op

unfoldable pub t2_stc2l_option : Bitslice → DisCtx → Call
t2_stc2l_option addr c = data_flags 0 (r addr) rnull rnull rnull c.op

unfoldable pub t2_ldc2l_post : Bitslice → Bitslice → DisCtx → Call
t2_ldc2l_post offset addr c = data_flags 0 (r addr) rnull rnull rnull c.op

unfoldable pub t2_stc2l_post : Bitslice → Bitslice → DisCtx → Call
t2_stc2l_post offset addr c = data_flags 0 (r addr) rnull rnull rnull c.op

unfoldable pub t2_lda : Bitslice → Bitslice → DisCtx → Call
t2_lda rt addr c = data_flags 0 (rout rt) (r addr) rnull rnull c.op

unfoldable pub vldrd : Bitslice → DisCtx → Call
vldrd addr c = data_flags 0 (rs addr 9 4) rnull rnull rnull c.op

unfoldable pub t2_stc2l_offset : Bitslice → DisCtx → Call
t2_stc2l_offset addr c = data_flags 0 (rs addr 9 4) rnull rnull rnull c.op

unfoldable pub t2_ldc2l_pre : Bitslice → DisCtx → Call
t2_ldc2l_pre addr c = data_flags 0 (rs addr 9 4) rnull rnull rnull c.op

unfoldable pub t2_stc2l_pre : Bitslice → DisCtx → Call
t2_stc2l_pre addr c = data_flags 0 (rs addr 9 4) rnull rnull rnull c.op

unfoldable pub t2_bcc : Bitslice → Bitslice → DisCtx → Call
t2_bcc target p c =
    plain (branch (u32 (c.pc + 4 + 2 * sext (bs_get target c.op) 20)) (cc_armcc or bs_get p c.op))

unfoldable pub t2_strex : Bitslice → Bitslice → Bitslice → DisCtx → Call
t2_strex addr rt rd c = data_flags 0 (rout rd) (r rt) (rs addr 8 4) rnull c.op

unfoldable pub t2_strbi12 : Bitslice → Bitslice → DisCtx → Call
t2_strbi12 addr rt c = data_flags 0 (r rt) (rs addr 13 4) rnull rnull c.op

unfoldable pub t2_strb_pre : Bitslice → Bitslice → DisCtx → Call
t2_strb_pre addr rt c = data_flags 0 (r rt) (rs addr 9 4) rnull rnull c.op

unfoldable pub t2_strdi8 : Bitslice → Bitslice → DisCtx → Call
t2_strdi8 addr rt c = data_flags dflag_is_ldrd_strd (r rt) (rs addr 9 4) rnull rnull c.op

unfoldable pub t2_strd_pre : Bitslice → Bitslice → DisCtx → Call
t2_strd_pre addr rt c = data_flags dflag_is_ldrd_strd (r rt) (rs addr 9 4) rnull rnull c.op

unfoldable pub t2_strbi8 : Bitslice → Bitslice → DisCtx → Call
t2_strbi8 addr rt c = data_flags 0 (r rt) (rs addr 9 4) rnull rnull c.op

unfoldable pub t2_strbs : Bitslice → Bitslice → DisCtx → Call
t2_strbs addr rt c = data_flags 0 (rs addr 6 4) (rs rt 2 4) (r rt) rnull c.op

unfoldable pub t2_strb_post : Bitslice → Bitslice → Bitslice → DisCtx → Call
t2_strb_post offset rt rn c = data_flags 0 (r rt) (r rn) rnull rnull c.op

unfoldable pub t2_ldrex : Bitslice → Bitslice → DisCtx → Call
t2_ldrex addr rt c = data_flags 0 (rout rt) (rs addr 8 4) rnull rnull c.op

unfoldable pub t2_ldrbi12 : Bitslice → Bitslice → DisCtx → Call
t2_ldrbi12 addr rt c = data_flags 0 (rout rt) (rs addr 13 4) rnull rnull c.op

unfoldable pub t2_strbt : Bitslice → Bitslice → DisCtx → Call
t2_strbt addr rt c = data_flags 0 (r rt) (rs addr 9 4) rnull rnull c.op

unfoldable pub t2_ldrb_pre : Bitslice → Bitslice → DisCtx → Call
t2_ldrb_pre addr rt c = data_flags 0 (rout rt) (rs addr 9 4) rnull rnull c.op

unfoldable pub t2_ldrb_post : Bitslice → Bitslice → Bitslice → DisCtx → Call
t2_ldrb_post offset rt rn c = data_flags 0 (rout rt) (r rn) rnull rnull c.op

unfoldable pub t2_ldrdi8 : Bitslice → Bitslice → DisCtx → Call
t2_ldrdi8 addr rt c = data_flags dflag_is_ldrd_strd (rout rt) (rs addr 9 4) rnull rnull c.op

unfoldable pub t2_ldrd_pre : Bitslice → Bitslice → DisCtx → Call
t2_ldrd_pre addr rt c = data_flags dflag_is_ldrd_strd (rout rt) (rs addr 9 4) rnull rnull c.op

unfoldable pub t2_ldrbi8 : Bitslice → Bitslice → DisCtx → Call
t2_ldrbi8 addr rt c = data_flags 0 (rout rt) (rs addr 9 4) rnull rnull c.op

unfoldable pub t2_ldrbt : Bitslice → Bitslice → DisCtx → Call
t2_ldrbt addr rt c = data_flags 0 (rout rt) (rs addr 9 4) rnull rnull c.op

unfoldable pub t2_ldrbs : Bitslice → Bitslice → DisCtx → Call
t2_ldrbs addr rt c = data_flags 0 (rout rt) (rs addr 6 4) (rs addr 2 4) rnull c.op

unfoldable pub t2_adr : Bitslice → Bitslice → DisCtx → Call
t2_adr addr rd c = plain (
    pcrel (u32 (bit_and (u32 (c.pc + 4)) (not32 2) + bit_and (bs_get addr c.op) 0xfff))
      (record { reg = bs_get rd c.op; load_mode = PcrelLoadMode.adr }))

unfoldable pub t2_ldrbpci : Bitslice → Bitslice → DisCtx → Option Call
unfolding get_thumb2_load_mode
t2_ldrbpci addr rt c = elim (get_thumb2_load_mode c.op) [
  | none ↦ none
  | some mode ↦ some (
      plain (
        pcrel (u32 (bit_and (u32 (c.pc + 4)) (not32 2) + bit_and (bs_get addr c.op) 0xfff))
          (record { reg = bs_get rt c.op; load_mode = mode })))
]

unfoldable pub t2_b : Bitslice → DisCtx → Call
unfolding it_cc
t2_b target c = plain (branch (u32 (c.pc + 4 + 2 * sext (bs_get target c.op) 24)) (it_cc c.arch))

unfoldable pub t2_movti16 : Bitslice → DisCtx → Call
t2_movti16 rd c = data_flags 0 (rout rd) rnull rnull rnull c.op

unfoldable pub t2_tbb : Bitslice → DisCtx → Call
t2_tbb rm c = plain bad

unfoldable pub vmovrrd : Bitslice → DisCtx → Call
vmovrrd rt c = plain unidentified

unfoldable pub t_bl : Bitslice → DisCtx → Call
unfolding bl_offset
t_bl func c = plain (branch (u32 (c.pc + 4 + sext (bl_offset (bs_get func c.op)) 25)) cc_call)

unfoldable pub t_blxi : Bitslice → DisCtx → Call
unfolding bl_offset
t_blxi func c = plain (branch (u32 (c.pc + 4 + sext (bl_offset (bs_get func c.op)) 25)) cc_call)

unfoldable pub t2_bxj : Bitslice → DisCtx → Call
t2_bxj func c = plain unidentified
