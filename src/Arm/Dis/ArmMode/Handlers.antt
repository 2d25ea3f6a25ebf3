-- ===== src/Arm/Dis/ArmMode/Handlers.antt =====
-- The handlers of lib/arm/dis-arm.inc.h, by the names of `ArmInsn`.
use substitute.Common.{◌+◌, ◌*◌, bit_and, ◌or◌, ◌>>>◌, ◌<<<◌, u32, if◌then◌else◌, ◌==◌}
use substitute.Dis.{Bitslice, sext, bs_get, PcrelLoadMode, cc_call}
use substitute.Arm.Context.{
  Call, plain, DisCtx, r, rs, rout, rnull, data_flags, cc_armcc, dflag_is_ldrd_strd,
}
use substitute.Arm.Context.Event.{pcrel, branch, ret, indirect_call, bad, unidentified}

unfoldable pub stlexd : Bitslice → Bitslice → Bitslice → DisCtx → Call
stlexd rt rd addr c = data_flags 0 (r rt) (r rd) (r addr) rnull c.op

unfoldable pub movr : Bitslice → Bitslice → DisCtx → Call
movr rm rd c = data_flags 0 (rout rd) (r rm) rnull rnull c.op

unfoldable pub addrr : Bitslice → Bitslice → Bitslice → DisCtx → Call
addrr rm rd rn c = data_flags 0 (rout rd) (r rm) (r rn) rnull c.op

unfoldable pub addrsi : Bitslice → Bitslice → Bitslice → DisCtx → Call
addrsi shift rd rn c = data_flags 0 (rout rd) (rs shift 0 4) (r rn) rnull c.op

unfoldable pub addrsr : Bitslice → Bitslice → Bitslice → DisCtx → Call
addrsr shift rd rn c = data_flags 0 (rout rd) (rs shift 0 4) (rs shift 8 4) (r rn) c.op

unfoldable pub addri : Bitslice → Bitslice → DisCtx → Call
addri rd rn c = data_flags 0 (rout rd) (r rn) rnull rnull c.op

unfoldable pub mcr : Bitslice → DisCtx → Call
mcr rt c = data_flags 0 (r rt) rnull rnull rnull c.op

unfoldable pub stl : Bitslice → Bitslice → DisCtx → Call
stl rt addr c = data_flags 0 (rout rt) (r addr) rnull rnull c.op

unfoldable pub strbt_post_imm : Bitslice → Bitslice → Bitslice → DisCtx → Call
strbt_post_imm offset rt addr c = data_flags 0 (r addr) (r rt) rnull rnull c.op

unfoldable pub strbt_post_reg : Bitslice → Bitslice → Bitslice → DisCtx → Call
strbt_post_reg offset rt addr c = data_flags 0 (r addr) (rs offset 0 4) (r rt) rnull c.op

unfoldable pub strd_post : Bitslice → Bitslice → Bitslice → DisCtx → Call
strd_post offset rt addr c =
    data_flags dflag_is_ldrd_strd (r rt) (r addr) (rs offset 0 4) rnull c.op

unfoldable pub strhti : Bitslice → Bitslice → Bitslice → DisCtx → Call
strhti offset rt addr c = data_flags 0 (r addr) (r rt) rnull rnull c.op

unfoldable pub strd : Bitslice → Bitslice → DisCtx → Call
strd addr rt c =
    let addr_val = bs_get addr c.op in
    if bit_and addr_val (1 <<< 13) == 0
    then data_flags dflag_is_ldrd_strd (r rt) (rs addr 9 4) (rs addr 0 4) rnull c.op
    else data_flags dflag_is_ldrd_strd (r rt) (rs addr 9 4) rnull rnull c.op

unfoldable pub strd_pre : Bitslice → Bitslice → DisCtx → Call
unfolding strd
strd_pre addr rt c = strd addr rt c

unfoldable pub stri12 : Bitslice → Bitslice → DisCtx → Call
stri12 addr rt c = data_flags 0 (rs addr 13 4) (r rt) rnull rnull c.op

unfoldable pub strb_pre_imm : Bitslice → Bitslice → DisCtx → Call
strb_pre_imm addr rt c = data_flags 0 (rs addr 13 4) (r rt) rnull rnull c.op

unfoldable pub strb_pre_reg : Bitslice → Bitslice → DisCtx → Call
strb_pre_reg addr rt c = data_flags 0 (rs addr 0 4) (rs addr 13 4) (r rt) rnull c.op

unfoldable pub strrs : Bitslice → Bitslice → DisCtx → Call
strrs shift rt c = data_flags 0 (rs shift 0 4) (rs shift 13 4) (r rt) rnull c.op

unfoldable pub mcrr : Bitslice → DisCtx → Call
mcrr rt c = plain unidentified

unfoldable pub strbi12 : Bitslice → Bitslice → DisCtx → Call
strbi12 addr rt c = data_flags 0 (rs addr 13 4) (r rt) rnull rnull c.op

unfoldable pub strbrs : Bitslice → Bitslice → DisCtx → Call
strbrs shift rt c = data_flags 0 (rs shift 13 4) (rs shift 0 4) (r rt) rnull c.op

unfoldable pub ldc2l_option : Bitslice → DisCtx → Call
ldc2l_option addr c = data_flags 0 (r addr) rnull rnull rnull c.op

unfoldable pub stc2l_option : Bitslice → DisCtx → Call
stc2l_option addr c = data_flags 0 (r addr) rnull rnull rnull c.op

unfoldable pub ldrbt_post_imm : Bitslice → Bitslice → Bitslice → DisCtx → Call
ldrbt_post_imm offset rt addr c = data_flags 0 (rout rt) (r addr) rnull rnull c.op

unfoldable pub ldrbt_post_reg : Bitslice → Bitslice → Bitslice → DisCtx → Call
ldrbt_post_reg offset rt addr c = data_flags 0 (rout rt) (r addr) (rs offset 0 4) rnull c.op

unfoldable pub ldrd_post : Bitslice → Bitslice → Bitslice → DisCtx → Call
ldrd_post offset rt addr c = data_flags 0 (rout rt) (r addr) (rs offset 0 4) rnull c.op

unfoldable pub ldrhti : Bitslice → Bitslice → Bitslice → DisCtx → Call
ldrhti offset rt addr c = data_flags 0 (rout rt) (r addr) rnull rnull c.op

unfoldable pub ldc2l_post : Bitslice → Bitslice → DisCtx → Call
ldc2l_post offset addr c = data_flags 0 (r addr) rnull rnull rnull c.op

unfoldable pub stc2l_post : Bitslice → Bitslice → DisCtx → Call
stc2l_post offset addr c = data_flags 0 (r addr) rnull rnull rnull c.op

unfoldable pub lda : Bitslice → Bitslice → DisCtx → Call
lda rt addr c = data_flags 0 (rout rt) (r addr) rnull rnull c.op

unfoldable pub ldrd : Bitslice → Bitslice → DisCtx → Call
ldrd addr rt c =
    let addr_val = bs_get addr c.op in
    if bit_and addr_val (1 <<< 13) == 0
    then data_flags dflag_is_ldrd_strd (rout rt) (rs addr 9 4) (rs addr 0 4) rnull c.op
    else data_flags dflag_is_ldrd_strd (rout rt) (rs addr 9 4) rnull rnull c.op

unfoldable pub ldrd_pre : Bitslice → Bitslice → DisCtx → Call
unfolding ldrd
ldrd_pre addr rt c = ldrd addr rt c

unfoldable pub ldc2l_offset : Bitslice → DisCtx → Call
ldc2l_offset addr c = data_flags 0 (rs addr 9 4) rnull rnull rnull c.op

unfoldable pub stc2l_offset : Bitslice → DisCtx → Call
stc2l_offset addr c = data_flags 0 (rs addr 9 4) rnull rnull rnull c.op

unfoldable pub ldc2l_pre : Bitslice → DisCtx → Call
ldc2l_pre addr c = data_flags 0 (rs addr 9 4) rnull rnull rnull c.op

unfoldable pub stc2l_pre : Bitslice → DisCtx → Call
stc2l_pre addr c = data_flags 0 (rs addr 9 4) rnull rnull rnull c.op

unfoldable pub ldrbi12 : Bitslice → Bitslice → DisCtx → Call
ldrbi12 addr rt c = data_flags 0 (rout rt) (rs addr 13 4) rnull rnull c.op

unfoldable pub ldrb_pre_imm : Bitslice → Bitslice → DisCtx → Call
ldrb_pre_imm addr rt c = data_flags 0 (rout rt) (rs addr 13 4) rnull rnull c.op

unfoldable pub adr : Bitslice → Bitslice → DisCtx → Call
adr label rd c = plain (
    pcrel (u32 (c.pc + 8 + bs_get label c.op))
      (record { reg = bs_get rd c.op; load_mode = PcrelLoadMode.adr }))

unfoldable pub bcc : Bitslice → Bitslice → DisCtx → Call
bcc target p c =
    let p_val = bs_get p c.op in
    plain (
      branch (u32 (c.pc + 8 + 4 * sext (bs_get target c.op) 24))
        (if p_val == 0xe then 0 else (cc_armcc or p_val)))

unfoldable pub ldrb_pre_reg : Bitslice → Bitslice → DisCtx → Call
ldrb_pre_reg addr rt c = data_flags 0 (rout rt) (rs addr 0 4) (rs addr 13 4) rnull c.op

unfoldable pub ldrbrs : Bitslice → Bitslice → DisCtx → Call
ldrbrs shift rt c = data_flags 0 (rout rt) (rs shift 0 4) (rs shift 13 4) rnull c.op

unfoldable pub movr_tc : Bitslice → Bitslice → DisCtx → Call
movr_tc rm rd c = data_flags 0 (rout rd) (r rm) rnull rnull c.op

unfoldable pub movti16 : Bitslice → DisCtx → Call
movti16 rd c = data_flags 0 (rout rd) rnull rnull rnull c.op

unfoldable pub mrc : Bitslice → DisCtx → Call
mrc rt c = data_flags 0 (rout rt) rnull rnull rnull c.op

unfoldable pub ldmda : Bitslice → Bitslice → DisCtx → Call
ldmda regs rn c =
    let regs_val = bs_get regs c.op in
    if bit_and regs_val (1 <<< 15) == 0 then plain unidentified else plain ret

unfoldable pub stmda : Bitslice → Bitslice → DisCtx → Call
stmda regs rn c =
    let regs_val = bs_get regs c.op in
    if bit_and regs_val (1 <<< 15) == 0 then plain unidentified else plain bad

unfoldable pub stlex : Bitslice → Bitslice → Bitslice → DisCtx → Call
stlex rt rd addr c = data_flags 0 (r addr) (r rt) (r rd) rnull c.op

unfoldable pub ldrhtr : Bitslice → Bitslice → Bitslice → DisCtx → Call
ldrhtr rm rt addr c = data_flags 0 (rout rt) (r addr) (r rm) rnull c.op

unfoldable pub strhtr : Bitslice → Bitslice → Bitslice → DisCtx → Call
strhtr rm rt addr c = data_flags 0 (r addr) (r rt) (r rm) rnull c.op

unfoldable pub bx : Bitslice → DisCtx → Call
bx dst c = plain ret

unfoldable pub blx : Bitslice → DisCtx → Call
blx func c = plain indirect_call

unfoldable pub bl : Bitslice → DisCtx → Call
bl func c =
    let p_val = c.op >>> 28 in
    plain (
      branch (u32 (c.pc + 8 + 4 * sext (bs_get func c.op) 24))
        (cc_call or (if p_val == 0xe then 0 else (cc_armcc or p_val))))
