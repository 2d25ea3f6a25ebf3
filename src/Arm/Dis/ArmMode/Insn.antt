-- ===== src/Arm/Dis/ArmMode/Insn.antt =====
-- The handlers that generated/generic-dis-arm.inc.h calls, without the part of their names that lists the operands.
pub data ArmInsn : Type 0 where
  ldrd_post strd_post adr strbt_post_imm strbt_post_reg stmda bcc mcr ldrbt_post_imm ldrbt_post_reg
        ldmda mrc strhtr stc2l_post ldrhtr ldc2l_post mcrr strhti ldrhti addrr addrsi addrsr addri
        stc2l_option ldc2l_option lda strd ldrd movti16 stri12 strrs bl stc2l_offset ldc2l_offset
        ldrbi12 ldrbrs bx blx strd_pre ldrd_pre strb_pre_imm strb_pre_reg stc2l_pre ldrb_pre_imm
        ldrb_pre_reg ldc2l_pre strbi12 strbrs stl stlex movr movr_tc stlexd unidentified :
      ArmInsn
