-- ===== src/Arm/Dis/Thumb2/Insn.antt =====
-- The handlers that generated/generic-dis-thumb2.inc.h calls, without the part of their names that lists the operands.
pub data Thumb2Insn : Type 0 where
  t2_adr t2_addri12 t2_bcc t2_b t_blxi t_bl t2_strbs t2_strb_post t2_strbi8 t2_strb_pre t2_strbt
        vmovdrr t2_ldrbs t2_ldrbpci t2_ldrb_post t2_ldrbi8 t2_ldrb_pre t2_ldrbt vmovrrd
        t2_stc2l_post t2_ldc2l_post t2_strex t2_movr t2_movti16 t2_strs t2_str_post t2_stri8
        t2_str_pre t2_ldrex t2_stl t2_lda t2_stmdb t2_stc2l_option t2_strbi12 t2_ldmdb t2_ldrbi12
        t2_ldc2l_option t2_stlex t2_stri12 t2_tbb t2_addri t2_addrr vldrd t2_stc2l_offset
        t2_stc2l_pre t2_ldc2l_pre t2_strdi8 t2_ldrdi8 t2_strd_pre t2_ldrd_pre t2_bxj unidentified :
      Thumb2Insn
