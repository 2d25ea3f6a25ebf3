-- ===== src/Arm/Dis/Thumb/Insn.antt =====
-- The handlers that generated/generic-dis-thumb.inc.h calls, without the part of their names that lists the operands.
pub data ThumbInsn : Type 0 where
  t_stmia_upd t_addspr t_addhirr t_addrsp t_movr t_bx t_blxr t_ldrpci t_ldmia t_bcc t_adr t_b t_cbnz
        t_push t_pop t2_it unidentified :
      ThumbInsn
