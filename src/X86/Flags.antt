-- ===== src/X86/Flags.antt =====
-- The flags of lib/x86/dis-main.inc.h.
use substitute.Common.{ℕ}

abbrev pub i_8 : ℕ
i_8 = 0x01

abbrev pub i_16 : ℕ
i_16 = 0x02

abbrev pub i_24 : ℕ
i_24 = 0x03

abbrev pub i_32 : ℕ
i_32 = 0x04

abbrev pub i_v : ℕ
i_v = 0x05

abbrev pub i_z : ℕ
i_z = 0x06

abbrev pub i_p : ℕ
i_p = 0x07

abbrev pub i_imm_mask : ℕ
i_imm_mask = 0x07

abbrev pub i_mod : ℕ
i_mod = 0x08

abbrev pub i_addr : ℕ
i_addr = 0x10

abbrev pub i_moda : ℕ
i_moda = 0x18

abbrev pub i_pfx : ℕ
i_pfx = 0x20

abbrev pub i_jmp : ℕ
i_jmp = 0x40

abbrev pub i_spec : ℕ
i_spec = 0x60

abbrev pub i_type_mask : ℕ
i_type_mask = 0x60

abbrev pub i_jimm_only : ℕ
i_jimm_only = 0x80

abbrev pub i_jimm : ℕ
i_jimm = 0xc0

abbrev pub i_bad : ℕ
i_bad = 0x80

abbrev pub i_call : ℕ
i_call = 0x100
