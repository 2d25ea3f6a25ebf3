-- ===== src/X86/Onebyte.antt =====
-- The table `onebyte_bits` of lib/x86/dis-main.inc.h on x86-64, row by row.
use substitute.Common.{ℕ, ◌/◌, ◌%◌, List, [], ◌∷◌, ◌++◌, ◌or◌, replicate, get_or}
use substitute.X86.Flags.{
  i_8, i_16, i_24, i_v, i_z, i_mod, i_moda, i_pfx, i_jmp, i_spec, i_jimm_only, i_jimm, i_bad,
}

abbrev onebyte_00 : List ℕ
onebyte_00 =
    i_moda ∷ i_moda ∷ i_moda ∷ i_moda ∷ i_8 ∷ i_z ∷ i_bad ∷ i_bad ∷ i_moda ∷ i_moda ∷ i_moda
    ∷ i_moda ∷ i_8 ∷ i_z ∷ i_bad ∷ i_spec ∷ []

abbrev onebyte_10 : List ℕ
onebyte_10 =
    i_moda ∷ i_moda ∷ i_moda ∷ i_moda ∷ i_8 ∷ i_z ∷ i_bad ∷ i_bad ∷ i_moda ∷ i_moda ∷ i_moda
    ∷ i_moda ∷ i_8 ∷ i_z ∷ i_bad ∷ i_bad ∷ []

abbrev onebyte_20 : List ℕ
onebyte_20 =
    i_moda ∷ i_moda ∷ i_moda ∷ i_moda ∷ i_8 ∷ i_z ∷ i_pfx ∷ i_bad ∷ i_moda ∷ i_moda ∷ i_moda
    ∷ i_moda ∷ i_8 ∷ i_z ∷ i_pfx ∷ i_bad ∷ []

abbrev onebyte_30 : List ℕ
onebyte_30 =
    i_moda ∷ i_moda ∷ i_moda ∷ i_moda ∷ i_8 ∷ i_z ∷ i_pfx ∷ i_bad ∷ i_moda ∷ i_moda ∷ i_moda
    ∷ i_moda ∷ i_8 ∷ i_z ∷ i_pfx ∷ i_bad ∷ []

abbrev onebyte_40 : List ℕ
onebyte_40 = replicate 16 i_pfx

abbrev onebyte_50 : List ℕ
onebyte_50 = replicate 16 0

abbrev onebyte_60 : List ℕ
onebyte_60 =
    i_bad
    ∷ i_bad
    ∷ i_bad
    ∷ i_moda
    ∷ i_pfx
    ∷ i_pfx
    ∷ i_pfx
    ∷ i_pfx
    ∷ i_z
    ∷ (i_moda or i_z)
    ∷ i_8
    ∷ (i_moda or i_8)
    ∷ 0
    ∷ 0
    ∷ 0
    ∷ 0
    ∷ []

abbrev onebyte_70 : List ℕ
onebyte_70 = replicate 16 (i_8 or i_jimm)

abbrev onebyte_80 : List ℕ
onebyte_80 =
    (i_moda or i_8)
    ∷ (i_moda or i_v)
    ∷ i_bad
    ∷ i_moda
    ∷ i_moda
    ∷ i_moda
    ∷ i_moda
    ∷ i_moda
    ∷ i_moda
    ∷ i_moda
    ∷ i_moda
    ∷ i_moda
    ∷ i_moda
    ∷ i_mod
    ∷ i_moda
    ∷ i_pfx
    ∷ []

abbrev onebyte_90 : List ℕ
onebyte_90 = 0 ∷ 0 ∷ 0 ∷ 0 ∷ 0 ∷ 0 ∷ 0 ∷ 0 ∷ 0 ∷ 0 ∷ i_bad ∷ 0 ∷ 0 ∷ 0 ∷ 0 ∷ 0 ∷ []

abbrev onebyte_a0 : List ℕ
onebyte_a0 = i_8 ∷ i_v ∷ i_8 ∷ i_v ∷ 0 ∷ 0 ∷ 0 ∷ 0 ∷ i_8 ∷ i_z ∷ 0 ∷ 0 ∷ 0 ∷ 0 ∷ 0 ∷ 0 ∷ []

abbrev onebyte_b0 : List ℕ
onebyte_b0 = replicate 8 i_8 ++ replicate 8 i_v

abbrev onebyte_c0 : List ℕ
onebyte_c0 =
    (i_moda or i_8)
    ∷ (i_moda or i_8)
    ∷ (i_16 or i_jmp)
    ∷ i_jmp
    ∷ i_pfx
    ∷ i_pfx
    ∷ (i_moda or i_8)
    ∷ (i_moda or i_8)
    ∷ i_24
    ∷ 0
    ∷ (i_16 or i_jmp)
    ∷ i_jmp
    ∷ 0
    ∷ i_8
    ∷ i_bad
    ∷ i_jmp
    ∷ []

abbrev onebyte_d0 : List ℕ
onebyte_d0 =
    i_moda ∷ i_moda ∷ i_moda ∷ i_moda ∷ i_bad ∷ i_bad ∷ i_bad ∷ 0 ∷ i_spec ∷ i_spec ∷ i_spec
    ∷ i_spec ∷ i_spec ∷ i_spec ∷ i_spec ∷ i_spec ∷ []

abbrev onebyte_e0 : List ℕ
onebyte_e0 =
    (i_8 or i_jimm)
    ∷ (i_8 or i_jimm)
    ∷ (i_8 or i_jimm)
    ∷ (i_8 or i_jimm)
    ∷ i_8
    ∷ i_8
    ∷ i_8
    ∷ i_8
    ∷ (i_z or i_jimm_only)
    ∷ (i_z or i_jimm)
    ∷ i_bad
    ∷ (i_8 or i_jimm)
    ∷ 0
    ∷ 0
    ∷ 0
    ∷ 0
    ∷ []

abbrev onebyte_f0 : List ℕ
onebyte_f0 =
    i_pfx ∷ i_bad ∷ i_pfx ∷ i_pfx ∷ 0 ∷ 0 ∷ i_moda ∷ i_moda ∷ 0 ∷ 0 ∷ 0 ∷ 0 ∷ 0 ∷ 0 ∷ i_moda
    ∷ i_spec ∷ []

abbrev onebyte_rows : List (List ℕ)
onebyte_rows =
    onebyte_00 ∷ onebyte_10 ∷ onebyte_20 ∷ onebyte_30 ∷ onebyte_40 ∷ onebyte_50 ∷ onebyte_60
    ∷ onebyte_70 ∷ onebyte_80 ∷ onebyte_90 ∷ onebyte_a0 ∷ onebyte_b0 ∷ onebyte_c0 ∷ onebyte_d0
    ∷ onebyte_e0 ∷ onebyte_f0 ∷ []

unfoldable pub onebyte_bits : ℕ → ℕ
onebyte_bits byte = get_or (get_or onebyte_rows (byte / 16) []) (byte % 16) 0
