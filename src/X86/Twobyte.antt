-- ===== src/X86/Twobyte.antt =====
-- The table `_0f_bits` of lib/x86/dis-main.inc.h on x86-64, row by row.
use substitute.Common.{ℕ, ◌/◌, ◌%◌, List, [], ◌∷◌, ◌or◌, replicate, get_or}
use substitute.X86.Flags.{i_8, i_z, i_mod, i_moda, i_jimm, i_bad}

abbrev twobyte_00 : List ℕ
twobyte_00 =
    i_moda ∷ i_moda ∷ 0 ∷ 0 ∷ i_bad ∷ 0 ∷ 0 ∷ 0 ∷ 0 ∷ 0 ∷ i_bad ∷ 0 ∷ 0 ∷ i_moda ∷ 0 ∷ 0 ∷ []

abbrev twobyte_10 : List ℕ
twobyte_10 =
    i_moda ∷ i_moda ∷ i_moda ∷ i_moda ∷ i_moda ∷ i_moda ∷ i_moda ∷ i_moda ∷ i_moda ∷ i_bad ∷ i_bad
    ∷ i_bad ∷ i_bad ∷ i_bad ∷ i_bad ∷ i_moda ∷ []

abbrev twobyte_20 : List ℕ
twobyte_20 =
    i_mod ∷ i_mod ∷ i_mod ∷ i_mod ∷ i_bad ∷ i_bad ∷ i_bad ∷ i_bad ∷ i_moda ∷ i_moda ∷ i_moda
    ∷ i_moda ∷ i_moda ∷ i_moda ∷ i_moda ∷ i_moda ∷ []

abbrev twobyte_30 : List ℕ
twobyte_30 =
    0
    ∷ 0
    ∷ 0
    ∷ 0
    ∷ 0
    ∷ 0
    ∷ i_bad
    ∷ 0
    ∷ i_moda
    ∷ i_bad
    ∷ (i_moda or i_8)
    ∷ i_bad
    ∷ i_bad
    ∷ i_bad
    ∷ i_bad
    ∷ i_bad
    ∷ []

abbrev twobyte_40 : List ℕ
twobyte_40 = replicate 16 i_moda

abbrev twobyte_50 : List ℕ
twobyte_50 =
    i_mod ∷ i_moda ∷ i_moda ∷ i_moda ∷ i_moda ∷ i_moda ∷ i_moda ∷ i_moda ∷ i_moda ∷ i_moda ∷ i_moda
    ∷ i_moda ∷ i_moda ∷ i_moda ∷ i_moda ∷ i_moda ∷ []

abbrev twobyte_60 : List ℕ
twobyte_60 = replicate 16 i_moda

abbrev twobyte_70 : List ℕ
twobyte_70 =
    i_moda
    ∷ (i_mod or i_8)
    ∷ (i_mod or i_8)
    ∷ (i_mod or i_8)
    ∷ i_moda
    ∷ i_moda
    ∷ i_moda
    ∷ 0
    ∷ i_moda
    ∷ i_moda
    ∷ i_bad
    ∷ i_bad
    ∷ i_moda
    ∷ i_moda
    ∷ i_moda
    ∷ i_moda
    ∷ []

abbrev twobyte_80 : List ℕ
twobyte_80 = replicate 16 (i_z or i_jimm)

abbrev twobyte_90 : List ℕ
twobyte_90 = replicate 16 i_moda

abbrev twobyte_a0 : List ℕ
twobyte_a0 =
    0
    ∷ 0
    ∷ 0
    ∷ 0
    ∷ 0
    ∷ 0
    ∷ i_bad
    ∷ i_bad
    ∷ 0
    ∷ 0
    ∷ 0
    ∷ i_moda
    ∷ (i_moda or i_8)
    ∷ i_moda
    ∷ i_moda
    ∷ i_moda
    ∷ []

abbrev twobyte_b0 : List ℕ
twobyte_b0 =
    i_moda
    ∷ i_moda
    ∷ i_moda
    ∷ i_moda
    ∷ i_moda
    ∷ i_moda
    ∷ i_moda
    ∷ i_moda
    ∷ i_moda
    ∷ 0
    ∷ (i_moda or i_8)
    ∷ i_moda
    ∷ i_moda
    ∷ i_moda
    ∷ i_moda
    ∷ i_moda
    ∷ []

abbrev twobyte_c0 : List ℕ
twobyte_c0 =
    i_moda
    ∷ i_moda
    ∷ (i_moda or i_8)
    ∷ i_moda
    ∷ (i_moda or i_8)
    ∷ (i_mod or i_8)
    ∷ (i_moda or i_8)
    ∷ (i_moda or i_z)
    ∷ 0
    ∷ 0
    ∷ 0
    ∷ 0
    ∷ 0
    ∷ 0
    ∷ 0
    ∷ 0
    ∷ []

abbrev twobyte_d0 : List ℕ
twobyte_d0 =
    i_moda ∷ i_moda ∷ i_moda ∷ i_moda ∷ i_moda ∷ i_moda ∷ i_moda ∷ i_mod ∷ i_moda ∷ i_moda ∷ i_moda
    ∷ i_moda ∷ i_moda ∷ i_moda ∷ i_moda ∷ i_moda ∷ []

abbrev twobyte_e0 : List ℕ
twobyte_e0 = replicate 16 i_moda

abbrev twobyte_f0 : List ℕ
twobyte_f0 =
    i_moda ∷ i_moda ∷ i_moda ∷ i_moda ∷ i_moda ∷ i_moda ∷ i_moda ∷ i_mod ∷ i_moda ∷ i_moda ∷ i_moda
    ∷ i_moda ∷ i_moda ∷ i_moda ∷ i_moda ∷ i_bad ∷ []

abbrev twobyte_rows : List (List ℕ)
twobyte_rows =
    twobyte_00 ∷ twobyte_10 ∷ twobyte_20 ∷ twobyte_30 ∷ twobyte_40 ∷ twobyte_50 ∷ twobyte_60
    ∷ twobyte_70 ∷ twobyte_80 ∷ twobyte_90 ∷ twobyte_a0 ∷ twobyte_b0 ∷ twobyte_c0 ∷ twobyte_d0
    ∷ twobyte_e0 ∷ twobyte_f0 ∷ []

unfoldable pub twobyte_bits : ℕ → ℕ
twobyte_bits byte = get_or (get_or twobyte_rows (byte / 16) []) (byte % 16) 0
