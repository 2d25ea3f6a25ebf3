-- ===== src/X86/JumpPatch.antt =====
-- lib/x86/jump-patch.h on x86-64. Each function that writes is the bytes that it writes.
use substitute.Common.{
  ℕ, ◌+◌, ◌-◌, ◌^◌, List, ◌++◌, Bool, false, Option, none, some, if◌then◌else◌, ◌==◌, ltb, u32, u64,
  sub64,
}
use substitute.Dis.{op8, op32, op64}

abbrev pub max_jump_patch_size : ℕ
max_jump_patch_size = 14

-- `(uint_tptr) (int32_t) v`
unfoldable pub sign_extend_32 : ℕ → ℕ
sign_extend_32 v = if ltb (u32 v) (2 ^ 31) then u32 v else u32 v + 2 ^ 64 - 2 ^ 32

unfoldable pub fits_32 : ℕ → Bool
unfolding sign_extend_32
fits_32 diff = diff == sign_extend_32 diff

-- `none` is the -1.
unfoldable pub jump_patch_size : ℕ → ℕ → Bool → Option ℕ
jump_patch_size pc dpc force =
    if fits_32 (sub64 dpc (u64 (pc + 5))) then some 5 else if force then some 14 else none

unfoldable pub make_jmp_or_call : ℕ → ℕ → Bool → List ℕ
make_jmp_or_call pc dpc call =
    let diff = sub64 dpc (u64 (pc + 5)) in
    if fits_32 diff
    then op8 (if call then 0xe8 else 0xe9) ++ op32 diff
    else op8 0xff ++ (op8 (if call then 0x15 else 0x25) ++ (op32 0 ++ op64 dpc))

abbrev pub make_jump_patch : ℕ → ℕ → List ℕ
make_jump_patch pc dpc = make_jmp_or_call pc dpc false
