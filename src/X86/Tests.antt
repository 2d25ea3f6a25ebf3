-- ===== src/X86/Tests.antt =====
-- Runs of the x86 disassembler, the jump patch and the rewriting, and the theorems at concrete code.
use substitute.Common.{
  ℕ, zero, suc, ◌<◌, ◌≤◌, ◌≡◌, ◌≢◌, ◌⊎◌, refl, arith, List, [], ◌∷◌, true, false, some, length,
}
use substitute.X86.Flags.{i_pfx}
use substitute.X86.Onebyte.{onebyte_bits}
use substitute.X86.JumpPatch.{
  jump_patch_size, make_jmp_or_call, make_jump_patch, max_jump_patch_size, fits_32,
}
use substitute.X86.Decode.{X86Event, dis, type_of}
use substitute.X86.Decode.Dis.{decoded, bad_insn}
use substitute.X86.Decode.Ends.{dis-decodes}
use substitute.X86.RoundTrip.{Reads, reading, dis-make_jump_patch, length-make_jmp_or_call}
use substitute.X86.Transform.{transform_dis_main}
use substitute.X86.Transform.Ends.{Ends, NoRun, transform_dis_main-Rewrites}

-- `push %rbp; mov %rsp, %rbp; je .+18`
abbrev intro : ℕ → ℕ
intro = reading (0x55 ∷ 0x48 ∷ 0x89 ∷ 0xe5 ∷ 0x74 ∷ 0x10 ∷ [])

intro_bytes : (a : ℕ) → intro a < 256
intro_bytes zero = omega arith
intro_bytes (suc zero) = omega arith
intro_bytes (suc (suc zero)) = omega arith
intro_bytes (suc (suc (suc zero))) = omega arith
intro_bytes (suc (suc (suc (suc zero)))) = omega arith
intro_bytes (suc (suc (suc (suc (suc zero))))) = omega arith
intro_bytes (suc (suc (suc (suc (suc (suc a)))))) = omega arith

intro-NoRun : NoRun intro 4 0x1000 0x1005
unfolding onebyte_bits
intro-NoRun zero h = (0, omega arith, λ e. omega arith)
intro-NoRun (suc zero) h = (1, omega arith, λ e. omega arith)
intro-NoRun (suc (suc zero)) h = (0, omega arith, λ e. omega arith)
intro-NoRun (suc (suc (suc zero))) h = (0, omega arith, λ e. omega arith)
intro-NoRun (suc (suc (suc (suc zero)))) h = (0, omega arith, λ e. omega arith)
intro-NoRun (suc (suc (suc (suc (suc a))))) h = absurd (omega arith)

transform_dis_main-Rewrites_example :
    Ends 4 0x1000 0x1005 (transform_dis_main intro 0x2000 4 0x1000 0x1005 false)
transform_dis_main-Rewrites_example =
    transform_dis_main-Rewrites intro intro_bytes 0x2000 4 0x1000 0x1005 (omega arith) false
      (omega arith) (omega arith) (omega arith) intro-NoRun

no_prefix : type_of (onebyte_bits (intro 0)) ≢ i_pfx
unfolding onebyte_bits
no_prefix e = omega arith

dis-decodes_example :
    (dis intro 1 0x1000 ≡ bad_insn)
    ⊎ ((size : ℕ) × ((calls : List X86Event) × (dis intro 1 0x1000 ≡ decoded size calls)))
dis-decodes_example = dis-decodes intro intro_bytes 1 0x1000 0 (omega arith) no_prefix

dis-make_jump_patch_example :
    Reads 0x1000 0x2000
      (dis (reading (make_jump_patch 0x1000 0x2000)) 1 0x1000)
      (make_jump_patch 0x1000 0x2000)
dis-make_jump_patch_example = dis-make_jump_patch 0x1000 0x2000 (omega arith) (omega arith)

announced : jump_patch_size 0x1000 0x2000 true ≡ some 5
unfolding jump_patch_size fits_32
announced = refl

length-make_jmp_or_call_example :
    (length (make_jmp_or_call 0x1000 0x2000 true) ≡ 5) × (5 ≤ max_jump_patch_size)
length-make_jmp_or_call_example = length-make_jmp_or_call 0x1000 0x2000 5 true announced
