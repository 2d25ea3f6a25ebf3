-- ===== src/Arm/JumpPatch/Sizes.antt =====
-- When the ARM jump patch has the size that is announced.
use substitute.Common.{
  ℕ, ◌+◌, ◌-◌, ◌^◌, ◌<◌, ◌≡◌, ◌≢◌, ◌⊎◌, inl, inr, refl, arith, Bool, if◌then◌else◌, ◌==◌, bit_and,
  length, u32, Bool-cases, ◌∙◌, ap,
}
use substitute.Dis.{op16, op32}
use substitute.Arm.Assemble.{actx_pc, ldr_pc}
use substitute.Arm.JumpPatch.{jump_patch_size, patch_ctx, make_jump_patch}

-- How far the patch is written from where it is to stand, plus the Thumb bit.
abbrev pub shift : ℕ → ℕ → Bool → ℕ
shift at pc thumb = u32 ((if thumb then 1 else 0) + (at + 2 ^ 32 - pc))

actx_pc-shift :
    (at pc : ℕ) (pc_low_bit : Bool)
    → at < 2 ^ 32
    → pc < 2 ^ 32
    → actx_pc (patch_ctx at pc pc_low_bit) ≡ shift at pc pc_low_bit
unfolding actx_pc
actx_pc-shift at pc pc_low_bit ha hp = omega arith

length-make_jump_patch :
    (at pc dpc : ℕ) (pc_low_bit : Bool)
    → length (make_jump_patch at pc dpc pc_low_bit)
      ≡ (if bit_and (actx_pc (patch_ctx at pc pc_low_bit)) 2 == 0 then 8 else 10)
unfolding make_jump_patch ldr_pc op16 op32
length-make_jump_patch at pc dpc pc_low_bit =
    elim (Bool-cases (bit_and (actx_pc (patch_ctx at pc pc_low_bit)) 2 == 0)) [
      | inl e ↦ rw e refl
      | inr e ↦ rw e refl
    ]

-- `LDR_PC` is padded by bit 1 of the distance of the 32-bit address that the patch is written at from
-- the one that it is for, plus the Thumb bit, and not by bit 1 of an address. The patch has the
-- announced size, which goes by bit 1 of the address that it is for, exactly where the two bits are
-- the same.
pub make_jump_patch-size_or_not :
    (at pc dpc : ℕ) (pc_low_bit : Bool)
    → at < 2 ^ 32
    → pc < 2 ^ 32
    → (((bit_and (shift at pc pc_low_bit) 2 == 0) ≡ (bit_and pc 2 == 0))
        × (length (make_jump_patch at pc dpc pc_low_bit) ≡ jump_patch_size pc))
      ⊎ (((bit_and (shift at pc pc_low_bit) 2 == 0) ≢ (bit_and pc 2 == 0))
          × (length (make_jump_patch at pc dpc pc_low_bit) ≢ jump_patch_size pc))
unfolding jump_patch_size
make_jump_patch-size_or_not at pc dpc pc_low_bit ha hp =
    let size =
      length-make_jump_patch at pc dpc pc_low_bit
      ∙ ap (λ (t : ℕ). if bit_and t 2 == 0 then 8 else 10) (actx_pc-shift at pc pc_low_bit ha hp) in
    elim (Bool-cases (bit_and (shift at pc pc_low_bit) 2 == 0)) [
      | inl e ↦ elim (Bool-cases (bit_and pc 2 == 0)) [
        | inl f ↦ rw (size, e, f) (inl (refl, refl))
        | inr f ↦ rw (size, e, f) (inr ((λ h. cc), (λ h. omega arith)))
      ]
      | inr e ↦ elim (Bool-cases (bit_and pc 2 == 0)) [
        | inl f ↦ rw (size, e, f) (inr ((λ h. cc), (λ h. omega arith)))
        | inr f ↦ rw (size, e, f) (inl (refl, refl))
      ]
    ]
