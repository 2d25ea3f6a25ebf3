-- ===== src/X86/Decode/Total.antt =====
-- One step of the disassembler, from `restart`: the flags that it finds are those of the tables, and
-- it does not abort.
use substitute.Common.{
  ℕ, ◌+◌, ◌<◌, ◌≤◌, ◌≡◌, inl, inr, refl, arith, Bool, true, false, not, ◌||◌, if◌then◌else◌, ◌==◌,
  bit_and, ◌>>>◌, Bool-cases,
}
use substitute.Common.Bits.{below_all, below_all_at}
use substitute.X86.Flags.{i_8, i_z, i_imm_mask, i_moda, i_pfx, i_spec, i_jimm_only, i_bad}
use substitute.X86.Onebyte.{onebyte_bits}
use substitute.X86.Twobyte.{twobyte_bits}
use substitute.X86.Decode.{
  Step, type_of, has, plain, vex_3_bits, prefix, xop_bits, group_ff_bits, special, step,
}
use substitute.X86.Decode.Step.{restart, opcode, bad_opcode, aborted}

-- Flags that say "the immediate is a jump" go with an immediate of one byte or of the operand size.
abbrev pub jump_flags : ℕ → Bool
jump_flags bits =
    (bits == i_bad)
    || (not (has bits i_jimm_only)
        || ((bit_and bits i_imm_mask == i_8) || (bit_and bits i_imm_mask == i_z)))

-- The special cases are those of the source.
abbrev special_byte : ℕ → Bool
special_byte b =
    not (type_of (onebyte_bits b) == i_spec)
    || ((b == 0x0f) || ((bit_and b 0xf8 == 0xd8) || (b == 0xff)))

onebyte_flags : below_all 256 (λ b. jump_flags (onebyte_bits b)) ≡ true
unfolding below_all onebyte_bits
onebyte_flags = refl

twobyte_flags : below_all 256 (λ b. jump_flags (twobyte_bits b)) ≡ true
unfolding below_all twobyte_bits
twobyte_flags = refl

special_bytes : below_all 256 special_byte ≡ true
unfolding below_all onebyte_bits
special_bytes = refl

pub true-ne_false : true ≡ false → ⊥
true-ne_false h = cc

-- What `step` may come to. It goes back to `restart` on a prefix only, and one byte on; an opcode
-- has at most three bytes more.
unfoldable pub IsRight : Bool → ℕ → Step → Type 0
IsRight is_prefix next (restart off opnd_size rm) =
    (is_prefix ≡ true) × (off ≡ next) × (opnd_size ≤ 8)
IsRight is_prefix next (opcode o) =
    (jump_flags o.bits ≡ true)
    × ((o.bits == i_bad) ≡ false)
    × (next ≤ o.off)
    × (o.off ≤ next + 3)
    × (o.opnd_size ≤ 8)
IsRight is_prefix next bad_opcode = Unit {0}
IsRight is_prefix next aborted = ⊥

module _ (is_prefix : Bool) (next : ℕ) where
  if-IsRight :
      (b : Bool) (s t : Step)
      → IsRight is_prefix next s
      → IsRight is_prefix next t
      → IsRight is_prefix next (if b then s else t)
  if-IsRight true s t h k = h
  if-IsRight false s t h k = k

onebyte_right : (b : ℕ) → b < 256 → jump_flags (onebyte_bits b) ≡ true
onebyte_right b h = below_all_at 256 (λ c. jump_flags (onebyte_bits c)) b onebyte_flags h

twobyte_right : (b : ℕ) → b < 256 → jump_flags (twobyte_bits b) ≡ true
twobyte_right b h = below_all_at 256 (λ c. jump_flags (twobyte_bits c)) b twobyte_flags h

module _ (read : ℕ → ℕ) (bytes : (a : ℕ) → read a < 256) where
  vex_3_right : (byte2 : ℕ) → byte2 < 256 → jump_flags (vex_3_bits read byte2) ≡ true
  unfolding vex_3_bits
  vex_3_right byte2 h = ground (
    arith,
    twobyte_right byte2 h,
    twobyte_right 0x38 (omega arith),
    twobyte_right 0x3a (omega arith),
  )

  xop_right : (byte2 : ℕ) → jump_flags (xop_bits read byte2) ≡ true
  unfolding xop_bits
  xop_right byte2 = ground arith

  group_ff_right : (modrm : ℕ) → jump_flags (group_ff_bits read modrm) ≡ true
  unfolding group_ff_bits
  group_ff_right modrm = ground arith

  module _ (is_prefix : Bool) (next : ℕ) where
    plain-IsRight :
        (byte1 bits off opnd_size rm : ℕ)
        → jump_flags bits ≡ true
        → next ≤ off
        → off ≤ next + 3
        → opnd_size ≤ 8
        → IsRight is_prefix next (plain read byte1 bits off opnd_size rm)
    unfolding plain IsRight
    plain-IsRight byte1 bits off opnd_size rm h lo hi small = elim (Bool-cases (bits == i_bad)) [
      | inl e ↦ rw e tt
      | inr e ↦ rw e (h, e, lo, hi, small)
    ]

    prefix-IsRight :
        (byte1 off opnd_size rm : ℕ)
        → byte1 < 256
        → (onebyte_bits byte1 == i_bad) ≡ false
        → is_prefix ≡ true
        → off ≡ next
        → opnd_size ≤ 8
        → IsRight is_prefix next (prefix read byte1 off opnd_size rm)
    unfolding prefix IsRight
    prefix-IsRight byte1 off opnd_size rm h e p n small =
        let byte2 = read off in
        if-IsRight is_prefix next (byte1 == 0x66) _ _ (p, n, omega arith)
          (if-IsRight is_prefix next (bit_and byte1 0xf0 == 0x40) _ _ (p, n, ground arith)
            (if-IsRight is_prefix next (byte1 == 0xc4) _ _
              (plain-IsRight byte1 (vex_3_bits read byte2) (off + 3) opnd_size _
                (vex_3_right byte2 (bytes off)) (omega arith) (omega arith) small)
              (if-IsRight is_prefix next (byte1 == 0xc5) _ _
                (plain-IsRight byte1 (twobyte_bits byte2) (off + 1) opnd_size rm
                  (twobyte_right byte2 (bytes off)) (omega arith) (omega arith) small)
                (if-IsRight is_prefix next (byte1 == 0x8f) _ _
                  (if-IsRight is_prefix next (bit_and (byte2 >>> 3) 7 == 0) _ _
                    (onebyte_right byte1 h, e, omega arith, omega arith, small)
                    (plain-IsRight byte1 (xop_bits read byte2) (off + 1) opnd_size _
                      (xop_right byte2) (omega arith) (omega arith) small))
                  (p, n, small)))))

    special-IsRight :
        (byte1 off opnd_size rm : ℕ)
        → byte1 < 256
        → (type_of (onebyte_bits byte1) == i_spec) ≡ true
        → off ≡ next
        → opnd_size ≤ 8
        → IsRight is_prefix next (special read byte1 off opnd_size rm)
    unfolding special
    special-IsRight byte1 off opnd_size rm h spec n small =
        let one_of = below_all_at 256 special_byte byte1 special_bytes h in
        elim (Bool-cases (byte1 == 0x0f)) [
          | inl a ↦ rw a (
              plain-IsRight byte1 (twobyte_bits (read off)) (off + 1) opnd_size rm
                (twobyte_right (read off) (bytes off)) (omega arith) (omega arith) small)
          | inr a ↦ elim (Bool-cases (bit_and byte1 0xf8 == 0xd8)) [
            | inl b ↦
                rw (a, b)
                  (plain-IsRight byte1 i_moda (off + 1) opnd_size rm refl (omega arith)
                    (omega arith) small)
            | inr b ↦
                let c : (byte1 == 0xff) ≡ true = ground arith in
                rw (a, b, c)
                  (plain-IsRight byte1 (group_ff_bits read (read off)) off opnd_size rm
                    (group_ff_right (read off)) (omega arith) (omega arith) small)
          ]
        ]

  pub step-IsRight :
      (off opnd_size rm : ℕ)
      → opnd_size ≤ 8
      → IsRight (type_of (onebyte_bits (read off)) == i_pfx) (off + 1) (step read off opnd_size rm)
  unfolding step
  step-IsRight off opnd_size rm small =
      let byte1 = read off in
      let bits = onebyte_bits byte1 in
      let is_prefix = type_of bits == i_pfx in
      elim (Bool-cases (type_of bits == i_spec)) [
        | inl spec ↦ rw spec (
            special-IsRight is_prefix (off + 1) byte1 (off + 1) opnd_size rm (bytes off) spec refl
              small)
        | inr other ↦ elim (Bool-cases (bits == i_bad)) [
          | inl is_bad ↦ rw (other, is_bad) (unfold IsRight in tt)
          | inr good ↦ elim (Bool-cases is_prefix) [
            | inl p ↦
                rw (other, good, p)
                  (prefix-IsRight true (off + 1) byte1 (off + 1) opnd_size rm (bytes off) good refl
                    refl small)
            | inr n ↦
                rw (other, good, n)
                  (plain-IsRight false (off + 1) byte1 bits (off + 1) opnd_size rm
                    (onebyte_right byte1 (bytes off)) (omega arith) (omega arith) small)
          ]
        ]
      ]
