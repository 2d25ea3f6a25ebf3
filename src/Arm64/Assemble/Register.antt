-- ===== src/Arm64/Assemble/Register.antt =====
-- The temporary register of lib/arm64/arch-dis.h.
use substitute.Common.{
  ℕ, zero, suc, ◌+◌, ◌-◌, ◌*◌, ◌/◌, ◌%◌, ◌^◌, ◌≤◌, ◌<◌, ◌≡◌, ◌↔◌, ◌∙◌, sym, ap, refl, arith, Bool,
  true, ◌&&◌, Option, none, some, ◌==◌, leb, bit_and, if◌then◌else◌,
}
use substitute.Common.Bits.{bit_and_field, below_all, below_all_at}
use substitute.Arm64.Assemble.{clz, get_unwritten_temp_reg}

-- Of the word only the bits of x9 to x17 count.
from_field : ℕ → Option ℕ
unfolding clz
from_field f = if (511 - f) * 512 == 0 then none else some (31 - clz ((511 - f) * 512))

get_unwritten_temp_reg-field :
    (regs : ℕ) → regs < 2 ^ 32 → get_unwritten_temp_reg regs ≡ from_field (regs / 512 % 512)
unfolding from_field get_unwritten_temp_reg
get_unwritten_temp_reg-field regs h =
    let field : bit_and (2 ^ 32 - 1 - regs) 261632 ≡ (511 - regs / 512 % 512) * 512 =
      bit_and_field 9 9 (2 ^ 32 - 1 - regs) ∙ omega arith in
    rw field refl

is_free : ℕ → Bool
is_free f = elim (from_field f) [
  | none ↦ f == 511
  | some r ↦ leb 9 r && (leb r 17 && f / 2 ^ (r - 9) % 2 == 0)
]

is_free_table : below_all 512 is_free ≡ true
unfolding below_all is_free from_field
is_free_table = refl

is_free-some :
    (f r : ℕ)
    → is_free f ≡ true
    → from_field f ≡ some r
    → (9 ≤ r) × (r ≤ 17) × (f / 2 ^ (r - 9) % 2 ≡ 0)
unfolding is_free
is_free-some f r h e = let h' = rw (e, is_free) at h in ground arith

-- The bits 9 to 17 of the word are the bits 0 to 8 of the field.
field_bit : (x r j : ℕ) → j ≤ 8 → r ≡ j + 9 → x / 512 % 512 / 2 ^ j % 2 ≡ x / 2 ^ r % 2
field_bit x r zero h e = rw e (omega arith)
field_bit x r (suc zero) h e = rw e (omega arith)
field_bit x r (suc (suc zero)) h e = rw e (omega arith)
field_bit x r (suc (suc (suc zero))) h e = rw e (omega arith)
field_bit x r (suc (suc (suc (suc zero)))) h e = rw e (omega arith)
field_bit x r (suc (suc (suc (suc (suc zero))))) h e = rw e (omega arith)
field_bit x r (suc (suc (suc (suc (suc (suc zero)))))) h e = rw e (omega arith)
field_bit x r (suc (suc (suc (suc (suc (suc (suc zero))))))) h e = rw e (omega arith)
field_bit x r (suc (suc (suc (suc (suc (suc (suc (suc zero)))))))) h e = rw e (omega arith)
field_bit x r (suc (suc (suc (suc (suc (suc (suc (suc (suc j))))))))) h e = absurd (omega arith)

-- The register that is picked for a 32-bit mask is one of x9 to x17, and the mask has no bit for
-- it.
pub get_unwritten_temp_reg-some :
    (regs r : ℕ)
    → regs < 2 ^ 32
    → get_unwritten_temp_reg regs ≡ some r
    → (9 ≤ r) × (r ≤ 17) × (regs / 2 ^ r % 2 ≡ 0)
get_unwritten_temp_reg-some regs r h e =
    let e' = sym (get_unwritten_temp_reg-field regs h) ∙ e in
    let checked = below_all_at 512 is_free (regs / 512 % 512) is_free_table (omega arith) in
    let (lo, hi, free) = is_free-some (regs / 512 % 512) r checked e' in
    (lo, hi, rw (← field_bit regs r (r - 9) (omega arith) (omega arith)) free)

none_is_full : (f : ℕ) → is_free f ≡ true → from_field f ≡ none → f ≡ 511
unfolding is_free
none_is_full f h e = let h' = rw (e, is_free) at h in ground arith

full_is_none : from_field 511 ≡ none
unfolding from_field
full_is_none = refl

-- For a 32-bit mask there is no register to pick exactly when it has all of x9 to x17.
pub get_unwritten_temp_reg-none_iff :
    (regs : ℕ) → regs < 2 ^ 32 → (get_unwritten_temp_reg regs ≡ none) ↔ (regs / 512 % 512 ≡ 511)
get_unwritten_temp_reg-none_iff regs h =
    let field = get_unwritten_temp_reg-field regs h in
    let checked = below_all_at 512 is_free (regs / 512 % 512) is_free_table (omega arith) in
    (
      λ e. none_is_full (regs / 512 % 512) checked (sym field ∙ e),
      λ full. field ∙ ap from_field full ∙ full_is_none,
    )
