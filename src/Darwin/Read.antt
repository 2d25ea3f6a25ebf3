-- ===== src/Darwin/Read.antt =====
-- lib/darwin/read.c and lib/darwin/read.h. What lies between `*ptr` and `end` is the list of its
-- bytes; `none` is false, and then `*ptr` and `*out` stay as they are.
pub mod Uleb
use substitute.Common.{
  ℕ, ◌+◌, ◌-◌, ◌*◌, ◌^◌, List, [], ◌∷◌, Bool, true, false, not, ◌&&◌, Option, none, some,
  if◌then◌else◌, ◌==◌, ltb, bit_and, ◌or◌, ◌<<<◌, u32, u64,
}

-- After the loop of `read_leb128`: the value, the shift, the last byte and what is left.
pub record Leb : Type 0 where
  pub result : ℕ
  pub shift : ℕ
  pub bit : ℕ
  pub rest : List ℕ

unfoldable pub add_bits : ℕ → ℕ → ℕ → ℕ
add_bits result bit shift =
    if ltb shift 64 then result or u64 (bit_and bit 0x7f <<< shift) else result

unfoldable pub read_bits : List ℕ → ℕ → ℕ → Option Leb
read_bits [] result shift = none
read_bits (bit ∷ rest) result shift =
    let more = read_bits rest (add_bits result bit shift) (u32 (shift + 7)) in
    if bit_and bit 0x80 == 0
    then some (record {
      result = add_bits result bit shift;
      shift = u32 (shift + 7);
      bit = bit;
      rest = rest;
    })
    else more

unfoldable pub extend_sign : Bool → Leb → ℕ
extend_sign is_signed l =
    if is_signed && (not (bit_and l.bit 0x40 == 0) && ltb l.shift 64)
    then l.result or u64 ((2 ^ 64 - 1) <<< l.shift)
    else l.result

unfoldable pub read_leb128 : List ℕ → Bool → Option (ℕ × List ℕ)
read_leb128 bytes is_signed = elim (read_bits bytes 0 0) [
  | none ↦ none
  | some l ↦ some (extend_sign is_signed l, l.rest)
]

-- The bytes before the terminator, and what is behind it.
unfoldable pub read_cstring : List ℕ → Option (List ℕ × List ℕ)
read_cstring [] = none
read_cstring (c ∷ rest) =
    let more = read_cstring rest in
    if c == 0
    then some ([], rest)
    else (elim more [ none ↦ none | some (s, left) ↦ some (c ∷ s, left) ])
