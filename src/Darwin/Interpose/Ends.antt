-- ===== src/Darwin/Interpose/Ends.antt =====
-- The reading of a bind section comes to an end, whatever it has.
use substitute.Common.{
  ℕ, zero, suc, ◌+◌, ◌≤◌, ◌≡◌, ◌⊎◌, inl, inr, refl, arith, List, [], ◌∷◌, Bool, true, false, Option,
  none, some, ◌==◌, bit_and, length, u32, Option-cases, Bool-cases,
}
use substitute.Darwin.Read.{Leb, add_bits, read_bits, read_leb128, read_cstring}
use substitute.Darwin.Interpose.{
  BindOpcode, BindType, ImportHook, Bind, BindStep, BindEnd, number_or, bind, bind_then,
  set_segment_to, add_to_offset, bind_strided, bind_counted, set_symbol_to, step, bind_all,
  try_bind_section,
}
use substitute.Darwin.Interpose.BindOpcode.{
  done, set_dylib, set_dylib_uleb, set_symbol, set_type, set_addend, set_segment, add_addr, do_bind,
  do_bind_add_addr, do_bind_scaled, do_bind_times, other,
}
use substitute.Darwin.Interpose.BindStep.{goes, panics, no_value}
use substitute.Darwin.Interpose.BindEnd.{bound, bind_panics, bind_no_value}

-- What is left of a read is no longer than what there was.
Shorter : {A : Type 0} → List ℕ → Option (A × List ℕ) → Type 0
Shorter bytes none = Unit {0}
Shorter bytes (some (a, left)) = length left ≤ length bytes

read_bits-left :
    (bytes : List ℕ) (result shift : ℕ) (l : Leb)
    → read_bits bytes result shift ≡ some l
    → length l.rest ≤ length bytes
unfolding read_bits
read_bits-left [] result shift l h = cc
read_bits-left (bit ∷ rest) result shift l h = elim (Bool-cases (bit_and bit 0x80 == 0)) [
  | inl last ↦
      let h' = rw (last, read_bits) at h in let same : l.rest ≡ rest = cc in rw same (omega arith)
  | inr more ↦
      let h' = rw (more, read_bits) at h in
      omega (arith, read_bits-left rest (add_bits result bit shift) (u32 (shift + 7)) l h')
]

read_leb128-Shorter :
    (bytes : List ℕ) (is_signed : Bool) → Shorter bytes (read_leb128 bytes is_signed)
unfolding Shorter read_leb128
read_leb128-Shorter bytes is_signed = elim (Option-cases (read_bits bytes 0 0)) [
  | inl e ↦ rw (e, read_leb128) tt
  | inr (l, e) ↦ rw (e, read_leb128) (read_bits-left bytes 0 0 l e)
]

cons-Shorter :
    (c : ℕ) (rest : List ℕ) (more : Option (List ℕ × List ℕ))
    → Shorter rest more
    → Shorter (c ∷ rest) (elim more [ none ↦ none | some (s, left) ↦ some (c ∷ s, left) ])
unfolding Shorter
cons-Shorter c rest none h = tt
cons-Shorter c rest (some (s, left)) h = omega (arith, h)

read_cstring-Shorter : (bytes : List ℕ) → Shorter bytes (read_cstring bytes)
unfolding Shorter read_cstring
read_cstring-Shorter [] = tt
read_cstring-Shorter (c ∷ rest) = elim (Bool-cases (c == 0)) [
  | inl e ↦ rw e (omega arith)
  | inr e ↦ rw e (cons-Shorter c rest (read_cstring rest) (read_cstring-Shorter rest))
]

number_or-left :
    (bytes : List ℕ) (is_signed : Bool) (old : ℕ)
    → length (number_or bytes is_signed old).1 ≤ length bytes
unfolding number_or Shorter
number_or-left bytes is_signed old =
    let shorter = read_leb128-Shorter bytes is_signed in
    elim (Option-cases (read_leb128 bytes is_signed)) [
      | inl e ↦ rw (e, number_or) (omega arith)
      | inr ((v, left), e) ↦ let shorter' = rw e at shorter in rw (e, number_or) shorter'
    ]

module _ (opcode_of : ℕ → BindOpcode) (immediate_of : ℕ → ℕ) (type_of : ℕ → BindType)
    (segments : List ℕ) (slide : ℕ) (hooks : List ImportHook) where
  Within : List ℕ → BindStep → Type 0
  Within rest (goes left b) = length left ≤ length rest
  Within rest panics = Unit {0}
  Within rest no_value = Unit {0}

  bind_then-Within :
      (rest left : List ℕ) (count stride : ℕ) (b : Bind)
      → length left ≤ length rest
      → Within rest
          (bind_then opcode_of immediate_of type_of segments slide hooks left count stride b)
  unfolding bind_then Within
  bind_then-Within rest left count stride b h =
      elim (Option-cases
        (bind opcode_of immediate_of type_of segments slide hooks count stride b)) [
          | inl e ↦ rw (e, bind_then) tt
          | inr (next, e) ↦ rw (e, bind_then) h
        ]

  bind_strided-Within :
      (rest bytes : List ℕ) (count : ℕ) (b : Bind) (read : Option (ℕ × List ℕ))
      → length bytes ≤ length rest
      → Shorter bytes read
      → Within rest (bind_strided opcode_of immediate_of type_of segments slide hooks count b read)
  unfolding bind_strided Within Shorter
  bind_strided-Within rest bytes count b none h k = tt
  bind_strided-Within rest bytes count b (some (stride, left)) h k =
      bind_then-Within rest left count _ b (omega (arith, h, k))

  bind_counted-Within :
      (rest : List ℕ) (b : Bind) (read : Option (ℕ × List ℕ))
      → Shorter rest read
      → Within rest (bind_counted opcode_of immediate_of type_of segments slide hooks b read)
  unfolding bind_counted Within Shorter
  bind_counted-Within rest b none k = tt
  bind_counted-Within rest b (some (count, left)) k =
      bind_strided-Within rest left count b _ k (read_leb128-Shorter left false)

  set_symbol_to-Within :
      (rest : List ℕ) (b : Bind) (read : Option (List ℕ × List ℕ))
      → Shorter rest read
      → Within rest (set_symbol_to opcode_of immediate_of type_of segments slide hooks rest b read)
  unfolding set_symbol_to Within Shorter
  set_symbol_to-Within rest b none k = omega arith
  set_symbol_to-Within rest b (some (s, left)) k = k

  add_to_offset-Within :
      (rest left : List ℕ) (b : Bind) (added : Option ℕ)
      → length left ≤ length rest
      → Within rest (add_to_offset opcode_of immediate_of type_of segments slide hooks b added left)
  unfolding add_to_offset Within
  add_to_offset-Within rest left b none h = tt
  add_to_offset-Within rest left b (some added) h = h

  add_addr-Within :
      (byte : ℕ) (rest : List ℕ) (b : Bind)
      → Within rest (step opcode_of immediate_of type_of segments slide hooks add_addr byte rest b)
  unfolding step Shorter
  add_addr-Within byte rest b =
      let shorter = read_leb128-Shorter rest false in
      elim (Option-cases (read_leb128 rest false)) [
        | inl e ↦ rw (e, step) (add_to_offset-Within rest rest b b.added_offset (omega arith))
        | inr ((added, left), e) ↦
            let shorter' = rw e at shorter in
            rw (e, step) (add_to_offset-Within rest left b (some added) shorter')
      ]

  step-Within :
      (op : BindOpcode) (byte : ℕ) (rest : List ℕ) (b : Bind)
      → Within rest (step opcode_of immediate_of type_of segments slide hooks op byte rest b)
  unfolding step Within set_segment_to
  step-Within done byte rest b = omega arith
  step-Within set_dylib byte rest b = omega arith
  step-Within other byte rest b = omega arith
  step-Within set_dylib_uleb byte rest b = number_or-left rest false 0
  step-Within set_symbol byte rest b = set_symbol_to-Within rest b _ (read_cstring-Shorter rest)
  step-Within set_type byte rest b = omega arith
  step-Within set_addend byte rest b = number_or-left rest true b.addend
  step-Within set_segment byte rest b = number_or-left rest false b.offset
  step-Within add_addr byte rest b = add_addr-Within byte rest b
  step-Within do_bind byte rest b = bind_then-Within rest rest 1 8 b (omega arith)
  step-Within do_bind_add_addr byte rest b =
      bind_strided-Within rest rest 1 b _ (omega arith) (read_leb128-Shorter rest false)
  step-Within do_bind_scaled byte rest b = bind_then-Within rest rest 1 _ b (omega arith)
  step-Within do_bind_times byte rest b =
      bind_counted-Within rest b _ (read_leb128-Shorter rest false)

  -- The end of a section: it has been bound, or a panic, or a variable without a value.
  BindEnds : BindEnd → Type 0
  BindEnds result =
      ((b : Bind) × (result ≡ bound b)) ⊎ ((result ≡ bind_panics) ⊎ (result ≡ bind_no_value))

  bind_all-next :
      (fuel byte : ℕ) (rest : List ℕ) (b : Bind) (s : BindStep)
      → step opcode_of immediate_of type_of segments slide hooks (opcode_of byte) byte rest b ≡ s
      → Within rest s
      → length rest ≤ fuel
      → ((left : List ℕ) (next : Bind)
          → length left ≤ fuel
          → BindEnds (bind_all opcode_of immediate_of type_of segments slide hooks fuel left next))
      → BindEnds
          (bind_all opcode_of immediate_of type_of segments slide hooks (suc fuel) (byte ∷ rest) b)
  unfolding bind_all Within BindEnds
  bind_all-next fuel byte rest b (goes left next) e w h more =
      rw (e, bind_all) (more left next (omega (arith, w, h)))
  bind_all-next fuel byte rest b panics e w h more = rw (e, bind_all) (inr (inl refl))
  bind_all-next fuel byte rest b no_value e w h more = rw (e, bind_all) (inr (inr refl))

  bind_all-BindEnds :
      (fuel : ℕ) (bytes : List ℕ) (b : Bind)
      → length bytes ≤ fuel
      → BindEnds (bind_all opcode_of immediate_of type_of segments slide hooks fuel bytes b)
  unfolding BindEnds bind_all
  bind_all-BindEnds zero [] b h = inl (b, refl)
  bind_all-BindEnds (suc fuel) [] b h = inl (b, refl)
  bind_all-BindEnds zero (byte ∷ rest) b h = elim h [ ]
  bind_all-BindEnds (suc fuel) (byte ∷ rest) b h =
      bind_all-next fuel byte rest b _ refl (step-Within (opcode_of byte) byte rest b) (omega arith)
        (λ left next le. bind_all-BindEnds fuel left next le)

  -- The fuel of `bind_all` is enough for any section and any meaning of its opcodes.
  try_bind_section-BindEnds :
      (type_pointer : ℕ) (section : List ℕ) (lazy : Bool) (memory : ℕ → ℕ)
      → BindEnds (
          try_bind_section opcode_of immediate_of type_of segments slide hooks type_pointer section
            lazy memory)
  unfolding try_bind_section
  try_bind_section-BindEnds type_pointer section lazy memory =
      bind_all-BindEnds (length section) section _ (omega arith)
