-- ===== src/Arm64/Tree/Flat.antt =====
-- The tree against the encodings of the architecture manual, read field by field.
use substitute.Common.{
  ℕ, ◌+◌, ◌*◌, ◌/◌, ◌%◌, ◌^◌, ◌<◌, ◌≡◌, refl, arith, Bool, true, false, ◌&&◌, ◌||◌, bit_and,
  if◌then◌else◌, ◌==◌, ltb, ◌∙◌, sym, ap, ==_iff,
}
use substitute.Common.Bits.{
  bit_and_high, bit_and_mask, bit_and_split, bit_and_field, below_all, below_all_at,
}
use substitute.Arm64.Tree.{Insn, find_insn, masked}
use substitute.Arm64.Tree.Insn.{adr, adrp, b, bl, bcc, cbz, tbz, ldr_literal, blr, unidentified}

-- The words for each handler: the register branches are `BLR` and the forms of `RET`.
unfoldable pub classify : ℕ → Insn
classify op =
    if op / 2 ^ 24 % 32 == 0x10
    then (if op / 2 ^ 31 == 0 then adr else adrp)
    else if op / 2 ^ 26 == 0x05
    then b
    else if op / 2 ^ 26 == 0x25
    then bl
    else if (op / 2 ^ 24 == 0x54) && (op / 2 ^ 4 % 2 == 0)
    then bcc
    else if op / 2 ^ 25 % 64 == 0x1a
    then cbz
    else if op / 2 ^ 25 % 64 == 0x1b
    then tbz
    else if (op / 2 ^ 27 % 8 == 3) && (op / 2 ^ 24 % 4 == 0) && ltb (op / 2 ^ 30) 3
    then ldr_literal
    else if masked op 0xfffffc1f 0xd63f0000
        || masked op 0xfffffc1f 0xd65f0000
        || masked op 0xfffffbff 0xd65f0bff
    then blr
    else unidentified

-- What the tree and `classify` read of a word: the top byte `t`, the two bits below it, and four
-- tests that they share.
record Tests : Type 0 where
  bit_4 : Bool
  is_blr : Bool
  is_ret : Bool
  is_reta : Bool

tree_top : ℕ → ℕ → Tests → Insn
tree_top t u k =
    let adr_or = if bit_and t 0x9f == 0x10 then adr else unidentified in
    let adrp_or = if bit_and t 0x9f == 0x90 then adrp else unidentified in
    let cbz_or = if bit_and t 0x7e == 0x34 then cbz else unidentified in
    let tbz_or = if bit_and t 0x7e == 0x36 then tbz else unidentified in
    let ldr_or = if bit_and t 0xbb == 0x18 then ldr_literal else unidentified in
    let s = t / 32 in
    let s2 = t / 4 % 4 in
    let s1 = t / 2 % 4 in
    let s0 = t % 4 * 4 + u in
    if s == 0
    then (if s2 == 0
        then adr_or
        else if s2 == 1
        then (if bit_and t 0xfc == 0x14 then b else unidentified)
        else ldr_or)
    else if s == 1
    then (if s1 == 0
        then adr_or
        else if s1 == 1
        then unidentified
        else if s1 == 2
        then cbz_or
        else tbz_or)
    else if s == 2
    then (if s2 == 0
        then adr_or
        else if s2 == 1
        then (if (t == 0x54) && k.bit_4 then bcc else unidentified)
        else ldr_or)
    else if s == 3
    then adr_or
    else if s == 4
    then (if s2 == 0
        then adrp_or
        else if s2 == 1
        then (if bit_and t 0xfc == 0x94 then bl else unidentified)
        else if bit_and t 0xfb == 0x98
        then ldr_literal
        else unidentified)
    else if s == 5
    then (if s1 == 0
        then adrp_or
        else if s1 == 1
        then unidentified
        else if s1 == 2
        then cbz_or
        else tbz_or)
    else if s == 6
    then (if s0 == 0 || s0 == 1 || s0 == 2 || s0 == 3
        then adrp_or
        else if s0 == 8
        then (if (t == 0xd6) && k.is_blr then blr else unidentified)
        else if s0 == 9
        then (if (t == 0xd6) && (k.is_ret || k.is_reta) then blr else unidentified)
        else unidentified)
    else adrp_or

classify_top : ℕ → ℕ → Tests → Insn
classify_top t u k =
    if t % 32 == 0x10
    then (if t / 128 == 0 then adr else adrp)
    else if t / 4 == 0x05
    then b
    else if t / 4 == 0x25
    then bl
    else if (t == 0x54) && k.bit_4
    then bcc
    else if t / 2 % 64 == 0x1a
    then cbz
    else if t / 2 % 64 == 0x1b
    then tbz
    else if (t / 8 % 8 == 3) && (t % 4 == 0) && ltb (t / 64) 3
    then ldr_literal
    else if (t == 0xd6) && ((u == 0) && k.is_blr || (u == 1) && (k.is_ret || k.is_reta))
    then blr
    else unidentified

code : Insn → ℕ
code adr = 0
code adrp = 1
code b = 2
code bl = 3
code bcc = 4
code cbz = 5
code tbz = 6
code ldr_literal = 7
code blr = 8
code unidentified = 9

uncode : ℕ → Insn
uncode c =
    if c == 0
    then adr
    else if c == 1
    then adrp
    else if c == 2
    then b
    else if c == 3
    then bl
    else if c == 4
    then bcc
    else if c == 5
    then cbz
    else if c == 6
    then tbz
    else if c == 7
    then ldr_literal
    else if c == 8
    then blr
    else unidentified

uncode-code : (i : Insn) → uncode (code i) ≡ i
unfolding uncode code
uncode-code i = ground arith

agree : ℕ → ℕ → Tests → Bool
agree t u k = code (tree_top t u k) == code (classify_top t u k)

both : (Bool → Bool) → Bool
both p = p true && p false

abbrev agree_all : ℕ → ℕ → Bool
agree_all t u = both λ x.
    both
      λ y. both λ z. both λ w. agree t u (record { bit_4 = x; is_blr = y; is_ret = z; is_reta = w })

table : below_all 256 (λ t. below_all 4 (λ u. agree_all t u)) ≡ true
unfolding below_all both agree code tree_top classify_top
table = refl

both_sound : (p : Bool → Bool) (x : Bool) → both p ≡ true → p x ≡ true
unfolding both
both_sound p true h = ground arith
both_sound p false h = ground arith

table_sound : (t u : ℕ) (k : Tests) → t < 256 → u < 4 → tree_top t u k ≡ classify_top t u k
unfolding agree
table_sound t u k ht hu =
    let row = below_all_at 256 (λ t'. below_all 4 (λ u'. agree_all t' u')) t table ht in
    let all = below_all_at 4 (λ u'. agree_all t u') u row hu in
    let one =
      both_sound _ k.is_reta
        (both_sound _ k.is_ret (both_sound _ k.is_blr (both_sound _ k.bit_4 all))) in
    sym (uncode-code (tree_top t u k))
    ∙ ap uncode ((==_iff _ _).0 one)
    ∙ uncode-code (classify_top t u k)

abbrev tests : ℕ → Tests
tests op = record {
  bit_4 = op / 2 ^ 4 % 2 == 0;
  is_blr = masked op 0xfffffc1f 0xd63f0000;
  is_ret = masked op 0xfffffc1f 0xd65f0000;
  is_reta = masked op 0xfffffbff 0xd65f0bff;
}

module _ (op : ℕ) (fits : op < 2 ^ 32) where
  -- The words behind the three masks of `BLR` and `RET`.
  wide_mask : bit_and op 0xfffffc1f ≡ op / 2 ^ 10 * 2 ^ 10 + op % 32
  wide_mask = ground (
    arith,
    bit_and_split 10 (op / 2 ^ 10) (op % 2 ^ 10) 0x3fffff 0x1f,
    bit_and_mask 22 (op / 2 ^ 10),
    bit_and_mask 5 (op % 2 ^ 10),
  )

  reta_mask : bit_and op 0xfffffbff ≡ op / 2 ^ 11 * 2 ^ 11 + op % 2 ^ 10
  reta_mask = ground (
    arith,
    bit_and_split 11 (op / 2 ^ 11) (op % 2 ^ 11) 0x1fffff 0x3ff,
    bit_and_mask 21 (op / 2 ^ 11),
    bit_and_mask 10 (op % 2 ^ 11),
  )

  bcc_mask : bit_and op 0xff000010 ≡ op / 2 ^ 24 * 2 ^ 24 + op / 2 ^ 4 % 2 * 16
  bcc_mask = ground (
    arith,
    bit_and_split 24 (op / 2 ^ 24) (op % 2 ^ 24) 0xff 0x10,
    bit_and_mask 8 (op / 2 ^ 24),
    bit_and_field 4 1 (op % 2 ^ 24),
  )

  blr_guard : ((op / 2 ^ 24 == 0xd6) && (tests op).is_blr) ≡ (tests op).is_blr
  blr_guard = rw wide_mask (ground arith)

  ret_guard :
      ((op / 2 ^ 24 == 0xd6) && ((tests op).is_ret || (tests op).is_reta))
      ≡ ((tests op).is_ret || (tests op).is_reta)
  ret_guard = rw (wide_mask, reta_mask) (ground arith)

  classify_guard :
      ((op / 2 ^ 24 == 0xd6)
        && ((op / 2 ^ 22 % 4 == 0) && (tests op).is_blr
            || (op / 2 ^ 22 % 4 == 1) && ((tests op).is_ret || (tests op).is_reta)))
      ≡ ((tests op).is_blr || (tests op).is_ret || (tests op).is_reta)
  classify_guard = rw (wide_mask, reta_mask) (ground arith)

  classify-top : classify op ≡ classify_top (op / 2 ^ 24) (op / 2 ^ 22 % 4) (tests op)
  unfolding classify classify_top
  classify-top =
      let e31 : op / 2 ^ 31 ≡ op / 2 ^ 24 / 128 = omega arith in
      let e26 : op / 2 ^ 26 ≡ op / 2 ^ 24 / 4 = omega arith in
      let e25 : op / 2 ^ 25 % 64 ≡ op / 2 ^ 24 / 2 % 64 = omega arith in
      let e27 : op / 2 ^ 27 % 8 ≡ op / 2 ^ 24 / 8 % 8 = omega arith in
      let e30 : op / 2 ^ 30 ≡ op / 2 ^ 24 / 64 = omega arith in
      rw (classify_guard, e31, e26, e25, e27, e30) refl

  masked_top : (m c : ℕ) → masked op (m * 2 ^ 24) (c * 2 ^ 24) ≡ (bit_and (op / 2 ^ 24) m == c)
  masked_top m c = rw (bit_and_high 24 m op) (ground arith)

  bcc_guard : masked op 0xff000010 0x54000000 ≡ ((op / 2 ^ 24 == 0x54) && (op / 2 ^ 4 % 2 == 0))
  bcc_guard = rw bcc_mask (ground arith)

  find_insn-top : find_insn op ≡ tree_top (op / 2 ^ 24) (op / 2 ^ 22 % 4) (tests op)
  unfolding find_insn tree_top
  find_insn-top =
      let e29 : bit_and (op / 2 ^ 29) 7 ≡ op / 2 ^ 24 / 32 =
        omega (arith, bit_and_mask 3 (op / 2 ^ 29)) in
      let e26 : bit_and (op / 2 ^ 26) 3 ≡ op / 2 ^ 24 / 4 % 4 =
        omega (arith, bit_and_mask 2 (op / 2 ^ 26)) in
      let e25 : bit_and (op / 2 ^ 25) 3 ≡ op / 2 ^ 24 / 2 % 4 =
        omega (arith, bit_and_mask 2 (op / 2 ^ 25)) in
      let e22 : bit_and (op / 2 ^ 22) 0xf ≡ op / 2 ^ 24 % 4 * 4 + op / 2 ^ 22 % 4 =
        omega (arith, bit_and_mask 4 (op / 2 ^ 22)) in
      rw
        (
          blr_guard,
          ret_guard,
          e29,
          e26,
          e25,
          e22,
          bcc_guard,
          masked_top 0x9f 0x10,
          masked_top 0x9f 0x90,
          masked_top 0x7e 0x34,
          masked_top 0x7e 0x36,
          masked_top 0xbb 0x18,
          masked_top 0xfb 0x98,
          masked_top 0xfc 0x14,
          masked_top 0xfc 0x94,
        )
        refl

-- The generated tree finds the same handler as the list of encodings, for every 32-bit word.
pub find_insn-classify : (op : ℕ) → op < 2 ^ 32 → find_insn op ≡ classify op
find_insn-classify op fits =
    find_insn-top op fits
    ∙ table_sound (op / 2 ^ 24) (op / 2 ^ 22 % 4) (tests op) (omega arith) (omega arith)
    ∙ sym (classify-top op fits)

-- A literal load has an allocated size.
pub classify-ldr : (op : ℕ) → classify op ≡ ldr_literal → op / 2 ^ 30 < 3
unfolding classify
classify-ldr op h = ground arith
