-- ===== src/X86/Transform/Offsets.antt =====
-- `offset_by_pcdiff` after each round, for instructions of any size.
use mathlib.Core.Path.{◌∙◌, sym}
use substitute.Common.{
  ℕ, zero, suc, ◌+◌, ◌-◌, ◌<◌, ◌≤◌, ◌≡◌, ◌⊎◌, inl, inr, refl, arith, List, [], ◌∷◌, ◌++◌, Option,
  none, some, length, length-append, replicate, get_or, Bool-cases, ltb,
}
use substitute.TransformDis.{add_offset}
use substitute.TransformDis.Entries.{get_or-append_left, get_or-append_right}

-- The table for the first `span` bytes of the patch, which `size` bytes of code have been put out
-- for: it begins with 0 and ends with `size`, and the offsets between rise.
pub record Offsets (offsets : List (Option ℕ)) (span size : ℕ) : Type 0 where
  pub len : length offsets ≡ span + 1
  pub first : get_or offsets 0 none ≡ some 0
  pub last : get_or offsets span none ≡ some size
  pub within : (k o : ℕ) → get_or offsets k none ≡ some o → o ≤ size
  pub rising :
      (k j o p : ℕ)
      → k < j
      → get_or offsets k none ≡ some o
      → get_or offsets j none ≡ some p
      → o < p

abbrev row : ℕ → ℕ → List (Option ℕ)
row n out = replicate n none ++ (some out ∷ [])

row_last : (n out : ℕ) → get_or (row n out) n none ≡ some out
row_last zero out = refl
row_last (suc n) out = row_last n out

length-row : (n out : ℕ) → length (row n out) ≡ n + 1
length-row zero out = refl
length-row (suc n) out = omega (arith, length-row n out)

row-some : (n k out o : ℕ) → get_or (row n out) k none ≡ some o → (k ≡ n) × (o ≡ out)
row-some zero zero out o h = (refl, cc)
row-some zero (suc k) out o h = cc
row-some (suc n) zero out o h = cc
row-some (suc n) (suc k) out o h = let (e, f) = row-some n k out o h in (omega arith, f)

pub begins-Offsets : Offsets (some 0 ∷ []) 0 0
begins-Offsets = record {
  len = refl;
  first = refl;
  last = refl;
  within = λ k o h. omega (arith, row-some 0 k 0 o h);
  rising = λ k j o p lt h g.
      let (e, _) = row-some 0 k 0 o h in let (f, _) = row-some 0 j 0 p g in absurd (omega arith);
}

module _ (offsets : List (Option ℕ)) (span size : ℕ) (w : Offsets offsets span size) (more out : ℕ)
    (some_more : 0 < more) (grows : size < out) where
  abbrev added : List (Option ℕ)
  added = offsets ++ row (more - 1) out

  add_offset-row : add_offset offsets (span + more) out ≡ added
  unfolding add_offset
  add_offset-row =
      let same : span + more - length offsets ≡ more - 1 = omega (arith, w.len) in rw same refl

  old_at : (k : ℕ) → k ≤ span → get_or added k none ≡ get_or offsets k none
  old_at k h = get_or-append_left offsets (row (more - 1) out) k none (omega (arith, w.len))

  -- An offset of the new table is an old one, or the last.
  added-some :
      (k o : ℕ)
      → get_or added k none ≡ some o
      → ((k ≤ span) × (get_or offsets k none ≡ some o)) ⊎ ((k ≡ span + more) × (o ≡ out))
  added-some k o h = elim (Bool-cases (ltb span k)) [
    | inr old ↦ let le : k ≤ span = ground arith in inl (le, sym (old_at k le) ∙ h)
    | inl new ↦
        let j = k - (span + 1) in
        let at : k ≡ length offsets + j = ground (arith, w.len) in
        let there = get_or-append_right offsets (row (more - 1) out) k j none at in
        let (e, f) = row-some (more - 1) j out o (sym there ∙ h) in inr (ground arith, f)
  ]

  added_last : get_or added (span + more) none ≡ some out
  added_last =
      let at : span + more ≡ length offsets + (more - 1) = omega (arith, w.len) in
      get_or-append_right offsets (row (more - 1) out) (span + more) (more - 1) none at
      ∙ row_last (more - 1) out

  added_within : (k o : ℕ) → get_or added k none ≡ some o → o ≤ out
  added_within k o h = elim (added-some k o h) [
    | inl (_, old) ↦ omega (arith, w.within k o old)
    | inr (_, new) ↦ omega arith
  ]

  added_rising :
      (k j o p : ℕ) → k < j → get_or added k none ≡ some o → get_or added j none ≡ some p → o < p
  added_rising k j o p lt h g = elim (added-some k o h) [
    | inr (e, _) ↦ elim (added-some j p g) [
      | inl (f, _) ↦ absurd (omega arith)
      | inr (f, _) ↦ absurd (omega arith)
    ]
    | inl (_, old) ↦ elim (added-some j p g) [
      | inl (_, old') ↦ w.rising k j o p lt old old'
      | inr (_, new) ↦ omega (arith, w.within k o old)
    ]
  ]

  pub add_offset-Offsets : Offsets (add_offset offsets (span + more) out) (span + more) out
  add_offset-Offsets = rw add_offset-row (record {
    len =
        omega (arith, length-append offsets (row (more - 1) out), length-row (more - 1) out, w.len);
    first = old_at 0 (omega arith) ∙ w.first;
    last = added_last;
    within = added_within;
    rising = added_rising;
  })
