-- ===== src/TransformDis/Entries.antt =====
-- `offset_by_pcdiff` after each round.
use mathlib.Core.Path.{◌∙◌, ap, sym}
use substitute.Common.{
  ℕ, zero, suc, ◌+◌, ◌-◌, ◌%◌, ◌<◌, ◌≤◌, ◌≡◌, ◌≢◌, inl, inr, refl, arith, List, [], ◌∷◌, ◌++◌,
  Option, none, some, length, length-append, get_or, Bool-cases, ◌==◌, ltb,
}
use substitute.TransformDis.{add_offset}

-- The table for the first `span` bytes of the patch, which are rewritten to `limit` bytes: the entries
-- are 0 at the start, `limit` at the end, from four to 24 more from an instruction to the next, and
-- -1 elsewhere.
pub record Entries (offsets : List (Option ℕ)) (span limit : ℕ) : Type 0 where
  pub first : get_or offsets 0 none ≡ some 0
  pub last : get_or offsets span none ≡ some limit
  pub steps :
      (k : ℕ)
      → k + 4 ≤ span
      → k % 4 ≡ 0
      → (o n : ℕ) × (get_or offsets k none ≡ some o)
        × (get_or offsets (k + 4) none ≡ some (o + n))
        × (4 ≤ n)
        × (n ≤ 24)
  pub len : length offsets ≡ span + 1
  pub starts :
      (k : ℕ) → k ≤ span → k % 4 ≡ 0 → (o : ℕ) × (get_or offsets k none ≡ some o) × (o ≤ limit)
  pub between : (k : ℕ) → k ≤ span → k % 4 ≢ 0 → get_or offsets k none ≡ none

module _ {A : Type 0} where
  pub get_or-append_left :
      (xs ys : List A) (k : ℕ) (d : A) → k < length xs → get_or (xs ++ ys) k d ≡ get_or xs k d
  get_or-append_left [] ys k d h = elim h [ ]
  get_or-append_left (x ∷ xs) ys zero d h = refl
  get_or-append_left (x ∷ xs) ys (suc k) d h = get_or-append_left xs ys k d (omega arith)

  pub get_or-append_right :
      (xs ys : List A) (k j : ℕ) (d : A) → k ≡ length xs + j → get_or (xs ++ ys) k d ≡ get_or ys j d
  get_or-append_right [] ys k j d h = let same : k ≡ j = omega arith in rw same refl
  get_or-append_right (x ∷ xs) ys zero j d h = absurd (omega arith)
  get_or-append_right (x ∷ xs) ys (suc k) j d h = get_or-append_right xs ys k j d (omega arith)

module _ (offsets : List (Option ℕ)) (span limit out : ℕ) (w : Entries offsets span limit)
    (whole : span % 4 ≡ 0) (grows : limit + 4 ≤ out) (most : out ≤ limit + 24) where
  abbrev row : List (Option ℕ)
  row = none ∷ none ∷ none ∷ some out ∷ []

  add_offset-row : add_offset offsets (span + 4) out ≡ offsets ++ row
  unfolding add_offset
  add_offset-row = let three : span + 4 - length offsets ≡ 3 = omega (arith, w.len) in rw three refl

  row_at : (k j : ℕ) → k ≡ span + 1 + j → get_or (offsets ++ row) k none ≡ get_or row j none
  row_at k j h = get_or-append_right offsets row k j none (omega (arith, w.len))

  row_starts :
      (k : ℕ)
      → k ≤ span + 4
      → k % 4 ≡ 0
      → (o : ℕ) × (get_or (offsets ++ row) k none ≡ some o) × (o ≤ out)
  row_starts k le h = elim (Bool-cases (ltb span k)) [
    | inr old ↦
        let (o, e, small) = w.starts k (ground arith) h in
        (o, get_or-append_left offsets row k none (ground (arith, w.len)) ∙ e, omega arith)
    | inl new ↦ let last : k ≡ span + 1 + 3 = ground arith in (out, row_at k 3 last, omega arith)
  ]

  row_between : (k : ℕ) → k ≤ span + 4 → k % 4 ≢ 0 → get_or (offsets ++ row) k none ≡ none
  row_between k le h = elim (Bool-cases (ltb span k)) [
    | inr old ↦
        get_or-append_left offsets row k none (ground (arith, w.len)) ∙ w.between k (ground arith) h
    | inl new ↦ elim (Bool-cases (k == span + 1)) [
      | inl e ↦ row_at k 0 (ground arith)
      | inr e ↦ elim (Bool-cases (k == span + 2)) [
        | inl f ↦ row_at k 1 (ground arith)
        | inr f ↦ row_at k 2 (ground arith)
      ]
    ]
  ]

  row_first : get_or (offsets ++ row) 0 none ≡ some 0
  row_first = get_or-append_left offsets row 0 none (omega (arith, w.len)) ∙ w.first

  row_steps :
      (k : ℕ)
      → k + 4 ≤ span + 4
      → k % 4 ≡ 0
      → (o n : ℕ) × (get_or (offsets ++ row) k none ≡ some o)
        × (get_or (offsets ++ row) (k + 4) none ≡ some (o + n))
        × (4 ≤ n)
        × (n ≤ 24)
  row_steps k le h = elim (Bool-cases (ltb span (k + 4))) [
    | inr old ↦
        let (o, n, here, there, lo, hi) = w.steps k (ground arith) h in
        (
          o,
          n,
          get_or-append_left offsets row k none (ground (arith, w.len)) ∙ here,
          get_or-append_left offsets row (k + 4) none (ground (arith, w.len)) ∙ there,
          lo,
          hi,
        )
    | inl new ↦
        let same : k ≡ span = ground arith in
        let end : limit + (out - limit) ≡ out = omega arith in
        (
          limit,
          out - limit,
          get_or-append_left offsets row k none (ground (arith, w.len))
              ∙ ap (λ t. get_or offsets t none) same
              ∙ w.last,
          row_at (k + 4) 3 (omega arith) ∙ ap some (sym end),
          omega arith,
          omega arith,
        )
  ]

  pub add_offset-Entries : Entries (add_offset offsets (span + 4) out) (span + 4) out
  add_offset-Entries = rw add_offset-row (record {
    len = length-append offsets row ∙ omega (arith, w.len);
    first = row_first;
    last = row_at (span + 4) 3 (omega arith);
    steps = row_steps;
    starts = row_starts;
    between = row_between;
  })
