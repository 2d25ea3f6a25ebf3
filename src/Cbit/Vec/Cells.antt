-- ===== src/Cbit/Vec/Cells.antt =====
-- Blocks of cells: what is read from and copied to them.
use substitute.Common.{
  ℕ, zero, suc, ◌+◌, ◌-◌, ◌<◌, ◌≤◌, ◌≡◌, ◌∙◌, refl, ap, arith, List, [], ◌∷◌, ◌++◌, true, false,
  leb, length, length-append, take, drop,
}
use substitute.Cbit.Vec.{copy_to, cells_from}
use substitute.Cbit.Vec.Outcome.{ok, out_of_bounds}

module _ {A : Type 0} where
  pub length-take : (n : ℕ) (xs : List A) → n ≤ length xs → length (take n xs) ≡ n
  length-take zero xs h = refl
  length-take (suc n) [] h = elim h [ ]
  length-take (suc n) (x ∷ xs) h = omega (arith, length-take n xs (omega arith))

  pub take-append_left : (n : ℕ) (xs ys : List A) → n ≤ length xs → take n (xs ++ ys) ≡ take n xs
  take-append_left zero xs ys h = refl
  take-append_left (suc n) [] ys h = elim h [ ]
  take-append_left (suc n) (x ∷ xs) ys h = ap (λ r. x ∷ r) (take-append_left n xs ys (omega arith))

  pub take-append_right :
      (n : ℕ) (xs ys : List A) → take (length xs + n) (xs ++ ys) ≡ xs ++ take n ys
  take-append_right n [] ys = let e : 0 + n ≡ n = omega arith in rw e refl
  take-append_right n (x ∷ xs) ys =
      let e : suc (length xs) + n ≡ suc (length xs + n) = omega arith in
      rw e (ap (λ r. x ∷ r) (take-append_right n xs ys))

  pub take_all : (n : ℕ) (xs : List A) → length xs ≤ n → take n xs ≡ xs
  take_all zero [] h = refl
  take_all zero (x ∷ xs) h = elim h [ ]
  take_all (suc n) [] h = refl
  take_all (suc n) (x ∷ xs) h = ap (λ r. x ∷ r) (take_all n xs (omega arith))

  pub take-take : (n m : ℕ) (xs : List A) → n ≤ m → take n (take m xs) ≡ take n xs
  take-take zero m xs h = refl
  take-take (suc n) zero xs h = absurd (omega arith)
  take-take (suc n) (suc m) [] h = refl
  take-take (suc n) (suc m) (x ∷ xs) h = ap (λ r. x ∷ r) (take-take n m xs (omega arith))

  pub length-drop : (n : ℕ) (xs : List A) → length (drop n xs) ≡ length xs - n
  length-drop zero xs = omega arith
  length-drop (suc n) [] = omega arith
  length-drop (suc n) (x ∷ xs) = omega (arith, length-drop n xs)

  -- The first cells are those before the copy, and the copy.
  pub take-copied :
      (els xs : List A) (at n : ℕ)
      → at + length xs ≤ length els
      → n ≡ at + length xs
      → take n (take at els ++ (xs ++ drop (at + length xs) els)) ≡ take at els ++ xs
  take-copied els xs at n fits e =
      let before = length-take at els (omega arith) in
      let same : n ≡ length (take at els) + length xs = omega (arith, before, e) in
      rw same (
        take-append_right (length xs) (take at els) (xs ++ drop (at + length xs) els)
        ∙ ap (λ r. take at els ++ r)
            (take-append_left (length xs) xs _ (omega arith) ∙ take_all _ xs (omega arith)))

  pub length-copied :
      (els xs : List A) (at : ℕ)
      → at + length xs ≤ length els
      → length (take at els ++ (xs ++ drop (at + length xs) els)) ≡ length els
  length-copied els xs at fits = omega (
    arith,
    length-append (take at els) (xs ++ drop (at + length xs) els),
    length-append xs (drop (at + length xs) els),
    length-take at els (omega arith),
    length-drop (at + length xs) els,
  )

  pub copy_to-ok :
      (els xs : List A) (at : ℕ)
      → at + length xs ≤ length els
      → copy_to els at xs ≡ ok (take at els ++ (xs ++ drop (at + length xs) els))
  unfolding copy_to
  copy_to-ok els xs at fits =
      let le : leb (at + length xs) (length els) ≡ true = ground arith in rw (le, copy_to) refl

  pub cells_from-ok :
      (els : List A) (at n : ℕ)
      → at + n ≤ length els
      → cells_from els at n ≡ ok (take n (drop at els))
  unfolding cells_from
  cells_from-ok els at n fits =
      let le : leb (at + n) (length els) ≡ true = ground arith in rw (le, cells_from) refl

  pub copy_to-beyond :
      (els xs : List A) (at : ℕ) → length els < at + length xs → copy_to els at xs ≡ out_of_bounds
  unfolding copy_to
  copy_to-beyond els xs at more =
      let gt : leb (at + length xs) (length els) ≡ false = ground arith in rw (gt, copy_to) refl
