-- ===== src/Cbit/Vec/Remove.antt =====
-- What `remove` does to the elements.
use native.Mathlib.Nat.{le-mul_of_pos_right}
use substitute.Common.{
  ℕ, zero, suc, ◌+◌, ◌-◌, ◌*◌, ◌/◌, ◌^◌, ◌<◌, ◌≤◌, ◌≡◌, inl, inr, ◌∙◌, sym, refl, ap, arith, List,
  [], ◌∷◌, ◌++◌, ◌||◌, ltb, leb, length, take, drop, u64, sub64, Bool-cases,
}
use substitute.Cbit.Vec.{Vec, then_do, resize, remove}
use substitute.Cbit.Vec.Outcome.{ok}
use substitute.Cbit.Vec.Cells.{
  length-take, length-drop, take-take, take-copied, length-copied, copy_to-ok, cells_from-ok,
}
use substitute.Cbit.Vec.Realloc.{IsVec, as_necessary-Fitted}
use substitute.Cbit.Vec.Refines.{Represents}

module _ {A : Type 0} where
  take-nil : (m : ℕ) → take {A = A} m [] ≡ []
  take-nil zero = refl
  take-nil (suc m) = refl

  drop-take : (k n : ℕ) (xs : List A) → k ≤ n → drop k (take n xs) ≡ take (n - k) (drop k xs)
  drop-take zero n xs h = let e : n - 0 ≡ n = omega arith in rw e refl
  drop-take (suc k) zero xs h = absurd (omega arith)
  drop-take (suc k) (suc n) [] h = sym (take-nil (suc n - suc k))
  drop-take (suc k) (suc n) (x ∷ xs) h =
      let e : suc n - suc k ≡ n - k = omega arith in rw e (drop-take k n xs (omega arith))

  module _ (esize : ℕ) (junk : A) (sized : 0 < esize) where
    -- A resize to fewer elements keeps them.
    resize-fewer :
        (v : Vec A) (n : ℕ)
        → IsVec esize junk sized v
        → n ≤ v.capacity
        → (w : Vec A) × (resize esize junk v n ≡ ok w)
          × (length w.els ≡ w.capacity)
          × (0 < w.capacity)
          × (w.length_of ≡ n)
          × (n ≤ w.capacity)
          × (take n w.els ≡ take n v.els)
    unfolding resize then_do
    resize-fewer v n is_vec le = elim (Bool-cases (leb v.capacity n || ltb n (v.capacity / 3))) [
      | inr stays ↦ (
        record v { length_of = n },
        rw stays refl,
        is_vec.cells,
        is_vec.some_cells,
        refl,
        le,
        refl,
      )
      | inl moves ↦
          let (w, e, f) = as_necessary-Fitted esize junk sized v n is_vec in
          (
            record w { length_of = n },
            rw (moves, e) refl,
            f.is_vec,
            f.some_cells,
            refl,
            f.fits le,
            f.same_cells n le (f.fits le),
          )
    ]

    module _ (v : Vec A) (xs : List A) (r : Represents v xs)
        (room : v.capacity * 2 * esize < 2 ^ 64) (idx num : ℕ)
        (inside : idx + num ≤ v.length_of) where
      small : v.length_of < 2 ^ 64
      small =
          let le : v.capacity * 2 ≤ v.capacity * 2 * esize =
            le-mul_of_pos_right (v.capacity * 2) sized in
          omega (arith, le, room, r.fits)

      abbrev left : ℕ
      left = v.length_of - (idx + num)

      abbrev moved : List A
      moved = take left (drop (idx + num) v.els)

      length-moved : length moved ≡ left
      length-moved =
          length-take left (drop (idx + num) v.els)
            (omega (arith, length-drop (idx + num) v.els, r.cells, r.fits))

      abbrev closed : Vec A
      closed = record v { els = take idx v.els ++ (moved ++ drop (idx + length moved) v.els) }

      copy_fits : idx + length moved ≤ length v.els
      copy_fits = omega (arith, length-moved, r.cells, r.fits)

      closed-IsVec : IsVec esize junk sized closed
      closed-IsVec = record {
        cells = length-copied v.els moved idx copy_fits ∙ r.cells;
        some_cells = r.some_cells;
        room = room;
      }

      remove-closed : remove esize junk v idx num ≡ resize esize junk closed (v.length_of - num)
      unfolding remove then_do
      remove-closed =
          let from : u64 (idx + num) ≡ idx + num = omega (arith, small) in
          let rest : sub64 v.length_of (idx + num) ≡ left = omega (arith, small) in
          let fewer : sub64 v.length_of num ≡ v.length_of - num = omega (arith, small) in
          let read = cells_from-ok v.els (idx + num) left (omega (arith, r.cells, r.fits)) in
          let write = copy_to-ok v.els moved idx copy_fits in
          rw (from, rest, read, write, fewer) refl

      kept_elements : take idx v.els ++ moved ≡ take idx xs ++ drop (idx + num) xs
      kept_elements =
          let before = take-take idx v.length_of v.els (omega arith) in
          let behind = drop-take (idx + num) v.length_of v.els inside in
          rw (sym r.elements, before, behind) refl

      -- The removal of some of the elements of a vector leaves those before and those behind them,
      -- whether or not the block shrinks.
      pub remove-Represents :
          (w : Vec A) × (remove esize junk v idx num ≡ ok w)
          × Represents w (take idx xs ++ drop (idx + num) xs)
      remove-Represents =
          let n = v.length_of - num in
          let (w, e, cells, some_cells, sized_to, fits, same) =
            resize-fewer closed n closed-IsVec (omega (arith, r.fits)) in
          let copied = take-copied v.els moved idx n copy_fits (omega (arith, length-moved)) in
          (
            w,
            remove-closed ∙ e,
            record {
              cells = cells;
              some_cells = some_cells;
              fits = omega (arith, sized_to, fits);
              elements = ap (λ k. take k w.els) sized_to ∙ same ∙ copied ∙ kept_elements;
            },
          )
