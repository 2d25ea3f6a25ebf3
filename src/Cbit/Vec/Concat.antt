-- ===== src/Cbit/Vec/Concat.antt =====
-- What `concat` does to the elements, and when it writes beyond its block.
use substitute.Common.{
  ℕ, ◌+◌, ◌*◌, ◌/◌, ◌^◌, ◌<◌, ◌≤◌, ◌≡◌, ◌⊎◌, inl, inr, ◌∙◌, sym, refl, ap, arith, List, ◌++◌, ◌||◌,
  ltb, leb, length, take, drop, u64, Bool-cases,
}
use substitute.Cbit.Vec.{Vec, then_do, copy_to, cells_from, resize, concat}
use substitute.Cbit.Vec.Outcome.{ok, out_of_bounds}
use substitute.Cbit.Vec.Cells.{
  length-take, take-copied, length-copied, copy_to-ok, copy_to-beyond, cells_from-ok,
}
use substitute.Cbit.Vec.Realloc.{IsVec, as_necessary-Fitted}
use substitute.Cbit.Vec.Refines.{Represents}

module _ {A : Type 0} where
  module _ (esize : ℕ) (junk : A) (sized : 0 < esize) (v : Vec A) (xs : List A)
      (r : Represents v xs) (room : v.capacity * 2 * esize < 2 ^ 64) where
    abbrev is_vec : IsVec esize junk sized v
    is_vec = record { cells = r.cells; some_cells = r.some_cells; room = room }

    -- The block that `concat` writes to.
    concat_block :
        (v2 : Vec A)
        → v.length_of + v2.length_of < 2 ^ 64
        → (w : Vec A) × (concat esize junk v v2
            ≡ then_do
                (cells_from v2.els 0 v2.length_of)
                (λ ys. then_do (copy_to w.els v.length_of ys) (λ els. ok (record w { els = els }))))
          × (length w.els ≡ w.capacity)
          × (w.length_of ≡ v.length_of + v2.length_of)
          × (v.length_of + v2.length_of ≤ v.capacity * 2 → v.length_of + v2.length_of ≤ w.capacity)
          × (w.capacity ≤ v.capacity * 2)
          × (0 < w.capacity)
          × (v.length_of + v2.length_of ≤ w.capacity
              → take v.length_of w.els ≡ take v.length_of v.els)
    unfolding concat resize then_do
    concat_block v2 small =
        let n = v.length_of + v2.length_of in
        let exact : u64 n ≡ n = omega arith in
        elim (Bool-cases (leb v.capacity (u64 n) || ltb (u64 n) (v.capacity / 3))) [
          | inr stays ↦
              let below : n < v.capacity = ground (arith, exact) in
              (
                record v { length_of = u64 n },
                rw stays refl,
                r.cells,
                exact,
                (λ h. omega arith),
                omega arith,
                r.some_cells,
                (λ h. refl),
              )
          | inl moves ↦
              let (w, e, f) = as_necessary-Fitted esize junk sized v (u64 n) is_vec in
              (
                record w { length_of = u64 n },
                rw (moves, e) refl,
                f.is_vec,
                exact,
                (λ h. elim (Bool-cases (ltb v.capacity (u64 n))) [
                  | inl more ↦ omega (arith, f.grown (ground arith), exact)
                  | inr less ↦ omega (arith, f.fits (ground arith), exact)
                ]),
                f.bound,
                f.some_cells,
                (λ h. f.same_cells v.length_of r.fits (omega arith)),
              )
        ]

    module _ (v2 : Vec A) (ys : List A) (r2 : Represents v2 ys)
        (small : v.length_of + v2.length_of < 2 ^ 64) where
      source : cells_from v2.els 0 v2.length_of ≡ ok ys
      source =
          cells_from-ok v2.els 0 v2.length_of (omega (arith, r2.fits, r2.cells))
          ∙ ap (λ l. ok l) r2.elements

      length-source : length ys ≡ v2.length_of
      length-source =
          rw (sym r2.elements) (length-take v2.length_of v2.els (omega (arith, r2.fits, r2.cells)))

      -- Either both vectors have together no more elements than twice the capacity of the first, and
      -- then `concat` puts the elements of the second behind those of the first. Or they have more,
      -- and then it writes beyond its block, since a resize doubles the block once at most.
      pub concat-Represents :
          ((v.length_of + v2.length_of ≤ v.capacity * 2)
            × ((w : Vec A) × (concat esize junk v v2 ≡ ok w) × Represents w (xs ++ ys)))
          ⊎ ((v.capacity * 2 < v.length_of + v2.length_of)
              × (concat esize junk v v2 ≡ out_of_bounds))
      unfolding then_do
      concat-Represents =
          let l1 = v.length_of in
          let (w, e, cells, sum, grows, bound, positive, same) = concat_block v2 small in
          elim (Bool-cases (ltb (v.capacity * 2) (v.length_of + v2.length_of))) [
            | inl over ↦
                let more : v.capacity * 2 < v.length_of + v2.length_of = ground arith in
                let beyond =
                  copy_to-beyond w.els ys l1 (omega (arith, length-source, cells, bound)) in
                inr (more, e ∙ rw (source, beyond) refl)
            | inr under ↦
                let le : v.length_of + v2.length_of ≤ v.capacity * 2 = ground arith in
                let fits = grows le in
                let inside : l1 + length ys ≤ length w.els =
                  omega (arith, length-source, cells, fits) in
                let write = copy_to-ok w.els ys l1 inside in
                let copied =
                  take-copied w.els ys l1 w.length_of inside (omega (arith, sum, length-source)) in
                let after : Vec A = record w {
                  els = take l1 w.els ++ (ys ++ drop (l1 + length ys) w.els);
                } in
                inl (
                  le,
                  (
                    after,
                    e ∙ rw (source, write) refl,
                    record {
                      cells = length-copied w.els ys l1 inside ∙ cells;
                      some_cells = positive;
                      fits = omega (arith, sum, fits);
                      elements = copied ∙ ap (λ l. l ++ ys) (same fits ∙ r.elements);
                    },
                  ),
                )
          ]
