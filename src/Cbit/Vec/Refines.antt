-- ===== src/Cbit/Vec/Refines.antt =====
-- A vector is a list: what each operation does to the elements, whatever the block does.
use native.Mathlib.Nat.{le-mul_of_pos_right}
use substitute.Common.{
  ℕ, zero, suc, ◌+◌, ◌-◌, ◌*◌, ◌/◌, ◌^◌, ◌<◌, ◌≤◌, ◌≡◌, inl, inr, ◌∙◌, sym, refl, ap, arith, List,
  [], ◌∷◌, ◌++◌, true, false, not, ◌&&◌, some, ◌==◌, ltb, length, take, drop, get_elem?, u64, sub64,
  Bool-cases,
}
use substitute.Cbit.Vec.{Vec, then_do, copy_to, realloc_internal_as_necessary, append, pop}
use substitute.Cbit.Vec.Outcome.{ok}
use substitute.Cbit.Vec.Cells.{length-take, take-copied, length-copied, copy_to-ok}
use substitute.Cbit.Vec.Realloc.{IsVec, as_necessary-Fitted}

module _ {A : Type 0} where
  -- The vector has the elements of the list, in a block of as many cells as its capacity says.
  pub record Represents (v : Vec A) (xs : List A) : Type 0 where
    pub cells : length v.els ≡ v.capacity
    pub some_cells : 0 < v.capacity
    pub fits : v.length_of ≤ v.capacity
    pub elements : take v.length_of v.els ≡ xs

  take_snoc :
      (i : ℕ) (xs : List A) {x : A}
      → get_elem? xs i ≡ some x
      → take (suc i) xs ≡ take i xs ++ (x ∷ [])
  take_snoc i [] h = cc
  take_snoc zero (y ∷ xs) h = cc
  take_snoc (suc i) (y ∷ xs) h = ap (λ r. y ∷ r) (take_snoc i xs h)

  get_elem?-some : (i : ℕ) (xs : List A) → i < length xs → (x : A) × (get_elem? xs i ≡ some x)
  get_elem?-some i [] h = elim h [ ]
  get_elem?-some zero (x ∷ xs) h = (x, refl)
  get_elem?-some (suc i) (x ∷ xs) h = get_elem?-some i xs (omega arith)

  module _ (esize : ℕ) (junk : A) (sized : 0 < esize) (v : Vec A) (xs : List A)
      (r : Represents v xs) (room : v.capacity * 2 * esize < 2 ^ 64) where
    abbrev is_vec : IsVec esize junk sized v
    is_vec = record { cells = r.cells; some_cells = r.some_cells; room = room }

    twice : v.capacity * 2 < 2 ^ 64
    twice =
        let le : v.capacity * 2 ≤ v.capacity * 2 * esize =
          le-mul_of_pos_right (v.capacity * 2) sized in
        omega (arith, le, room)

    length-elements : length xs ≡ v.length_of
    length-elements =
        rw (sym r.elements) (length-take v.length_of v.els (omega (arith, r.fits, r.cells)))

    -- The block that `append` writes to.
    append_block :
        (x : A)
        → (w : Vec A) × (append esize junk v x
            ≡ then_do (copy_to w.els v.length_of (x ∷ [])) (λ els. ok (record w { els = els })))
          × (length w.els ≡ w.capacity)
          × (v.length_of + 1 ≤ w.capacity)
          × (w.length_of ≡ v.length_of + 1)
          × (take v.length_of w.els ≡ take v.length_of v.els)
    unfolding append then_do
    append_block x =
        let i = v.length_of in
        let longer = record v { length_of = u64 (i + 1) } in
        let exact : u64 (i + 1) ≡ i + 1 = omega (arith, r.fits, twice, r.some_cells) in
        elim (Bool-cases (i == v.capacity)) [
          | inr below ↦ (longer, rw below refl, r.cells, ground (arith, r.fits), exact, refl)
          | inl full ↦
              let (w, e, f) =
                as_necessary-Fitted esize junk sized longer (u64 (i + 1))
                  (record { cells = r.cells; some_cells = r.some_cells; room = room }) in
              let at_end : i ≡ v.capacity = ground arith in
              let doubled = f.grown (omega (arith, exact)) in
              (
                w,
                rw (full, e) refl,
                f.is_vec,
                omega (arith, doubled, r.some_cells),
                f.same_length ∙ exact,
                f.same_cells i (omega arith) (omega (arith, doubled)),
              )
        ]

    -- An element that is appended to a vector is put behind the others, whether the block has room or
    -- is first doubled, as long as the doubled block has a size that can be written in 64 bits.
    pub append-Represents :
        (x : A) → (w : Vec A) × (append esize junk v x ≡ ok w) × Represents w (xs ++ (x ∷ []))
    unfolding then_do
    append-Represents x =
        let (w, e, cells, fits, longer, same) = append_block x in
        let write = copy_to-ok w.els (x ∷ []) v.length_of (omega (arith, cells, fits)) in
        let copied =
          take-copied w.els (x ∷ []) v.length_of w.length_of (omega (arith, cells, fits)) longer in
        let after : Vec A = record w {
          els = take v.length_of w.els ++ ((x ∷ []) ++ drop (v.length_of + 1) w.els);
        } in
        (
          after,
          e ∙ rw write refl,
          record {
            cells = length-copied w.els (x ∷ []) v.length_of (omega (arith, cells, fits)) ∙ cells;
            some_cells = omega (arith, fits);
            fits = omega (arith, fits, longer);
            elements = copied ∙ ap (λ l. l ++ (x ∷ [])) (same ∙ r.elements);
          },
        )

    pop-stays :
        {x : A}
        → get_elem? v.els (sub64 v.length_of 1) ≡ some x
        → (not v.in_storage && ltb (sub64 v.length_of 1) (v.capacity / 3)) ≡ false
        → pop esize junk v ≡ ok (x, record v { length_of = sub64 v.length_of 1 })
    unfolding pop then_do
    pop-stays h k = rw (h, pop, k) refl

    pop-shrinks :
        {x : A} {w : Vec A}
        → get_elem? v.els (sub64 v.length_of 1) ≡ some x
        → (not v.in_storage && ltb (sub64 v.length_of 1) (v.capacity / 3)) ≡ true
        → realloc_internal_as_necessary esize junk v (sub64 v.length_of 1) ≡ ok w
        → pop esize junk v ≡ ok (x, record w { length_of = sub64 v.length_of 1 })
    unfolding pop then_do
    pop-shrinks h k e = rw (h, pop, k, e) refl

    -- From a vector that is not empty, `pop` takes the last element and leaves the others, whether or
    -- not the block shrinks.
    pub pop-Represents :
        0 < v.length_of
        → (x : A) × (w : Vec A) × (pop esize junk v ≡ ok (x, w))
          × (ys : List A) × (xs ≡ ys ++ (x ∷ []))
          × Represents w ys
    pop-Represents some_length =
        let i = v.length_of - 1 in
        let last : sub64 v.length_of 1 ≡ i = omega (arith, r.fits, twice) in
        let (x, there) = get_elem?-some i v.els (omega (arith, r.fits, r.cells)) in
        let h : get_elem? v.els (sub64 v.length_of 1) ≡ some x =
          ap (λ n. get_elem? v.els n) last ∙ there in
        let next : v.length_of ≡ suc i = omega arith in
        let split : xs ≡ take i v.els ++ (x ∷ []) =
          sym r.elements ∙ ap (λ n. take n v.els) next ∙ take_snoc i v.els there in
        elim (Bool-cases (not v.in_storage && ltb (sub64 v.length_of 1) (v.capacity / 3))) [
          | inr stays ↦ (
            x,
            _,
            pop-stays h stays,
            take i v.els,
            split,
            record {
              cells = r.cells;
              some_cells = r.some_cells;
              fits = omega (arith, last, r.fits);
              elements = ap (λ n. take n v.els) last;
            },
          )
          | inl shrinks ↦
              let (w, e, f) = as_necessary-Fitted esize junk sized v (sub64 v.length_of 1) is_vec in
              let small = f.fits (omega (arith, last, r.fits)) in
              (
                x,
                _,
                pop-shrinks h shrinks e,
                take i v.els,
                split,
                record {
                  cells = f.is_vec;
                  some_cells = f.some_cells;
                  fits = small;
                  elements =
                      f.same_cells (sub64 v.length_of 1) (omega (arith, last, r.fits)) small
                      ∙ ap (λ n. take n v.els) last;
                },
              )
        ]
