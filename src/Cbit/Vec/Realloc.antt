-- ===== src/Cbit/Vec/Realloc.antt =====
-- What the reallocations of lib/cbit/vec.c keep.
use native.Mathlib.Nat.{mul-div_cancel, mul-le-mul_right, le-mul_of_pos_right}
use substitute.Common.{
  ℕ, ◌+◌, ◌-◌, ◌*◌, ◌/◌, ◌^◌, ◌<◌, ◌≤◌, ◌≡◌, inl, inr, ◌∙◌, sym, refl, ap, arith, List, [], ◌++◌,
  true, false, if◌then◌else◌, ◌==◌, ltb, leb, length, length-append, length-replicate, take, drop,
  replicate, u64, Bool-cases,
}
use substitute.Cbit.Vec.{Vec, then_do, cells_of, realloc_internal, realloc_internal_as_necessary}
use substitute.Cbit.Vec.Outcome.{ok}
use substitute.Cbit.Vec.Cells.{
  length-take, take-append_left, take_all, take-take, length-copied, copy_to-ok, cells_from-ok,
}

module _ {A : Type 0} (esize : ℕ) (junk : A) (sized : 0 < esize) where
  -- A vector whose block has as many cells as the capacity says, at least one; and twice as many have
  -- a size in bytes.
  pub record IsVec (v : Vec A) : Type 0 where
    pub cells : length v.els ≡ v.capacity
    pub some_cells : 0 < v.capacity
    pub room : v.capacity * 2 * esize < 2 ^ 64

  -- The block after a reallocation to `new` cells.
  pub record Realloced (v : Vec A) (new : ℕ) (w : Vec A) : Type 0 where
    pub cells : length w.els ≡ new
    pub capacity : w.capacity ≡ new
    pub same_length : w.length_of ≡ v.length_of
    pub same_cells : (n : ℕ) → n ≤ v.capacity → n ≤ new → take n w.els ≡ take n v.els

  cells_of-exact : (n : ℕ) → n * esize < 2 ^ 64 → cells_of esize junk n ≡ n
  unfolding cells_of
  cells_of-exact n h =
      let whole : u64 (n * esize) ≡ n * esize = omega arith in rw whole (mul-div_cancel n sized)

  module _ (v : Vec A) (new : ℕ) (cells : length v.els ≡ v.capacity) (some_new : 0 < new)
      (size : new * esize < 2 ^ 64) where
    abbrev min_cap : ℕ
    min_cap = if ltb new v.capacity then new else v.capacity

    min_cap_le : (min_cap ≤ v.capacity) × (min_cap ≤ new)
    min_cap_le = elim (Bool-cases (ltb new v.capacity)) [
      | inl less ↦ rw less (ground arith, ground arith)
      | inr more ↦ rw more (ground arith, ground arith)
    ]

    same_min : (n : ℕ) → n ≤ v.capacity → n ≤ new → n ≤ min_cap
    same_min n h k = elim (Bool-cases (ltb new v.capacity)) [
      | inl less ↦ rw less k
      | inr more ↦ rw more h
    ]

    abbrev old : List A
    old = take min_cap v.els

    length-old : length old ≡ min_cap
    length-old = length-take min_cap v.els (omega (arith, min_cap_le, cells))

    abbrev moved : List A
    moved = [] ++ (old ++ drop (0 + length old) (replicate new junk))

    moved_in : length old ≤ length {A = A} (replicate new junk)
    moved_in = omega (arith, length-old, min_cap_le, length-replicate new junk)

    realloc-moves :
        v.in_storage ≡ true
        → realloc_internal esize junk v new
          ≡ ok (record v { capacity = new; els = moved; in_storage = false })
    unfolding realloc_internal then_do
    realloc-moves storage =
        let some : (new == 0) ≡ false = ground arith in
        let read = cells_from-ok v.els 0 min_cap (omega (arith, min_cap_le, cells)) in
        let write = copy_to-ok (replicate new junk) old 0 (omega (arith, moved_in)) in
        rw (some, storage, cells_of-exact new size, read, write) refl

    realloc-extends :
        v.in_storage ≡ false
        → realloc_internal esize junk v new
          ≡ ok (record v {
            capacity = new;
            els = take new v.els ++ replicate (new - length v.els) junk;
          })
    unfolding realloc_internal
    realloc-extends heap =
        let some : (new == 0) ≡ false = ground arith in
        rw (some, heap, cells_of-exact new size) refl

    length-extended : length (take new v.els ++ replicate (new - length v.els) junk) ≡ new
    length-extended = elim (Bool-cases (leb new (length v.els))) [
      | inl shrinks ↦
          let le : new ≤ length v.els = ground arith in
          omega (
            arith,
            length-append (take new v.els) (replicate (new - length v.els) junk),
            length-replicate (new - length v.els) junk,
            length-take new v.els (ground arith),
            le,
          )
      | inr grows ↦
          let kept : take new v.els ≡ v.els = take_all new v.els (ground arith) in
          let less : length v.els < new = ground arith in
          rw kept (
            omega (
              arith,
              length-append v.els (replicate (new - length v.els) junk),
              length-replicate (new - length v.els) junk,
              less,
            ))
    ]

    length-kept : (n : ℕ) → n ≤ length v.els → n ≤ new → n ≤ length (take new v.els)
    length-kept n h k = elim (Bool-cases (leb new (length v.els))) [
      | inl shrinks ↦ omega (arith, length-take new v.els (ground arith))
      | inr grows ↦
          let kept : take new v.els ≡ v.els = take_all new v.els (ground arith) in rw kept h
    ]

    moved_same : (n : ℕ) → n ≤ v.capacity → n ≤ new → take n moved ≡ take n v.els
    moved_same n h k =
        let le = same_min n h k in
        take-append_left n old _ (omega (arith, length-old)) ∙ take-take n min_cap v.els le

    extended_same :
        (n : ℕ)
        → n ≤ v.capacity
        → n ≤ new
        → take n (take new v.els ++ replicate (new - length v.els) junk) ≡ take n v.els
    extended_same n h k =
        take-append_left n (take new v.els) _ (length-kept n (omega (arith, cells)) k)
        ∙ take-take n new v.els k

    pub realloc_internal-Realloced :
        (w : Vec A) × (realloc_internal esize junk v new ≡ ok w) × Realloced v new w
    realloc_internal-Realloced = elim (Bool-cases v.in_storage) [
      | inl storage ↦ (
        _,
        realloc-moves storage,
        record {
          cells =
              length-copied (replicate new junk) old 0 (omega (arith, moved_in))
              ∙ length-replicate new junk;
          capacity = refl;
          same_length = refl;
          same_cells = moved_same;
        },
      )
      | inr heap ↦ (
        _,
        realloc-extends heap,
        record {
          cells = length-extended;
          capacity = refl;
          same_length = refl;
          same_cells = extended_same;
        },
      )
    ]

  -- A vector after a resize of its block for `min` elements: twice the block, a third of it, or the
  -- same.
  pub record Fitted (v : Vec A) (min : ℕ) (w : Vec A) : Type 0 where
    pub is_vec : length w.els ≡ w.capacity
    pub some_cells : 0 < w.capacity
    pub bound : w.capacity ≤ v.capacity * 2
    pub grown : v.capacity < min → w.capacity ≡ v.capacity * 2
    pub fits : min ≤ v.capacity → min ≤ w.capacity
    pub same_length : w.length_of ≡ v.length_of
    pub same_cells : (n : ℕ) → n ≤ v.capacity → n ≤ w.capacity → take n w.els ≡ take n v.els

  module _ (v : Vec A) (min : ℕ) (ok_v : IsVec v) where
    third_room : v.capacity / 3 * esize < 2 ^ 64
    third_room =
        let le : v.capacity / 3 * esize ≤ v.capacity * 2 * esize =
          mul-le-mul_right esize (omega arith) in
        omega (arith, le, ok_v.room)

    as_necessary-grows :
        ltb v.capacity min ≡ true
        → realloc_internal_as_necessary esize junk v min
          ≡ realloc_internal esize junk v (u64 (v.capacity * 2))
    unfolding realloc_internal_as_necessary
    as_necessary-grows h = rw h refl

    as_necessary-shrinks :
        ltb v.capacity min ≡ false
        → ltb min (v.capacity / 3) ≡ true
        → realloc_internal_as_necessary esize junk v min
          ≡ realloc_internal esize junk v (v.capacity / 3)
    unfolding realloc_internal_as_necessary
    as_necessary-shrinks h k = rw (h, k) refl

    as_necessary-stays :
        ltb v.capacity min ≡ false
        → ltb min (v.capacity / 3) ≡ false
        → realloc_internal_as_necessary esize junk v min ≡ ok v
    unfolding realloc_internal_as_necessary
    as_necessary-stays h k = rw (h, k) refl

    double_exact : u64 (v.capacity * 2) ≡ v.capacity * 2
    double_exact =
        let le : v.capacity * 2 ≤ v.capacity * 2 * esize =
          le-mul_of_pos_right (v.capacity * 2) sized in
        omega (arith, le, ok_v.room)

    Realloced-Fitted :
        (new : ℕ) (w : Vec A)
        → Realloced v new w
        → 0 < new
        → new ≤ v.capacity * 2
        → (v.capacity < min → new ≡ v.capacity * 2)
        → (min ≤ v.capacity → min ≤ new)
        → Fitted v min w
    Realloced-Fitted new w r some_new bound grown fits = record {
      is_vec = r.cells ∙ sym r.capacity;
      some_cells = omega (arith, r.capacity);
      bound = omega (arith, r.capacity);
      grown = λ h. r.capacity ∙ grown h;
      fits = λ h. omega (arith, fits h, r.capacity);
      same_length = r.same_length;
      same_cells = λ n h k. r.same_cells n h (omega (arith, r.capacity));
    }

    pub as_necessary-Fitted :
        (w : Vec A) × (realloc_internal_as_necessary esize junk v min ≡ ok w) × Fitted v min w
    as_necessary-Fitted = elim (Bool-cases (ltb v.capacity min)) [
      | inl small ↦
          let (w, e, r) =
            realloc_internal-Realloced v (v.capacity * 2) ok_v.cells
              (omega (arith, ok_v.some_cells)) ok_v.room in
          (
            w,
            as_necessary-grows small ∙ ap (λ n. realloc_internal esize junk v n) double_exact ∙ e,
            Realloced-Fitted (v.capacity * 2) w r (omega (arith, ok_v.some_cells)) (omega arith)
                (λ h. refl) (λ h. omega arith),
          )
      | inr wide ↦
          let le : min ≤ v.capacity = ground arith in
          elim (Bool-cases (ltb min (v.capacity / 3))) [
            | inl large ↦
                let lt : min < v.capacity / 3 = ground arith in
                let (w, e, r) =
                  realloc_internal-Realloced v (v.capacity / 3) ok_v.cells (omega arith)
                    third_room in
                (
                  w,
                  as_necessary-shrinks wide large ∙ e,
                  Realloced-Fitted (v.capacity / 3) w r (omega arith) (omega arith)
                      (λ h. absurd (omega arith)) (λ h. omega arith),
                )
            | inr right ↦ (
              v,
              as_necessary-stays wide right,
              record {
                is_vec = ok_v.cells;
                some_cells = ok_v.some_cells;
                bound = omega arith;
                grown = λ h. absurd (omega arith);
                fits = λ h. h;
                same_length = refl;
                same_cells = λ n h k. refl;
              },
            )
          ]
    ]
