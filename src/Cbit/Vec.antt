-- ===== src/Cbit/Vec.antt =====
-- lib/cbit/vec.h and lib/cbit/vec.c. The elements are the cells of the block that `els` points to, as
-- many as have been allocated; an access beyond them is an outcome of its own. `malloc` always gives
-- a block, whose new cells have the value `junk`, which may be any.
pub mod Cells
pub mod Realloc
pub mod Refines
pub mod Concat
pub mod Remove
use substitute.Common.{
  ℕ, ◌+◌, ◌-◌, ◌*◌, ◌/◌, ◌%◌, ◌^◌, List, [], ◌∷◌, ◌++◌, Bool, true, false, not, ◌&&◌, ◌||◌, Option,
  none, some, if◌then◌else◌, ◌==◌, ltb, leb, length, take, drop, set, replicate, get_elem?, u64,
  sub64,
}

-- `struct vec_internal`; `in_storage` is `els == storage`.
pub record Vec (A : Type 0) : Type 0 where
  pub length_of : ℕ
  pub capacity : ℕ
  pub els : List A
  pub in_storage : Bool

pub data Outcome (A : Type 0) : Type 0 where
  ok : A → Outcome A
  aborts out_of_bounds : Outcome A

unfoldable pub then_do : {A B : Type 0} → Outcome A → (A → Outcome B) → Outcome B
then_do (ok a) f = f a
then_do aborts f = aborts
then_do out_of_bounds f = out_of_bounds

module _ {A : Type 0} where
  -- `memcpy` of `xs` to `at`.
  unfoldable pub copy_to : List A → ℕ → List A → Outcome (List A)
  copy_to els at xs =
      if leb (at + length xs) (length els)
      then ok (take at els ++ (xs ++ drop (at + length xs) els))
      else out_of_bounds

  -- `n` cells from `at` on.
  unfoldable pub cells_from : List A → ℕ → ℕ → Outcome (List A)
  cells_from els at n =
      if leb (at + n) (length els) then ok (take n (drop at els)) else out_of_bounds

  module _ (esize : ℕ) (junk : A) where
    -- A block for `new_capacity` elements; the product may wrap around.
    unfoldable pub cells_of : ℕ → ℕ
    cells_of new_capacity = u64 (new_capacity * esize) / esize

    unfoldable pub realloc_internal : Vec A → ℕ → Outcome (Vec A)
    realloc_internal v new_capacity =
        let cells = cells_of new_capacity in
        let min_cap = if ltb new_capacity v.capacity then new_capacity else v.capacity in
        if new_capacity == 0
        then aborts
        else if v.in_storage
        then then_do (cells_from v.els 0 min_cap) (λ old.
          then_do (copy_to (replicate cells junk) 0 old)
            (λ els. ok (record v { capacity = new_capacity; els = els; in_storage = false })))
        else ok (record v {
          capacity = new_capacity;
          els = take cells v.els ++ replicate (cells - length v.els) junk;
        })

    unfoldable pub realloc_internal_as_necessary : Vec A → ℕ → Outcome (Vec A)
    realloc_internal_as_necessary v min_capacity =
        if ltb v.capacity min_capacity
        then realloc_internal v (u64 (v.capacity * 2))
        else if ltb min_capacity (v.capacity / 3)
        then realloc_internal v (v.capacity / 3)
        else ok v

    unfoldable pub resize : Vec A → ℕ → Outcome (Vec A)
    resize v new_length =
        then_do
          (if leb v.capacity new_length || ltb new_length (v.capacity / 3)
            then realloc_internal_as_necessary v new_length
            else ok v)
          (λ w. ok (record w { length_of = new_length }))

    unfoldable pub append : Vec A → A → Outcome (Vec A)
    append v val =
        let i = v.length_of in
        let longer = record v { length_of = u64 (i + 1) } in
        then_do
          (if i == v.capacity
            then realloc_internal_as_necessary longer (u64 (i + 1))
            else ok longer)
          (λ w. then_do (copy_to w.els i (val ∷ [])) (λ els. ok (record w { els = els })))

    unfoldable pub pop : Vec A → Outcome (A × Vec A)
    pop v =
        let i = sub64 v.length_of 1 in
        elim (get_elem? v.els i) [
          | none ↦ out_of_bounds
          | some ret ↦
              then_do
                (if not v.in_storage && ltb i (v.capacity / 3)
                  then realloc_internal_as_necessary v i
                  else ok v)
                (λ w. ok (ret, record w { length_of = i }))
        ]

    unfoldable pub concat : Vec A → Vec A → Outcome (Vec A)
    concat v1 v2 =
        let l1 = v1.length_of in
        let l2 = v2.length_of in
        then_do (resize v1 (u64 (l1 + l2))) (λ w.
          then_do (cells_from v2.els 0 l2)
            (λ xs. then_do (copy_to w.els l1 xs) (λ els. ok (record w { els = els }))))

    unfoldable pub add_space : Vec A → ℕ → ℕ → Outcome (Vec A)
    add_space v idx num =
        let orig = v.length_of in
        then_do (resize v (u64 (orig + num))) (λ w.
          then_do (cells_from w.els idx (sub64 orig idx)) (λ xs.
            then_do (copy_to w.els (u64 (idx + num)) xs) (λ els. ok (record w { els = els }))))

    unfoldable pub remove : Vec A → ℕ → ℕ → Outcome (Vec A)
    remove v idx num =
        let orig = v.length_of in
        then_do (cells_from v.els (u64 (idx + num)) (sub64 orig (u64 (idx + num)))) (λ xs.
          then_do (copy_to v.els idx xs) (λ els. resize (record v { els = els }) (sub64 orig num)))

  -- `VEC_STORAGE_INIT` of a block of `n` elements.
  unfoldable pub storage_init : List A → Vec A
  storage_init storage = record {
    length_of = 0;
    capacity = length storage;
    els = storage;
    in_storage = true;
  }
