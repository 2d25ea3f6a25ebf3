-- ===== src/Cbit/Tests.antt =====
-- The vector's theorems at a vector of three cells.
use substitute.Common.{ℕ, ◌+◌, ◌*◌, ◌<◌, ◌≤◌, ◌≡◌, ◌⊎◌, refl, arith, List, [], ◌∷◌, ◌++◌, true}
use substitute.Cbit.Vec.{Vec, append, pop, concat, remove}
use substitute.Cbit.Vec.Outcome.{ok, out_of_bounds}
use substitute.Cbit.Vec.Refines.{Represents, append-Represents, pop-Represents}
use substitute.Cbit.Vec.Concat.{concat-Represents}
use substitute.Cbit.Vec.Remove.{remove-Represents}

abbrev full : Vec ℕ
full = record { length_of = 3; capacity = 3; els = 7 ∷ 8 ∷ 9 ∷ []; in_storage = true }

full-Represents : Represents full (7 ∷ 8 ∷ 9 ∷ [])
full-Represents = record {
  cells = refl;
  some_cells = omega arith;
  fits = omega arith;
  elements = refl;
}

append-Represents_example :
    (w : Vec ℕ) × (append 8 0 full 5 ≡ ok w) × Represents w (7 ∷ 8 ∷ 9 ∷ 5 ∷ [])
append-Represents_example =
    append-Represents 8 0 (omega arith) full (7 ∷ 8 ∷ 9 ∷ []) full-Represents (omega arith) 5

pop-Represents_example :
    (x : ℕ) × (w : Vec ℕ) × (pop 8 0 full ≡ ok (x, w))
    × (ys : List ℕ) × ((7 ∷ 8 ∷ 9 ∷ []) ≡ ys ++ (x ∷ []))
    × Represents w ys
pop-Represents_example =
    pop-Represents 8 0 (omega arith) full (7 ∷ 8 ∷ 9 ∷ []) full-Represents (omega arith)
      (omega arith)

concat-Represents_example :
    ((3 + 3 ≤ 3 * 2)
      × ((w : Vec ℕ) × (concat 8 0 full full ≡ ok w) × Represents w (7 ∷ 8 ∷ 9 ∷ 7 ∷ 8 ∷ 9 ∷ [])))
    ⊎ ((3 * 2 < 3 + 3) × (concat 8 0 full full ≡ out_of_bounds))
concat-Represents_example =
    concat-Represents 8 0 (omega arith) full (7 ∷ 8 ∷ 9 ∷ []) full-Represents (omega arith) full
      (7 ∷ 8 ∷ 9 ∷ []) full-Represents (omega arith)

remove-Represents_example : (w : Vec ℕ) × (remove 8 0 full 0 2 ≡ ok w) × Represents w (9 ∷ [])
remove-Represents_example =
    remove-Represents 8 0 (omega arith) full (7 ∷ 8 ∷ 9 ∷ []) full-Represents (omega arith) 0 2
      (omega arith)
