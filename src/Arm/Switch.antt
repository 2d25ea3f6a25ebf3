-- ===== src/Arm/Switch.antt =====
-- The form of generated/generic-dis-arm.inc.h, generic-dis-thumb.inc.h and generic-dis-thumb2.inc.h:
-- switches over bits of `op` and comparisons of `op` under a mask, down to the handlers.
pub mod Check
use substitute.Common.{
  ℕ, List, [], ◌∷◌, Bool, true, false, ◌||◌, Option, none, some, bit_and, ◌>>>◌, if◌then◌else◌,
  ◌==◌,
}

infixr 25 ◌▹◌
mutual
  -- `go h` calls the handler `h`, `switch n m cs` is `switch ((op >> n) & m)`, and `test m v a b` is
  -- `if ((op & m) == v) a else b`.
  pub data Node (A : Type 0) : Type 0 where
    go : A → Node A
    switch : ℕ → ℕ → Cases A → Node A
    test : ℕ → ℕ → Node A → Node A → Node A

  -- The labels of a case, and what they lead to.
  pub data Case (A : Type 0) : Type 0 where
    on : List ℕ → Node A → Case A

  pub data Cases (A : Type 0) : Type 0 where
    end : Cases A
    ◌▹◌ : Case A → Cases A → Cases A

-- One label.
abbrev pub at : {A : Type 0} → ℕ → Node A → Case A
at l t = on (l ∷ []) t

abbrev pub has : List ℕ → ℕ → Bool
has [] i = false
has (l ∷ ls) i = (l == i) || has ls i

-- The handler of a word. `none` is a switch with no case for it.
unfoldable mutual
  pub find : {A : Type 0} → Node A → ℕ → Option A
  find (go h) op = some h
  find (switch n m cs) op = find_case cs (bit_and (op >>> n) m) op
  find (test m v a b) op = if bit_and op m == v then find a op else find b op

  pub find_case : {A : Type 0} → Cases A → ℕ → ℕ → Option A
  find_case end s op = none
  find_case (on ls t ▹ cs) s op = if has ls s then find t op else find_case cs s op
