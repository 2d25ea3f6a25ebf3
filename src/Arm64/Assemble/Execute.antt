-- ===== src/Arm64/Assemble/Execute.antt =====
-- One written instruction word, executed.
use substitute.Common.{ℕ, ◌^◌, ◌<◌, ◌≡◌, ◌++◌, List, length, refl, of_le32-le32}
use native.Mathlib.Nat.{mod-eq_of_lt}
use substitute.Dis.{op32}
use substitute.Arm64.Machine.{Machine, next, jump, step, execute}

module _ (w : ℕ) (rest : List ℕ) (m : Machine) (fits : w < 2 ^ 32) where
  pub execute-op32_next :
      {m' : Machine} → step w m ≡ next m' → execute (op32 w ++ rest) m ≡ execute rest m'
  unfolding execute op32
  execute-op32_next h = rw (mod-eq_of_lt fits, of_le32-le32 w fits, h, execute)

  pub execute-op32_jump : {m' : Machine} → step w m ≡ jump m' → execute (op32 w ++ rest) m ≡ jump m'
  unfolding execute op32
  execute-op32_jump h = rw (mod-eq_of_lt fits, of_le32-le32 w fits, h, execute)

pub length-op32 : (w : ℕ) → length (op32 w) ≡ 4
unfolding op32
length-op32 w = refl
