-- ===== src/JumpDis/Flow.antt =====
-- The control flow that the search looks at, said without the search: which addresses it may come
-- to from the end of the patch, and which instructions refer to the patch. What an instruction is and
-- where it goes is taken from the disassembler, also where it misreads a CBZ or CBNZ.
use substitute.Common.{ℕ, ◌+◌, ◌<◌, ◌≤◌, ◌≡◌, ◌≢◌, ◌⊎◌, some, u64, sub64, bit_and}
use substitute.Dis.Event.{pcrel, branch, ret, bad}
use substitute.Arm64.Decode.{Arm64Event, dis}
use substitute.JumpDis.{window_index}

-- Control goes on to the next instruction: always, but for a return, an unconditional jump and an
-- instruction that is not one.
abbrev pub FallsThrough : Arm64Event → Type 0
FallsThrough (branch dpc cc) = bit_and cc 0x300 ≢ 0
FallsThrough ret = ⊥
FallsThrough bad = ⊥
FallsThrough _ = Unit {0}

abbrev pub BranchTo : Arm64Event → ℕ → Type 0
BranchTo (branch dpc cc) b = b ≡ dpc
BranchTo _ b = ⊥

-- The addresses that an instruction refers to: the target of a branch, and the address of a load or
-- of an ADR. An ADRP gives a page only and counts for nothing.
abbrev pub RefersTo : ℕ → Arm64Event → ℕ → Type 0
RefersTo op (branch dpc cc) t = t ≡ dpc
RefersTo op (pcrel dpc info) t = (t ≡ dpc) × (bit_and op 0x9f000000 ≢ 0x90000000)
RefersTo op _ t = ⊥

module _ (read : ℕ → ℕ) (start stop : ℕ) where
  abbrev pub word : ℕ → ℕ
  word pc = read (sub64 pc start)

  abbrev pub IsEvent : ℕ → Arm64Event → Type 0
  IsEvent pc e = dis pc (word pc) ≡ some e

  abbrev pub Follows : ℕ → Arm64Event → ℕ → Type 0
  Follows pc e b = BranchTo e b ⊎ (FallsThrough e × (b ≡ u64 (pc + 4)))

  -- Within 512 instructions from the start of the patch.
  abbrev pub InWindow : ℕ → Type 0
  InWindow pc = window_index start pc < 512

  -- The addresses that control may come to from `stop` without leaving the window.
  pub data Reach : ℕ → Type 0 where
    here : Reach stop
    next : {a b : ℕ} (e : Arm64Event) → Reach a → IsEvent a e → Follows a e b → InWindow b → Reach b

  -- The instruction at `pc` refers to an address in the patch.
  pub record Offends (pc : ℕ) : Type 0 where
    pub event : Arm64Event
    pub is_event : IsEvent pc event
    pub target : ℕ
    pub refers : RefersTo (word pc) event target
    pub from : start ≤ target
    pub below : target < stop
