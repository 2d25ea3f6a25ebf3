-- ===== src/JumpDis/Arch.antt =====
-- The search for jumps against the architecture's branches: in code without a CBZ or CBNZ that the
-- disassembler misreads, the control flow that the search looks at is that of the architecture.
use mathlib.Core.Path.{sym}
use substitute.Common.{
  ℕ, ◌+◌, ◌/◌, ◌%◌, ◌^◌, ◌<◌, ◌≤◌, ◌≡◌, inl, inr, refl, arith, Option, none, some, u64,
  Option-cases,
}
use substitute.Dis.Event.{branch}
use substitute.Arm64.Tree.{Insn}
use substitute.Arm64.Tree.Flat.{classify, find_insn-classify}
use substitute.Arm64.Decode.{Arm64Event, dis}
use substitute.Arm64.Decode.Agrees.{branch_offset, branch_cc, dis-branch, handle-cbz, sext_14}
use substitute.JumpDis.Flow.{RefersTo, word, Follows, InWindow, Reach}

-- What the word is at this address: of a direct branch, the target that it encodes. Only other words
-- are read as the disassembler reads them.
abbrev pub arch_event : ℕ → ℕ → Option Arm64Event
arch_event pc op = elim (branch_offset (classify op) op) [
  | none ↦ dis pc op
  | some d ↦ some (branch (u64 (pc + d)) (branch_cc (classify op) op))
]

-- A CBZ or CBNZ has an offset that is not negative and has bit 13 clear.
abbrev pub WellRead : ℕ → Type 0
WellRead op =
    classify op ≡ Insn.cbz → (op / 2 ^ 5 % 2 ^ 19 < 2 ^ 18) × (op / 2 ^ 5 % 2 ^ 19 / 2 ^ 13 % 2 ≡ 0)

branch_at :
    (i : Insn) (pc op d : ℕ)
    → classify op ≡ i
    → op < 2 ^ 32
    → WellRead op
    → branch_offset (classify op) op ≡ some d
    → dis pc op ≡ some (branch (u64 (pc + d)) (branch_cc (classify op) op))
unfolding dis
branch_at Insn.cbz pc op d e fits well h =
    let v = op / 2 ^ 5 % 2 ^ 19 in
    let is_d = rw e at h in
    let (low, clear) = well e in
    rw (find_insn-classify op fits, e, handle-cbz pc op) (ground (arith, sext_14 v))
branch_at _ pc op d e fits well h = dis-branch pc op d fits (λ k. cc) h

pub arch_event-dis : (pc op : ℕ) → op < 2 ^ 32 → WellRead op → arch_event pc op ≡ dis pc op
arch_event-dis pc op fits well = elim (Option-cases (branch_offset (classify op) op)) [
  | inl e ↦ rw (e, arch_event) refl
  | inr (d, e) ↦ rw (e, arch_event) (sym (branch_at (classify op) pc op d refl fits well e))
]

module _ (read : ℕ → ℕ) (start stop : ℕ) where
  abbrev pub IsArch : ℕ → Arm64Event → Type 0
  IsArch pc e = arch_event pc (word read start stop pc) ≡ some e

  -- The addresses that control may come to from `stop` without leaving the window.
  pub data ArchReach : ℕ → Type 0 where
    arch_here : ArchReach stop
    arch_next :
        {a b : ℕ} (e : Arm64Event)
        → ArchReach a
        → IsArch a e
        → Follows read start stop a e b
        → InWindow read start stop b
        → ArchReach b

  -- The instruction at `pc` refers to an address in the patch.
  pub record ArchOffends (pc : ℕ) : Type 0 where
    pub event : Arm64Event
    pub is_event : IsArch pc event
    pub target : ℕ
    pub refers : RefersTo (word read start stop pc) event target
    pub from : start ≤ target
    pub below : target < stop
