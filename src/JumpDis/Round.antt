-- ===== src/JumpDis/Round.antt =====
-- One round of the search that found nothing: where control goes on from the instruction is marked,
-- and the instruction refers to no address in the patch.
use mathlib.Core.Path.{◌∙◌, sym, ap, ap₂}
use substitute.Common.{
  ℕ, ◌+◌, ◌<◌, ◌≤◌, ◌≡◌, ◌⊎◌, inl, inr, refl, arith, true, false, u64, bit_and, ◌==◌, Bool-cases,
  ==_ne,
}
use mathlib.Core.Bool.{false≢true}
use substitute.Dis.Event.{pcrel, branch, ret, indirect_call, unidentified, bad}
use substitute.Arm64.Decode.{Arm64Event}
use substitute.JumpDis.{Ctx, is_seen, window_index, add_to_queue, in_patch, handle, follow}
use substitute.JumpDis.Seen.{IsMask}
use substitute.JumpDis.Flow.{FallsThrough, BranchTo, RefersTo}
use substitute.JumpDis.Returns.{entering, after, handle-Keeps}
use substitute.JumpDis.Extends.{
  Extends, Extends-same, Extends-trans, add_to_queue-Extends, is_seen-add_to_queue, handle-Extends,
}

-- A round goes on to the next instruction only where control does.
handle-falls :
    (ctx : Ctx) (e : Arm64Event)
    → (handle ctx e).bad_insn ≡ false
    → (handle ctx e).continue_after_this_insn ≡ true
    → FallsThrough e
unfolding handle
handle-falls ctx (branch dpc c) b k = elim (Bool-cases (in_patch ctx dpc)) [
  | inl e ↦ let b' = rw (e, handle) at b in cc
  | inr e ↦ let k' = rw (e, handle) at k in ground arith
]
handle-falls ctx (pcrel dpc info) b k = tt
handle-falls ctx ret b k = cc
handle-falls ctx indirect_call b k = tt
handle-falls ctx unidentified b k = tt
handle-falls ctx bad b k = cc

falls-handle :
    (ctx : Ctx) (e : Arm64Event)
    → ctx.continue_after_this_insn ≡ true
    → (handle ctx e).bad_insn ≡ false
    → FallsThrough e
    → (handle ctx e).continue_after_this_insn ≡ true
unfolding handle
falls-handle ctx (branch dpc c) on b f = elim (Bool-cases (in_patch ctx dpc)) [
  | inl e ↦ let b' = rw (e, handle) at b in cc
  | inr e ↦ rw e (rw (==_ne _ _ f) refl)
]
falls-handle ctx (pcrel dpc info) on b f = ground arith
falls-handle ctx ret on b f = absurd f
falls-handle ctx indirect_call on b f = on
falls-handle ctx unidentified on b f = on
falls-handle ctx bad on b f = absurd f

add_to_queue-quiet : (ctx : Ctx) (pc : ℕ) → (add_to_queue ctx pc).bad_insn ≡ ctx.bad_insn
unfolding add_to_queue
add_to_queue-quiet ctx pc = ground arith

in_patch-bounds :
    (ctx : Ctx) (t : ℕ) → in_patch ctx t ≡ true → (ctx.pc_patch_start ≤ t) × (t < ctx.pc_patch_end)
unfolding in_patch
in_patch-bounds ctx t h = ground arith

in_patch-true :
    (ctx : Ctx) (t : ℕ) → ctx.pc_patch_start ≤ t → t < ctx.pc_patch_end → in_patch ctx t ≡ true
unfolding in_patch
in_patch-true ctx t lo hi = ground arith

-- `bad_insn` is set exactly where the instruction refers to the patch.
pub handle-offends :
    (ctx : Ctx) (e : Arm64Event)
    → (handle ctx e).bad_insn ≡ true
    → ctx.bad_insn ≡ false
    → (t : ℕ) × RefersTo ctx.op e t × (ctx.pc_patch_start ≤ t) × (t < ctx.pc_patch_end)
unfolding handle
handle-offends ctx (branch dpc x) b c = elim (Bool-cases (in_patch ctx dpc)) [
  | inl e ↦ let (lo, hi) = in_patch-bounds ctx dpc e in (dpc, refl, lo, hi)
  | inr e ↦
      let b' = rw (e, handle) at b in
      let quiet = add_to_queue-quiet ctx dpc in absurd (false≢true (sym c ∙ sym quiet ∙ b'))
]
handle-offends ctx (pcrel dpc info) b c =
    elim (Bool-cases (bit_and ctx.op 0x9f000000 == 0x90000000)) [
      | inl e ↦ let b' = rw (e, handle) at b in absurd (false≢true (sym c ∙ b'))
      | inr e ↦
          let b' = rw (e, handle) at b in
          let (lo, hi) = in_patch-bounds ctx dpc b' in (dpc, (refl, ground arith), lo, hi)
    ]
handle-offends ctx ret b c = absurd (false≢true (sym c ∙ b))
handle-offends ctx indirect_call b c = absurd (false≢true (sym c ∙ b))
handle-offends ctx unidentified b c = absurd (false≢true (sym c ∙ b))
handle-offends ctx bad b c = absurd (false≢true (sym c ∙ b))

pub handle-harmless :
    (ctx : Ctx) (e : Arm64Event) (t : ℕ)
    → (handle ctx e).bad_insn ≡ false
    → RefersTo ctx.op e t
    → ctx.pc_patch_start ≤ t
    → t < ctx.pc_patch_end
    → ⊥
unfolding handle
handle-harmless ctx (branch dpc x) t b r lo hi =
    let b' = rw (← r, in_patch-true ctx t lo hi, handle) at b in cc
handle-harmless ctx (pcrel dpc info) t b (r, page) lo hi =
    let b' = rw (==_ne _ _ page, ← r, in_patch-true ctx t lo hi, handle) at b in cc
handle-harmless ctx ret t b r lo hi = r
handle-harmless ctx indirect_call t b r lo hi = r
handle-harmless ctx unidentified t b r lo hi = r
handle-harmless ctx bad t b r lo hi = r

handle-marks :
    (ctx : Ctx) (e : Arm64Event) (b : ℕ)
    → IsMask ctx.seen_mask
    → (handle ctx e).bad_insn ≡ false
    → BranchTo e b
    → window_index ctx.pc_patch_start b < 512
    → is_seen (handle ctx e).seen_mask (window_index ctx.pc_patch_start b) ≡ true
unfolding handle
handle-marks ctx (branch dpc x) b valid quiet to h = elim (Bool-cases (in_patch ctx dpc)) [
  | inl e ↦ let b' = rw (e, handle) at quiet in cc
  | inr e ↦ rw (e, to) (is_seen-add_to_queue (λ _. Unit {0}) ctx dpc valid (rw (← to) h))
]
handle-marks ctx (pcrel dpc info) b valid quiet to h = absurd to
handle-marks ctx ret b valid quiet to h = absurd to
handle-marks ctx indirect_call b valid quiet to h = absurd to
handle-marks ctx unidentified b valid quiet to h = absurd to
handle-marks ctx bad b valid quiet to h = absurd to

module _ (read : ℕ → ℕ) (c : Ctx) where
  follow-on : c.continue_after_this_insn ≡ true → follow read c ≡ add_to_queue c (u64 (c.pc + 4))
  unfolding follow
  follow-on h = simp h

  follow-off : c.continue_after_this_insn ≡ false → follow read c ≡ c
  unfolding follow
  follow-off h = simp h

module _ (read : ℕ → ℕ) (ctx : Ctx) (e : Arm64Event) (valid : IsMask ctx.seen_mask) where
  abbrev handled : Ctx
  handled = handle (entering read ctx) e

  -- What may be queued in a round: a target of the branch, or the next address.
  pub after-Extends :
      (P : ℕ → Type 0)
      → handled.bad_insn ≡ false
      → ((b : ℕ)
          → BranchTo e b ⊎ (FallsThrough e × (b ≡ u64 (ctx.pc + 4)))
          → window_index ctx.pc_patch_start b < 512
          → P b)
      → Extends P ctx (after read ctx e)
  after-Extends P quiet p =
      let k = handle-Keeps (entering read ctx) e valid in
      let entered = Extends-same P ctx (entering read ctx) refl refl refl in
      let here = handle-Extends P (entering read ctx) e valid (λ b h. p b (inl h)) in
      let so_far = Extends-trans P entered here in
      elim (Bool-cases handled.continue_after_this_insn) [
        | inl on ↦
            let falls = handle-falls (entering read ctx) e quiet on in
            let added =
              add_to_queue-Extends P handled (u64 (handled.pc + 4)) k.mask
                (λ h. rw k.at_pc (p _ (inr (falls, refl)) (rw (k.start, k.at_pc) at h))) in
            rw (follow-on read handled on) (Extends-trans P so_far added)
        | inr off ↦ rw (follow-off read handled off) so_far
      ]

  -- Where control goes on within the window, it is marked after the round.
  pub after-marks :
      (b : ℕ)
      → handled.bad_insn ≡ false
      → BranchTo e b ⊎ (FallsThrough e × (b ≡ u64 (ctx.pc + 4)))
      → window_index ctx.pc_patch_start b < 512
      → is_seen (after read ctx e).seen_mask (window_index ctx.pc_patch_start b) ≡ true
  after-marks b quiet (inl to) h = elim (Bool-cases handled.continue_after_this_insn) [
    | inl on ↦
        let k = handle-Keeps (entering read ctx) e valid in
        let added =
          add_to_queue-Extends (λ _. Unit {0}) handled (u64 (handled.pc + 4)) k.mask (λ _. tt) in
        rw (follow-on read handled on) (
          added.grows (window_index ctx.pc_patch_start b) h
            (handle-marks (entering read ctx) e b valid quiet to h))
    | inr off ↦
        rw (follow-off read handled off) (handle-marks (entering read ctx) e b valid quiet to h)
  ]
  after-marks b quiet (inr (falls, next)) h =
      let k = handle-Keeps (entering read ctx) e valid in
      let on = falls-handle (entering read ctx) e refl quiet falls in
      let same : window_index ctx.pc_patch_start (u64 (ctx.pc + 4))
          ≡ window_index handled.pc_patch_start (u64 (handled.pc + 4)) =
        ap₂ window_index (sym k.start) (ap (λ t. u64 (t + 4)) (sym k.at_pc)) in
      let near : window_index ctx.pc_patch_start (u64 (ctx.pc + 4)) < 512 = rw next at h in
      let marked =
        is_seen-add_to_queue (λ _. Unit {0}) handled (u64 (handled.pc + 4)) k.mask
          (rw same at near) in
      rw (follow-on read handled on, next, same) marked
