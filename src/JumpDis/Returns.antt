-- ===== src/JumpDis/Returns.antt =====
-- The search ends: every address that is put in the queue uses up one index of the window.
use mathlib.Core.Path.{◌∙◌}
use substitute.Common.{
  ℕ, zero, suc, ◌+◌, ◌^◌, ◌<◌, ◌≡◌, ◌⊎◌, inl, inr, refl, arith, List, [], ◌∷◌, true, false, Option,
  none, some, length, leb, Bool-cases, Option-cases, u64, if◌then◌else◌, sub64, bit_and, ◌==◌,
  get_or, replicate,
}
use substitute.Dis.Event.{pcrel, branch, ret, indirect_call, unidentified, bad}
use substitute.Arm64.Decode.{Arm64Event, dis}
use substitute.Arm64.Decode.Pcrel.{dis-some}
use substitute.JumpDis.{
  Ctx, is_seen, window_index, add_to_queue, in_patch, handle, pop_until, visit, follow, loop,
  initial, jump_dis_main, max_insns,
}
use substitute.JumpDis.Verdict.{jumps_back, clean}
use substitute.JumpDis.Seen.{IsMask, mark_seen-IsMask, unseen, unseen-le, unseen-mark_seen}

-- What is left to do, at most: indices that may still be queued, and addresses in the queue.
pub work : Ctx → ℕ
work ctx = unseen ctx.seen_mask 512 + length ctx.queue

-- `ctx'` comes from `ctx` with no address taken from the queue.
pub record Keeps (ctx ctx' : Ctx) : Type 0 where
  pub start : ctx'.pc_patch_start ≡ ctx.pc_patch_start
  pub stop : ctx'.pc_patch_end ≡ ctx.pc_patch_end
  pub at_pc : ctx'.pc ≡ ctx.pc
  pub mask : IsMask ctx'.seen_mask
  pub same_work : work ctx' ≡ work ctx

pub add_to_queue-Keeps :
    (ctx : Ctx) (pc : ℕ) → IsMask ctx.seen_mask → Keeps ctx (add_to_queue ctx pc)
unfolding add_to_queue work
add_to_queue-Keeps ctx pc valid =
    let d = window_index ctx.pc_patch_start pc in
    elim (Bool-cases (leb max_insns d)) [
      | inl far ↦
          rw far
            (record { start = refl; stop = refl; at_pc = refl; mask = valid; same_work = refl })
      | inr near ↦ elim (Bool-cases (is_seen ctx.seen_mask d)) [
        | inl old ↦
            rw (near, old)
              (record { start = refl; stop = refl; at_pc = refl; mask = valid; same_work = refl })
        | inr new ↦
            let d-lt : d < 512 = ground arith in
            rw (near, new)
              (record {
                start = refl;
                stop = refl;
                at_pc = refl;
                mask = mark_seen-IsMask ctx.seen_mask valid d d-lt;
                same_work =
                    omega
                      (arith, unseen-mark_seen ctx.seen_mask d 512 valid (omega arith) d-lt new);
              })
      ]
    ]

Keeps-refl : (ctx : Ctx) → IsMask ctx.seen_mask → Keeps ctx ctx
Keeps-refl ctx valid = record {
  start = refl;
  stop = refl;
  at_pc = refl;
  mask = valid;
  same_work = refl;
}

Keeps-trans : {a b c : Ctx} → Keeps a b → Keeps b c → Keeps a c
Keeps-trans h k = record {
  start = k.start ∙ h.start;
  stop = k.stop ∙ h.stop;
  at_pc = k.at_pc ∙ h.at_pc;
  mask = k.mask;
  same_work = k.same_work ∙ h.same_work;
}

pub handle-Keeps : (ctx : Ctx) (e : Arm64Event) → IsMask ctx.seen_mask → Keeps ctx (handle ctx e)
unfolding handle work
handle-Keeps ctx (pcrel dpc info) valid =
    elim (Bool-cases (bit_and ctx.op 0x9f000000 == 0x90000000)) [
      | inl e ↦ rw e (Keeps-refl ctx valid)
      | inr e ↦
          rw e (record { start = refl; stop = refl; at_pc = refl; mask = valid; same_work = refl })
    ]
handle-Keeps ctx (branch dpc c) valid = elim (Bool-cases (in_patch ctx dpc)) [
  | inl e ↦
      rw e (record { start = refl; stop = refl; at_pc = refl; mask = valid; same_work = refl })
  | inr e ↦
      let k = add_to_queue-Keeps ctx dpc valid in
      rw e (record {
        start = k.start;
        stop = k.stop;
        at_pc = k.at_pc;
        mask = k.mask;
        same_work = k.same_work;
      })
]
handle-Keeps ctx ret valid = record {
  start = refl;
  stop = refl;
  at_pc = refl;
  mask = valid;
  same_work = refl;
}
handle-Keeps ctx indirect_call valid = Keeps-refl ctx valid
handle-Keeps ctx unidentified valid = Keeps-refl ctx valid
handle-Keeps ctx bad valid = record {
  start = refl;
  stop = refl;
  at_pc = refl;
  mask = valid;
  same_work = refl;
}

zero_bytes : (n k : ℕ) → get_or (replicate n 0) k 0 < 256
zero_bytes zero k = omega arith
zero_bytes (suc n) zero = omega arith
zero_bytes (suc n) (suc k) = zero_bytes n k

module _ (read : ℕ → ℕ) where
  -- What the handler is called on.
  abbrev pub entering : Ctx → Ctx
  entering ctx = record ctx {
    bad_insn = false;
    continue_after_this_insn = true;
    op = read (sub64 ctx.pc ctx.pc_patch_start);
  }

  abbrev pub event_at : Ctx → Option Arm64Event
  event_at ctx = dis ctx.pc (read (sub64 ctx.pc ctx.pc_patch_start))

  pub visit-some :
      (ctx : Ctx) {e : Arm64Event}
      → event_at ctx ≡ some e
      → visit read ctx ≡ some (handle (entering ctx) e)
  unfolding visit
  visit-some ctx h = rw (h, visit) refl

  pub visit-Keeps :
      (ctx : Ctx) (e : Arm64Event) → IsMask ctx.seen_mask → Keeps ctx (handle (entering ctx) e)
  unfolding work
  visit-Keeps ctx e valid =
      Keeps-trans
        (record { start = refl; stop = refl; at_pc = refl; mask = valid; same_work = refl })
        (handle-Keeps (entering ctx) e valid)

  pub follow-Keeps : (ctx : Ctx) → IsMask ctx.seen_mask → Keeps ctx (follow read ctx)
  unfolding follow
  follow-Keeps ctx valid =
      elim ctx.continue_after_this_insn
        as (λ on. Keeps ctx (if on then add_to_queue ctx (u64 (ctx.pc + 4)) else ctx)) [
          | true ↦ add_to_queue-Keeps ctx (u64 (ctx.pc + 4)) valid
          | false ↦ Keeps-refl ctx valid
        ]

  pub pop_until-shorter :
      (pc_ret pc : ℕ) (queue rest : List ℕ)
      → pop_until pc_ret queue ≡ some (pc, rest)
      → length rest < length queue
  unfolding pop_until
  pop_until-shorter pc_ret pc [] rest h = cc
  pop_until-shorter pc_ret pc (q ∷ queue) rest h =
      ground (arith, pop_until-shorter pc_ret pc queue rest)

  -- The context after one round, up to the address that is taken next.
  abbrev pub after : Ctx → Arm64Event → Ctx
  after ctx e = follow read (handle (entering ctx) e)

  pub after-Keeps : (ctx : Ctx) (e : Arm64Event) → IsMask ctx.seen_mask → Keeps ctx (after ctx e)
  after-Keeps ctx e valid =
      let k = visit-Keeps ctx e valid in
      Keeps-trans k (follow-Keeps (handle (entering ctx) e) k.mask)

  abbrev pub taking : Ctx → ℕ → List ℕ → Ctx
  taking ctx pc queue = record ctx { pc = pc; queue = queue }

  pub loop-bad :
      (fuel : ℕ) (ctx : Ctx) {e : Arm64Event}
      → event_at ctx ≡ some e
      → (handle (entering ctx) e).bad_insn ≡ true
      → loop read (suc fuel) ctx ≡ jumps_back
  unfolding loop
  loop-bad fuel ctx h b = rw (visit-some ctx h, loop, b) refl

  pub loop-done :
      (fuel : ℕ) (ctx : Ctx) {e : Arm64Event}
      → event_at ctx ≡ some e
      → (handle (entering ctx) e).bad_insn ≡ false
      → pop_until (after ctx e).pc_ret (after ctx e).queue ≡ none
      → loop read (suc fuel) ctx ≡ clean
  unfolding loop
  loop-done fuel ctx h b q = rw (visit-some ctx h, loop, b, q) refl

  pub loop-next :
      (fuel : ℕ) (ctx : Ctx) {e : Arm64Event} {pc : ℕ} {queue : List ℕ}
      → event_at ctx ≡ some e
      → (handle (entering ctx) e).bad_insn ≡ false
      → pop_until (after ctx e).pc_ret (after ctx e).queue ≡ some (pc, queue)
      → loop read (suc fuel) ctx ≡ loop read fuel (taking (after ctx e) pc queue)
  unfolding loop handle
  loop-next fuel ctx h b q = rw (visit-some ctx h, loop, b, q) refl

  work-taking :
      (ctx : Ctx) (pc n : ℕ) (queue : List ℕ)
      → length queue < length ctx.queue
      → work ctx ≡ n
      → work (taking ctx pc queue) < n
  unfolding work
  work-taking ctx pc n queue h e = omega arith

  pub initial-IsMask : (s e : ℕ) → IsMask (initial read s e).seen_mask
  unfolding initial
  initial-IsMask s e = record { bytes = refl; small = zero_bytes 64 }

  pub initial-work : (s e : ℕ) → work (initial read s e) < 513
  unfolding initial work
  initial-work s e = omega (arith, unseen-le (initial read s e).seen_mask 512)

  module _ (words : (a : ℕ) → read a < 2 ^ 32) where
    pub event_at-some : (ctx : Ctx) → (e : Arm64Event) × (event_at ctx ≡ some e)
    event_at-some ctx = dis-some ctx.pc _ (words _)

    loop-returns :
        (fuel : ℕ) (ctx : Ctx)
        → IsMask ctx.seen_mask
        → work ctx < fuel
        → (loop read fuel ctx ≡ jumps_back) ⊎ (loop read fuel ctx ≡ clean)
    loop-returns zero ctx valid h = elim h [ ]
    loop-returns (suc fuel) ctx valid h =
        let (e, found) = event_at-some ctx in
        let k = after-Keeps ctx e valid in
        elim (Bool-cases (handle (entering ctx) e).bad_insn) [
          | inl b ↦ inl (loop-bad fuel ctx found b)
          | inr b ↦ elim (Option-cases (pop_until (after ctx e).pc_ret (after ctx e).queue)) [
            | inl q ↦ inr (loop-done fuel ctx found b q)
            | inr ((pc, queue), q) ↦
                let less = pop_until-shorter (after ctx e).pc_ret pc _ queue q in
                rw (loop-next fuel ctx found b q) (
                  loop-returns fuel (taking (after ctx e) pc queue) k.mask
                    (omega (arith, work-taking (after ctx e) pc (work ctx) queue less k.same_work)))
          ]
        ]

    -- The search of any code of 32-bit words, for any patch, reports a jump or reports none: it
    -- neither runs on nor aborts.
    pub jump_dis_main-returns :
        (pc_patch_start pc_patch_end : ℕ)
        → (jump_dis_main read pc_patch_start pc_patch_end ≡ jumps_back)
          ⊎ (jump_dis_main read pc_patch_start pc_patch_end ≡ clean)
    unfolding jump_dis_main
    jump_dis_main-returns s e =
        loop-returns 513 (initial read s e) (initial-IsMask s e) (initial-work s e)
