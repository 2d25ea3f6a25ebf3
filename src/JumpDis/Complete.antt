-- ===== src/JumpDis/Complete.antt =====
-- Where the search reports nothing and control comes to no return, no instruction that control can
-- come to refers to the patch.
use mathlib.Core.Path.{◌∙◌, sym}
use substitute.Common.{
  ℕ, zero, suc, ◌^◌, ◌<◌, ◌≤◌, ◌≡◌, inl, inr, refl, arith, List, [], ◌∷◌, Bool-cases, Option-cases,
}
use substitute.Dis.Event.{ret}
use substitute.Arm64.Decode.Align.{InStep}
use substitute.JumpDis.{Ctx, window_index, handle, pop_until, loop, initial, jump_dis_main}
use substitute.JumpDis.Verdict.{jumps_back, clean}
use substitute.JumpDis.Flow.{IsEvent, Reach, Offends}
use substitute.JumpDis.Flow.Reach.{here}
use substitute.JumpDis.Returns.{
  entering, after, event_at-some, taking, loop-bad, loop-next, initial-IsMask,
}
use substitute.JumpDis.Extends.{Member}
use substitute.JumpDis.Limits.{pop_until-some, pop_until-none, no_mark}
use substitute.JumpDis.Covers.{Covers, Waiting, WithPc, Reach-visited, after-Covers}

loop_zero-ne_clean : (read : ℕ → ℕ) (ctx : Ctx) → loop read 0 ctx ≡ clean → ⊥
unfolding loop
loop_zero-ne_clean read ctx h = cc

clean-ne_jumps_back : clean ≡ jumps_back → ⊥
clean-ne_jumps_back h = cc

module _ (read : ℕ → ℕ) (start stop : ℕ) where
  module _ (small : start < 2 ^ 64)
      (no_ret : (a : ℕ) → Reach read start stop a → IsEvent read start stop a ret → ⊥) where
    taking-Covers :
        {visited : ℕ → Type 0} (ctx : Ctx) (pc : ℕ) (queue : List ℕ)
        → Covers read start stop visited (λ a. Member a ctx.queue) ctx
        → ctx.queue ≡ pc ∷ queue
        → Covers read start stop visited
            (Waiting read start stop (taking read ctx pc queue))
            (taking read ctx pc queue)
    taking-Covers ctx pc queue w q = record {
      from = w.from;
      to = w.to;
      mask = w.mask;
      limit = w.limit;
      come = λ a v. w.come a (rw q v);
      marked = λ a step near seen. rw q at (w.marked a step near seen);
      closed = w.closed;
      harmless = w.harmless;
      began = rw q at w.began;
    }

    queued_low :
        {visited : ℕ → Type 0} (ctx : Ctx)
        → Covers read start stop visited (λ a. Member a ctx.queue) ctx
        → (a : ℕ) → Member a ctx.queue
        → a ≤ ctx.pc_ret
    queued_low ctx w a m = let ((a_lt, _), _) = w.come a (inr m) in rw w.limit (omega arith)

    ends_harmless :
        {visited : ℕ → Type 0} (ctx : Ctx)
        → Covers read start stop visited (λ a. Member a ctx.queue) ctx
        → ctx.queue ≡ []
        → (pc : ℕ) → Reach read start stop pc
        → Offends read start stop pc
        → ⊥
    ends_harmless ctx w q pc r =
        w.harmless pc (Reach-visited read start stop ctx w (λ a m. elim (rw q at m) [ ]) r)

    module _ (words : (a : ℕ) → read a < 2 ^ 32) where
      loop-harmless :
          (fuel : ℕ) (visited : ℕ → Type 0) (ctx : Ctx)
          → Covers read start stop visited (Waiting read start stop ctx) ctx
          → loop read fuel ctx ≡ clean
          → (pc : ℕ) → Reach read start stop pc
          → Offends read start stop pc
          → ⊥
      loop-harmless zero visited ctx w h = absurd (loop_zero-ne_clean read ctx h)
      loop-harmless (suc fuel) visited ctx w h =
          let (e, found) = event_at-some read words ctx in
          let c = after read ctx e in
          elim (Bool-cases (handle (entering read ctx) e).bad_insn) [
            | inl b ↦ absurd (clean-ne_jumps_back (sym h ∙ loop-bad read fuel ctx found b))
            | inr quiet ↦
                let w' = after-Covers read start stop small no_ret ctx e w found quiet in
                elim (Option-cases (pop_until c.pc_ret c.queue)) [
                  | inl q ↦ ends_harmless c w' (pop_until-none c.pc_ret c.queue (queued_low c w') q)
                  | inr ((pc, queue), q) ↦
                      let is = pop_until-some c.pc_ret pc c.queue queue (queued_low c w') q in
                      loop-harmless fuel (WithPc read start stop visited ctx)
                        (taking read c pc queue) (taking-Covers c pc queue w' is)
                        (sym (loop-next read fuel ctx found quiet q) ∙ h)
                ]
          ]

      -- In code of 32-bit words, let the end of the patch be in step with its start, both below
      -- 2^64, and let control come to no return within the window of 512 instructions, where control
      -- flow and references are those of the words as the disassembler reads them, also where it
      -- misreads a CBZ or CBNZ. If the search reports nothing, no instruction that control comes to refers to
      -- the patch in that reading.
      pub jump_dis_main_complete :
          InStep start stop
          → jump_dis_main read start stop ≡ clean
          → ¬ ((pc : ℕ) × Reach read start stop pc × Offends read start stop pc)
      unfolding jump_dis_main
      jump_dis_main_complete step h (pc, r, o) =
          loop-harmless 513 (λ _. ⊥) (initial read start stop) begins h pc r o
        where
          begins :
              Covers read start stop
                (λ _. ⊥)
                (Waiting read start stop (initial read start stop))
                (initial read start stop)
          begins =
              unfold initial in
              record {
                from = refl;
                to = refl;
                mask = initial-IsMask read start stop;
                limit = refl;
                come = λ a v. elim v [
                  | inl v ↦ absurd v
                  | inr (inl p) ↦ rw p (step, here)
                  | inr (inr m) ↦ absurd m
                ];
                marked = λ a step near seen. absurd (no_mark (window_index start a) seen);
                closed = λ a b e v. absurd v;
                harmless = λ a v. absurd v;
                began = inr (inl refl);
              }
