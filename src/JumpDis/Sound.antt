-- ===== src/JumpDis/Sound.antt =====
-- A jump that the search reports is one: control can come to an instruction that refers to the
-- patch.
use mathlib.Core.Path.{◌∙◌, sym}
use substitute.Common.{
  ℕ, zero, suc, ◌^◌, ◌<◌, ◌≡◌, ◌⊎◌, inl, inr, refl, List, [], ◌∷◌, true, false, some, Bool-cases,
  Option-cases, ltb,
}
use substitute.Arm64.Decode.{Arm64Event}
use substitute.JumpDis.{Ctx, handle, pop_until, loop, initial, jump_dis_main, Verdict}
use substitute.JumpDis.Verdict.{jumps_back, clean}
use substitute.JumpDis.Seen.{IsMask}
use substitute.JumpDis.Flow.{IsEvent, Reach, Offends}
use substitute.JumpDis.Flow.Reach.{here, next}
use substitute.JumpDis.Returns.{
  entering, after, after-Keeps, event_at, event_at-some, taking, loop-done, loop-next,
  initial-IsMask,
}
use substitute.JumpDis.Extends.{Member}
use substitute.JumpDis.Round.{handle-offends, after-Extends}

pub pop_until-Member :
    (pc_ret pc : ℕ) (queue rest : List ℕ)
    → pop_until pc_ret queue ≡ some (pc, rest)
    → Member pc queue × ((a : ℕ) → Member a rest → Member a queue)
unfolding pop_until
pop_until-Member pc_ret pc [] rest h = cc
pop_until-Member pc_ret pc (q ∷ queue) rest h = elim (Bool-cases (ltb pc_ret q)) [
  | inl past ↦
      let (m, ms) = pop_until-Member pc_ret pc queue rest (rw (past, pop_until) at h) in
      (inr m, λ a n. inr (ms a n))
  | inr kept ↦
      let h' = rw (kept, pop_until) at h in
      let same_pc : pc ≡ q = cc in
      let same_rest : rest ≡ queue = cc in (inl same_pc, λ a n. inr (rw same_rest at n))
]

module _ (read : ℕ → ℕ) (start stop : ℕ) (words : (a : ℕ) → read a < 2 ^ 32) where
  -- Everything that waits has been come to.
  record Waits (ctx : Ctx) : Type 0 where
    from : ctx.pc_patch_start ≡ start
    to : ctx.pc_patch_end ≡ stop
    mask : IsMask ctx.seen_mask
    current : Reach read start stop ctx.pc
    queued : (a : ℕ) → Member a ctx.queue → Reach read start stop a

  is_event :
      {ctx : Ctx} {e : Arm64Event}
      → Waits ctx
      → event_at read ctx ≡ some e
      → IsEvent read start stop ctx.pc e
  is_event w h = rw w.from at h

  Waits-taking :
      (ctx : Ctx) (e : Arm64Event) (pc : ℕ) (queue : List ℕ)
      → Waits ctx
      → event_at read ctx ≡ some e
      → (handle (entering read ctx) e).bad_insn ≡ false
      → pop_until (after read ctx e).pc_ret (after read ctx e).queue ≡ some (pc, queue)
      → Waits (taking read (after read ctx e) pc queue)
  Waits-taking ctx e pc queue w found quiet popped =
      let k = after-Keeps read ctx e w.mask in
      let grown =
        after-Extends read ctx e w.mask (Reach read start stop) quiet
          (λ b f near. next e w.current (is_event w found) f (rw w.from at near)) in
      let (m, ms) = pop_until-Member (after read ctx e).pc_ret pc _ queue popped in
      let all =
        λ (a : ℕ) (n : Member a (after read ctx e).queue). reached (w.queued a) (grown.holds a n) in
      record {
        from = k.start ∙ w.from;
        to = k.stop ∙ w.to;
        mask = k.mask;
        current = all pc m;
        queued = λ a n. all a (ms a n);
      }
    where
      reached : {A B : Type 0} → (A → B) → A ⊎ B → B
      reached f (inl a) = f a
      reached f (inr b) = b

  bad-Offends :
      (ctx : Ctx) (e : Arm64Event)
      → Waits ctx
      → event_at read ctx ≡ some e
      → (handle (entering read ctx) e).bad_insn ≡ true
      → Offends read start stop ctx.pc
  bad-Offends ctx e w found b =
      let (t, refers, lo, hi) = handle-offends (entering read ctx) e b refl in
      record {
        event = e;
        is_event = is_event w found;
        target = t;
        refers = rw w.from at refers;
        from = rw w.from at lo;
        below = rw w.to at hi;
      }

  clean-ne : (v : Verdict) → v ≡ clean → v ≡ jumps_back → ⊥
  clean-ne v h k = cc

  loop_zero-ne : (ctx : Ctx) → loop read 0 ctx ≡ jumps_back → ⊥
  unfolding loop
  loop_zero-ne ctx h = cc

  loop_sound :
      (fuel : ℕ) (ctx : Ctx)
      → Waits ctx
      → loop read fuel ctx ≡ jumps_back
      → (pc : ℕ) × Reach read start stop pc × Offends read start stop pc
  loop_sound zero ctx w h = absurd (loop_zero-ne ctx h)
  loop_sound (suc fuel) ctx w h =
      let (e, found) = event_at-some read words ctx in
      elim (Bool-cases (handle (entering read ctx) e).bad_insn) [
        | inl b ↦ (ctx.pc, w.current, bad-Offends ctx e w found b)
        | inr quiet ↦
            elim (Option-cases (pop_until (after read ctx e).pc_ret (after read ctx e).queue)) [
              | inl q ↦ absurd (clean-ne _ (loop-done read fuel ctx found quiet q) h)
              | inr ((pc, queue), q) ↦
                  loop_sound fuel (taking read (after read ctx e) pc queue)
                    (Waits-taking ctx e pc queue w found quiet q)
                    (sym (loop-next read fuel ctx found quiet q) ∙ h)
            ]
      ]

  -- In code of 32-bit words, if the search reports a jump, then control can come from the end of
  -- the patch, without leaving the window, to an instruction that refers to an address in the
  -- patch, where control flow and references are those of the words as the disassembler reads
  -- them, also where it misreads a CBZ or CBNZ.
  pub jump_dis_main_sound :
      jump_dis_main read start stop ≡ jumps_back
      → (pc : ℕ) × Reach read start stop pc × Offends read start stop pc
  unfolding jump_dis_main
  jump_dis_main_sound h = loop_sound 513 (initial read start stop) begins h
    where
      begins : Waits (initial read start stop)
      begins =
          unfold initial in
          record {
            from = refl;
            to = refl;
            mask = initial-IsMask read start stop;
            current = here;
            queued = λ a m. absurd m;
          }
