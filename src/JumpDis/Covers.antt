-- ===== src/JumpDis/Covers.antt =====
-- What is dealt with and what is pending after each round, where control comes to no return.
use mathlib.Core.Path.{◌∙◌, sym}
use substitute.Common.{ℕ, ◌-◌, ◌^◌, ◌<◌, ◌≡◌, ◌≢◌, ◌⊎◌, inl, inr, refl, arith, true, false, some}
use substitute.Dis.Event.{pcrel, branch, ret, indirect_call, unidentified, bad}
use substitute.Arm64.Decode.{Arm64Event}
use substitute.Arm64.Decode.Align.{InStep, dis-InStep}
use substitute.JumpDis.{Ctx, is_seen, window_index, handle}
use substitute.JumpDis.Seen.{IsMask}
use substitute.JumpDis.Flow.{IsEvent, Follows, InWindow, Reach, Offends}
use substitute.JumpDis.Flow.Reach.{here, next}
use substitute.JumpDis.Returns.{entering, after, after-Keeps, event_at}
use substitute.JumpDis.Extends.{Member, Extends}
use substitute.JumpDis.Round.{handle-harmless, after-Extends, after-marks}
use substitute.JumpDis.Limits.{after-pc_ret, window_index-injective}

module _ (read : ℕ → ℕ) (start stop : ℕ) where
  -- Control comes to `a`, which is in step with the start of the patch.
  abbrev pub Come : ℕ → Type 0
  Come a = InStep start a × Reach read start stop a

  -- The addresses of `visited` are dealt with, and those of `pending` are still to be.
  pub record Covers (visited pending : ℕ → Type 0) (ctx : Ctx) : Type 0 where
    pub from : ctx.pc_patch_start ≡ start
    pub to : ctx.pc_patch_end ≡ stop
    pub mask : IsMask ctx.seen_mask
    pub limit : ctx.pc_ret ≡ 2 ^ 64 - 1
    pub come : (a : ℕ) → visited a ⊎ pending a → Come a
    pub marked :
        (a : ℕ)
        → InStep start a
        → InWindow read start stop a
        → is_seen ctx.seen_mask (window_index start a) ≡ true
        → visited a ⊎ pending a
    pub closed :
        (a b : ℕ) (e : Arm64Event)
        → visited a
        → IsEvent read start stop a e
        → Follows read start stop a e b
        → InWindow read start stop b
        → is_seen ctx.seen_mask (window_index start b) ≡ true
    pub harmless : (a : ℕ) → visited a → Offends read start stop a → ⊥
    pub began : visited stop ⊎ pending stop

  abbrev pub Waiting : Ctx → ℕ → Type 0
  Waiting ctx a = (a ≡ ctx.pc) ⊎ Member a ctx.queue

  abbrev pub WithPc : (ℕ → Type 0) → Ctx → ℕ → Type 0
  WithPc visited ctx a = visited a ⊎ (a ≡ ctx.pc)

  Follows-InStep :
      (a b : ℕ) (e : Arm64Event)
      → InStep start a
      → IsEvent read start stop a e
      → Follows read start stop a e b
      → InStep start b
  Follows-InStep a b e (_, step) h (inr (_, on)) = rw on (omega arith)
  Follows-InStep a b (branch dpc c) (_, step) h (inl to) =
      let (small, same) = dis-InStep a _ dpc c h in rw to (omega arith)
  Follows-InStep a b (pcrel dpc info) i h (inl to) = absurd to
  Follows-InStep a b ret i h (inl to) = absurd to
  Follows-InStep a b indirect_call i h (inl to) = absurd to
  Follows-InStep a b unidentified i h (inl to) = absurd to
  Follows-InStep a b bad i h (inl to) = absurd to

  -- With nothing pending, the visited addresses are all that control comes to.
  pub Reach-visited :
      {visited pending : ℕ → Type 0} (ctx : Ctx)
      → Covers visited pending ctx
      → ((a : ℕ) → pending a → ⊥)
      → {pc : ℕ} → Reach read start stop pc
      → visited pc
  Reach-visited ctx w empty here = elim w.began [ inl v ↦ v | inr p ↦ absurd (empty stop p) ]
  Reach-visited ctx w empty (next {a = a} {b = b} e r h f near) =
      let v = Reach-visited ctx w empty r in
      let (step, _) = w.come a (inl v) in
      elim (w.marked b (Follows-InStep a b e step h f) near (w.closed a b e v h f near)) [
        | inl v' ↦ v'
        | inr p ↦ absurd (empty b p)
      ]

  module _ (small : start < 2 ^ 64)
      (no_ret : (a : ℕ) → Reach read start stop a → IsEvent read start stop a ret → ⊥) where
    module _ {visited : ℕ → Type 0} (ctx : Ctx) (e : Arm64Event)
        (w : Covers visited (Waiting ctx) ctx) (found : event_at read ctx ≡ some e)
        (quiet : (handle (entering read ctx) e).bad_insn ≡ false) where
      current : Come ctx.pc
      current = w.come ctx.pc (inr (inl refl))

      is_event : IsEvent read start stop ctx.pc e
      is_event = rw w.from at found

      same_event : (a : ℕ) (e' : Arm64Event) → a ≡ ctx.pc → IsEvent read start stop a e' → e' ≡ e
      same_event a e' p h = let h' = rw p at h in let h'' = is_event in cc

      not_ret : e ≢ ret
      not_ret p = no_ret ctx.pc current.1 (rw p at is_event)

      grown : Extends Come ctx (after read ctx e)
      grown = after-Extends read ctx e w.mask Come quiet (λ b f near. (
        Follows-InStep ctx.pc b e current.0 is_event f,
        next e current.1 is_event f (rw w.from at near),
      ))

      new-Come : (a : ℕ) → Member a (after read ctx e).queue → Come a
      new-Come a m = elim (grown.holds a m) [ inl old ↦ w.come a (inr (inr old)) | inr c ↦ c ]

      current-harmless : (a : ℕ) → a ≡ ctx.pc → Offends read start stop a → ⊥
      current-harmless a p o =
          let same = same_event a o.event p o.is_event in
          handle-harmless (entering read ctx) e o.target quiet (rw (w.from, ← same, ← p) o.refers)
            (rw w.from o.from) (rw w.to o.below)

      current-closed :
          (a b : ℕ) (e' : Arm64Event)
          → a ≡ ctx.pc
          → IsEvent read start stop a e'
          → Follows read start stop a e' b
          → InWindow read start stop b
          → is_seen (after read ctx e).seen_mask (window_index start b) ≡ true
      current-closed a b e' p h f near =
          let here_follows = rw (same_event a e' p h, p) at f in
          rw (← w.from) (after-marks read ctx e w.mask b quiet here_follows (rw w.from near))

      pub after-Covers :
          Covers (WithPc visited ctx) (λ a. Member a (after read ctx e).queue) (after read ctx e)
      after-Covers =
          let k = after-Keeps read ctx e w.mask in
          record {
            from = k.start ∙ w.from;
            to = k.stop ∙ w.to;
            mask = k.mask;
            limit = after-pc_ret read ctx e not_ret ∙ w.limit;
            come = λ a v. elim v [
              | inl (inl old) ↦ w.come a (inl old)
              | inl (inr p) ↦ rw p current
              | inr m ↦ new-Come a m
            ];
            marked = λ a step near seen. elim (grown.fresh (window_index start a) near seen) [
              | inl old ↦ elim (w.marked a step near old) [
                | inl v ↦ inl (inl v)
                | inr (inl p) ↦ inl (inr p)
                | inr (inr m) ↦ inr (grown.keeps a m)
              ]
              | inr (x, i, m) ↦
                  let (x_step, _) = new-Come x m in
                  let same =
                    window_index-injective start a x small step x_step (sym (rw w.from at i)) in
                  inr (rw same m)
            ];
            closed = λ a b e' v h f near. elim v [
              | inl old ↦ grown.grows (window_index start b) near (w.closed a b e' old h f near)
              | inr p ↦ current-closed a b e' p h f near
            ];
            harmless =
                λ a v o. elim v [ inl old ↦ w.harmless a old o | inr p ↦ current-harmless a p o ];
            began = elim w.began [
              | inl v ↦ inl (inl v)
              | inr (inl p) ↦ inl (inr p)
              | inr (inr m) ↦ inr (grown.keeps stop m)
            ];
          }
