-- ===== src/TransformDis/Table.antt =====
-- The rewriting of a whole patch: it ends, and the table of offsets and the size of the code are
-- right.
use mathlib.Core.Path.{◌∙◌, ap, sym}
use substitute.Common.{
  ℕ, zero, suc, ◌+◌, ◌-◌, ◌*◌, ◌%◌, ◌^◌, ◌<◌, ◌≤◌, ◌≡◌, ◌⊎◌, inl, inr, refl, arith, List, [], ◌∷◌,
  Bool, true, false, Option, none, some, length, Bool-cases, Option-cases, ◌==◌, ltb, u64, sub64,
}
use substitute.Arm64.Decode.Pcrel.{dis-some}
use substitute.TransformDis.{
  Ctx, copy_insn, pass_insn, add_offset, Rewritten, Result, begin_insn, dis_insn, rewrite, begin,
  transform_dis_main, on_event,
}
use substitute.Dis.Event.{pcrel, branch, ret, indirect_call, unidentified, bad}
use substitute.Arm64.Decode.{Arm64Event, PcrelInfo, dis}
use substitute.TransformDis.Result.{done, failed, aborted}
use substitute.TransformDis.Length.{Handled, length-copy_insn, copy_insn-frame}
use substitute.TransformDis.Entries.{Entries, add_offset-Entries}
use substitute.TransformDis.Handlers.{IsError, on_event-Handled}

-- What has been done when the rewriting succeeds: whole instructions up to the end of the patch and
-- no further than the one that stands across it, with at most 24 bytes for each.
pub record Table (start stop : ℕ) (r : Rewritten) : Type 0 where
  pub span : ℕ
  pub ends : r.pc_patch_end ≡ start + span
  pub whole : span % 4 ≡ 0
  pub covers : stop ≤ start + span
  pub least : start + span < stop + 4
  pub entries : Entries r.offsets span (length r.code)
  pub bound : length r.code ≤ 6 * span

-- The events that code is put out for. The other handlers never abort.
pub data IsRewritten : Arm64Event → Type 0 where
  a_pcrel : {dpc : ℕ} {info : PcrelInfo} → IsRewritten (pcrel dpc info)
  a_branch : {dpc flags : ℕ} → IsRewritten (branch dpc flags)

-- There is an instruction of the patch that is a branch or PC-relative.
pub record HasRewritten (read : ℕ → ℕ) (start stop : ℕ) : Type 0 where
  pub at : ℕ
  pub whole : at % 4 ≡ 0
  pub inside : start + at < stop
  pub event : Arm64Event
  pub decoded : dis (start + at) (read at) ≡ some event
  pub is : IsRewritten event

-- A patch from `start` to `stop` is rewritten, or the error says why not, or a branch or a PC-relative
-- instruction makes it abort.
unfoldable pub Ends : (ℕ → ℕ) → ℕ → ℕ → Result → Type 0
Ends read start stop result =
    ((r : Rewritten) × (result ≡ done r) × Table start stop r)
    ⊎ (((e : ℕ) × (result ≡ failed e) × (1 ≤ e) × (e ≤ 3))
        ⊎ ((result ≡ aborted) × HasRewritten read start stop))

module _ (read : ℕ → ℕ) (pc_trampoline start stop : ℕ) (words : (a : ℕ) → read a < 2 ^ 32)
    (top : stop + 4 ≤ 2 ^ 64) where
  record Going (ctx : Ctx) (offsets : List (Option ℕ)) (span : ℕ) : Type 0 where
    from : ctx.pc_patch_start ≡ start
    to : ctx.pc_patch_end ≡ stop
    at_pc : ctx.pc ≡ start + span
    whole : span % 4 ≡ 0
    least : start + span < stop + 4
    entries : Entries offsets span (length ctx.rewritten)
    bound : length ctx.rewritten ≤ 6 * span

  abbrev entered : Ctx → Ctx
  entered ctx = begin_insn read pc_trampoline ctx

  abbrev passed : Ctx → Ctx
  passed seen = pass_insn (copy_insn seen)

  seen-Handled :
      (ctx seen : Ctx)
      → dis_insn read pc_trampoline (entered ctx) ≡ some seen
      → Handled ctx seen × IsError 0 seen.err
  unfolding dis_insn begin_insn
  seen-Handled ctx seen h =
      let (e, found) = dis-some ctx.pc (read (sub64 ctx.pc ctx.pc_patch_start)) (words _) in
      let h' = rw (found, dis_insn) at h in
      let (k, err) = on_event-Handled (begin_insn read pc_trampoline ctx) e seen refl h' in
      (record { at_pc = k.at_pc; start = k.start; stop = k.stop; put_out = k.put_out }, err)

  seen-Going :
      (ctx seen : Ctx) (offsets : List (Option ℕ)) (span : ℕ)
      → Going ctx offsets span
      → start + span < stop
      → dis_insn read pc_trampoline (entered ctx) ≡ some seen
      → Going
          (passed seen)
          (add_offset offsets
            (sub64 (passed seen).pc (passed seen).pc_patch_start)
            (length (passed seen).rewritten))
          (span + 4)
  unfolding pass_insn
  seen-Going ctx seen offsets span g before h =
      let (k, _) = seen-Handled ctx seen h in
      let (lo, hi) = length-copy_insn ctx seen k in
      let out = length (copy_insn seen).rewritten in
      let (same_pc, same_start, same_stop) = copy_insn-frame seen in
      let on : (copy_insn seen).pc ≡ start + span = same_pc ∙ k.at_pc ∙ g.at_pc in
      let from : (copy_insn seen).pc_patch_start ≡ start = same_start ∙ k.start ∙ g.from in
      let diff : sub64 (u64 ((copy_insn seen).pc + 4)) (copy_insn seen).pc_patch_start ≡ span + 4 =
        omega (arith, on, from) in
      record {
        from = from;
        to = same_stop ∙ k.stop ∙ g.to;
        at_pc = omega (arith, on);
        whole = omega (arith, g.whole);
        least = omega arith;
        entries =
            rw diff
              (add_offset-Entries offsets span _ out g.entries g.whole (omega arith) (omega arith));
        bound = omega (arith, g.bound);
      }

  on_event-IsRewritten : (ctx : Ctx) (e : Arm64Event) → on_event ctx e ≡ none → IsRewritten e
  unfolding on_event
  on_event-IsRewritten ctx (pcrel dpc info) h = a_pcrel
  on_event-IsRewritten ctx (branch dpc flags) h = a_branch
  on_event-IsRewritten ctx ret h = cc
  on_event-IsRewritten ctx indirect_call h = cc
  on_event-IsRewritten ctx unidentified h = cc
  on_event-IsRewritten ctx bad h = cc

  wanting :
      (ctx : Ctx) (offsets : List (Option ℕ)) (span : ℕ)
      → Going ctx offsets span
      → start + span < stop
      → dis_insn read pc_trampoline (entered ctx) ≡ none
      → HasRewritten read start stop
  unfolding dis_insn begin_insn
  wanting ctx offsets span g inside h =
      let off : sub64 ctx.pc ctx.pc_patch_start ≡ span = omega (arith, g.at_pc, g.from) in
      let (e, found) = dis-some ctx.pc (read (sub64 ctx.pc ctx.pc_patch_start)) (words _) in
      let h' = rw (found, dis_insn) at h in
      record {
        at = span;
        whole = g.whole;
        inside = inside;
        event = e;
        decoded =
            ap (λ (t : ℕ). dis t (read span)) (sym g.at_pc)
            ∙ (ap (λ (t : ℕ). dis ctx.pc (read t)) (sym off) ∙ found);
        is = on_event-IsRewritten (begin_insn read pc_trampoline ctx) e h';
      }

  round_done :
      (ctx : Ctx) (offsets : List (Option ℕ)) (span : ℕ)
      → Going ctx offsets span
      → stop ≤ start + span
      → Table start stop (record {
        code = ctx.rewritten;
        pc_patch_end = ctx.pc;
        regs = ctx.regs_possibly_written;
        offsets = offsets;
      })
  round_done ctx offsets span g past = record {
    span = span;
    ends = g.at_pc;
    whole = g.whole;
    covers = past;
    least = g.least;
    entries = g.entries;
    bound = g.bound;
  }

  module _ (fuel : ℕ) (ctx : Ctx) (offsets : List (Option ℕ)) where
    rewrite-past :
        ltb ctx.pc ctx.pc_patch_end ≡ false
        → rewrite read pc_trampoline (suc fuel) ctx offsets
          ≡ done (record {
            code = ctx.rewritten;
            pc_patch_end = ctx.pc;
            regs = ctx.regs_possibly_written;
            offsets = offsets;
          })
    unfolding rewrite
    rewrite-past past = rw (past, rewrite) refl

    rewrite-aborted :
        ltb ctx.pc ctx.pc_patch_end ≡ true
        → dis_insn read pc_trampoline (entered ctx) ≡ none
        → rewrite read pc_trampoline (suc fuel) ctx offsets ≡ aborted
    unfolding rewrite
    rewrite-aborted before h = rw (before, rewrite, h) refl

    rewrite-failed :
        {seen : Ctx}
        → ltb ctx.pc ctx.pc_patch_end ≡ true
        → dis_insn read pc_trampoline (entered ctx) ≡ some seen
        → (seen.err == 0) ≡ false
        → rewrite read pc_trampoline (suc fuel) ctx offsets ≡ failed seen.err
    unfolding rewrite
    rewrite-failed before h e = rw (before, rewrite, h, e) refl

    rewrite-next :
        {seen : Ctx}
        → ltb ctx.pc ctx.pc_patch_end ≡ true
        → dis_insn read pc_trampoline (entered ctx) ≡ some seen
        → (seen.err == 0) ≡ true
        → rewrite read pc_trampoline (suc fuel) ctx offsets
          ≡ rewrite read pc_trampoline fuel (passed seen) (
              add_offset offsets
                (sub64 (passed seen).pc (passed seen).pc_patch_start)
                (length (passed seen).rewritten))
    unfolding rewrite
    rewrite-next before h e = rw (before, rewrite, h, e) refl

  rewrite-Ends :
      (fuel : ℕ) (ctx : Ctx) (offsets : List (Option ℕ)) (span : ℕ)
      → Going ctx offsets span
      → stop - (start + span) < fuel
      → Ends read start stop (rewrite read pc_trampoline fuel ctx offsets)
  unfolding Ends
  rewrite-Ends zero ctx offsets span g h = elim h [ ]
  rewrite-Ends (suc fuel) ctx offsets span g h = elim (Bool-cases (ltb ctx.pc ctx.pc_patch_end)) [
    | inr past ↦
        let over : stop ≤ start + span = ground (arith, g.at_pc, g.to) in
        inl (_, rewrite-past fuel ctx offsets past, round_done ctx offsets span g over)
    | inl before ↦
        let inside : start + span < stop = ground (arith, g.at_pc, g.to) in
        elim (Option-cases (dis_insn read pc_trampoline (entered ctx))) [
          | inl none_left ↦ inr (
              inr (
                rewrite-aborted fuel ctx offsets before none_left,
                wanting ctx offsets span g inside none_left,
              ))
          | inr (seen, found) ↦
              let (_, err) = seen-Handled ctx seen found in
              elim (Bool-cases (seen.err == 0)) [
                | inr wrong ↦ inr (
                    inl (
                      seen.err,
                      rewrite-failed fuel ctx offsets before found wrong,
                      ground arith,
                      ground arith,
                    ))
                | inl good ↦ rw (rewrite-next fuel ctx offsets before found good) (
                    rewrite-Ends fuel (passed seen) _ (span + 4)
                      (seen-Going ctx seen offsets span g inside found) (omega arith))
              ]
        ]
  ]

  -- The rewriting of a patch in code of 32-bit words, which does not end before it starts and ends
  -- before the last four bytes of the address space, comes to an end. If it succeeds it has passed
  -- whole instructions to the end of the patch and not further than the one across it, its code
  -- has from four to 24 bytes for each, and the table of offsets has 0 at the start, rises by four to
  -- 24 from each instruction to the next, has the size of the code at the end, and -1 elsewhere. If not, the error is one of the three for the start of a function, or
  -- the rewriting aborts, which it does only where the patch has a branch or a PC-relative
  -- instruction.
  pub transform_dis_main-Ends :
      (regs : ℕ) (ban_calls : Bool)
      → start ≤ stop
      → Ends read start stop (transform_dis_main read pc_trampoline start stop regs ban_calls)
  unfolding transform_dis_main
  transform_dis_main-Ends regs ban_calls le =
      rewrite-Ends (suc (stop - start)) (begin read pc_trampoline start stop regs ban_calls)
        (some 0 ∷ []) 0 begins (omega arith)
    where
      begins : Going (begin read pc_trampoline start stop regs ban_calls) (some 0 ∷ []) 0
      begins =
          unfold begin in
          record {
            from = refl;
            to = refl;
            at_pc = omega arith;
            whole = omega arith;
            least = omega arith;
            entries = record {
              len = omega arith;
              first = refl;
              last = refl;
              steps = λ k l h. absurd (omega arith);
              starts = λ k l h. let e : k ≡ 0 = omega arith in rw e (0, refl, omega arith);
              between = λ k l h. let e : k ≡ 0 = omega arith in absurd (h (rw e (omega arith)));
            };
            bound = omega arith;
          }
