-- ===== src/X86/Transform/Ends.antt =====
-- The rewriting of a whole patch on x86-64: it ends, and the table of offsets and the size of the
-- code are right.
use mathlib.Core.Path.{◌∙◌}
use substitute.Common.{
  ℕ, zero, suc, ◌+◌, ◌-◌, ◌*◌, ◌^◌, ◌<◌, ◌≤◌, ◌≡◌, ◌≢◌, ◌⊎◌, inl, inr, refl, arith, List, [], ◌∷◌,
  Bool, true, false, Option, some, length, Bool-cases, ltb, u64, sub64,
}
use substitute.TransformDis.{add_offset}
use substitute.X86.Flags.{i_pfx}
use substitute.X86.Onebyte.{onebyte_bits}
use substitute.X86.Decode.{type_of}
use substitute.X86.Transform.{Ctx, round, rewrite, begin, transform_dis_main, Rewritten, Result}
use substitute.X86.Transform.Result.{done, failed}
use substitute.X86.Transform.Round.{go_on, halt}
use substitute.X86.Transform.Offsets.{Offsets, begins-Offsets, add_offset-Offsets}
use substitute.X86.Transform.Passes.{round-Passes}

-- What has been done when the rewriting succeeds: the patch has been passed and less than `prefixes`
-- + 17 bytes beyond it, with at most 17 bytes for each byte.
pub record Table (prefixes start stop : ℕ) (r : Rewritten) : Type 0 where
  pub span : ℕ
  pub ends : r.pc_patch_end ≡ start + span
  pub covers : stop ≤ start + span
  pub least : start + span < stop + prefixes + 17
  pub offsets : Offsets r.offsets span (length r.code)
  pub bound : length r.code ≤ 17 * span

-- A patch from `start` to `stop` is rewritten, or the error says why not.
pub Ends : ℕ → ℕ → ℕ → Result → Type 0
Ends prefixes start stop result =
    ((r : Rewritten) × (result ≡ done r) × Table prefixes start stop r)
    ⊎ ((e : ℕ) × (result ≡ failed e) × (1 ≤ e) × (e ≤ 3))

-- Not all of `prefixes` bytes from one of the patch on are prefixes.
abbrev pub NoRun : (ℕ → ℕ) → ℕ → ℕ → ℕ → Type 0
NoRun read prefixes start stop =
    (a : ℕ)
    → a < stop - start
    → (n : ℕ) × (n < prefixes) × (type_of (onebyte_bits (read (a + n))) ≢ i_pfx)

module _ (read : ℕ → ℕ) (bytes : (a : ℕ) → read a < 256) (pc_trampoline prefixes start stop : ℕ)
    (top : stop + prefixes + 17 ≤ 2 ^ 64) where
  record Going (ctx : Ctx) (offsets : List (Option ℕ)) (span : ℕ) : Type 0 where
    from : ctx.pc_patch_start ≡ start
    to : ctx.pc_patch_end ≡ stop
    at_pc : ctx.pc ≡ start + span
    least : start + span < stop + prefixes + 17
    entries : Offsets offsets span (length ctx.rewritten)
    bound : length ctx.rewritten ≤ 17 * span

  module _ (fuel : ℕ) (ctx : Ctx) (offsets : List (Option ℕ)) where
    rewrite-past :
        ltb ctx.pc ctx.pc_patch_end ≡ false
        → rewrite read pc_trampoline prefixes (suc fuel) ctx offsets
          ≡ done (record { code = ctx.rewritten; pc_patch_end = ctx.pc; offsets = offsets })
    unfolding rewrite
    rewrite-past past = rw (past, rewrite) refl

    rewrite-halted :
        {result : Result}
        → ltb ctx.pc ctx.pc_patch_end ≡ true
        → round read pc_trampoline prefixes ctx ≡ halt result
        → rewrite read pc_trampoline prefixes (suc fuel) ctx offsets ≡ result
    unfolding rewrite
    rewrite-halted before h = rw (before, rewrite, h) refl

    rewrite-goes_on :
        {after : Ctx}
        → ltb ctx.pc ctx.pc_patch_end ≡ true
        → round read pc_trampoline prefixes ctx ≡ go_on after
        → rewrite read pc_trampoline prefixes (suc fuel) ctx offsets
          ≡ rewrite read pc_trampoline prefixes fuel after
              (add_offset offsets (sub64 after.pc after.pc_patch_start) (length after.rewritten))
    unfolding rewrite
    rewrite-goes_on before h = rw (before, rewrite, h) refl

  after_Going :
      (ctx after : Ctx) (offsets : List (Option ℕ)) (span size : ℕ)
      → Going ctx offsets span
      → start + span < stop
      → 0 < size
      → size ≤ prefixes + 17
      → after.pc ≡ u64 (ctx.pc + size)
      → after.pc_patch_start ≡ ctx.pc_patch_start
      → after.pc_patch_end ≡ ctx.pc_patch_end
      → length ctx.rewritten < length after.rewritten
      → length after.rewritten ≤ length ctx.rewritten + size + 16
      → Going after
          (add_offset offsets (sub64 after.pc after.pc_patch_start) (length after.rewritten))
          (span + size)
  after_Going ctx after offsets span size g inside some_size small on from to more less =
      let diff : sub64 after.pc after.pc_patch_start ≡ span + size =
        omega (arith, on, from, g.from, g.at_pc) in
      record {
        from = from ∙ g.from;
        to = to ∙ g.to;
        at_pc = omega (arith, on, g.at_pc);
        least = omega arith;
        entries = rw diff (add_offset-Offsets offsets span _ g.entries size _ some_size more);
        bound = omega (arith, g.bound);
      }

  rewrite-Ends :
      (fuel : ℕ) (ctx : Ctx) (offsets : List (Option ℕ)) (span : ℕ)
      → NoRun read prefixes start stop
      → Going ctx offsets span
      → stop - (start + span) < fuel
      → Ends prefixes start stop (rewrite read pc_trampoline prefixes fuel ctx offsets)
  unfolding Ends
  rewrite-Ends zero ctx offsets span runs g h = elim h [ ]
  rewrite-Ends (suc fuel) ctx offsets span runs g h =
      elim (Bool-cases (ltb ctx.pc ctx.pc_patch_end)) [
        | inr past ↦
            let over : stop ≤ start + span = ground (arith, g.at_pc, g.to) in
            inl (
              _,
              rewrite-past fuel ctx offsets past,
              record {
                span = span;
                ends = g.at_pc;
                covers = over;
                least = g.least;
                offsets = g.entries;
                bound = g.bound;
              },
            )
        | inl before ↦
            let inside : start + span < stop = ground (arith, g.at_pc, g.to) in
            let (n, small, ne) = runs span (omega arith) in
            let offset : sub64 ctx.pc ctx.pc_patch_start ≡ span = omega (arith, g.at_pc, g.from) in
            elim (round-Passes read bytes pc_trampoline prefixes ctx n small (rw offset ne)) [
              | inl (e, halted, lo, hi) ↦
                  inr (e, rewrite-halted fuel ctx offsets before halted, lo, hi)
              | inr (after, size, on, some_size, most, pc, from, to, more, less) ↦
                  rw (rewrite-goes_on fuel ctx offsets before on) (
                    rewrite-Ends fuel after _ (span + size) runs
                      (after_Going ctx after offsets span size g inside some_size most pc from to
                        more less)
                      (omega arith))
            ]
      ]

  -- On x86-64, the rewriting of a patch of at most 2^30 bytes in code of bytes, which does not end
  -- before it starts, ends well before the end of the address space and has no run of `prefixes`
  -- prefixes, where that is at most 15, as many as keep an instruction within the 32 bytes of
  -- `newop`, comes to an end without an abort. If it succeeds it has come to the end of the patch and less
  -- than `prefixes` + 17 bytes beyond it; its code has at most 17 bytes for each byte; and the table
  -- has a place for each byte, begins with 0, ends with the length of the code, and its offsets rise. If not, the error is one of the three for the start of a function.
  pub transform_dis_main-Rewrites :
      (ban_calls : Bool)
      → start ≤ stop
      → stop ≤ start + 2 ^ 30
      → prefixes ≤ 15
      → NoRun read prefixes start stop
      → Ends prefixes start stop
          (transform_dis_main read pc_trampoline prefixes start stop ban_calls)
  unfolding transform_dis_main
  transform_dis_main-Rewrites ban_calls le small few runs =
      rewrite-Ends (suc (stop - start)) (begin read pc_trampoline prefixes start stop ban_calls)
        (some 0 ∷ []) 0 runs begins (omega arith)
    where
      begins : Going (begin read pc_trampoline prefixes start stop ban_calls) (some 0 ∷ []) 0
      begins =
          unfold begin in
          record {
            from = refl;
            to = refl;
            at_pc = omega arith;
            least = omega arith;
            entries = begins-Offsets;
            bound = omega arith;
          }
