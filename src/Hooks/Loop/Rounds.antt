-- ===== src/Hooks/Loop/Rounds.antt =====
-- One round of the first loop: what has been checked of a hook where it goes on.
use mathlib.Core.Path.{subst, ap, sym, ◌∙◌}
use substitute.Common.{
  ℕ, ◌+◌, ◌^◌, ◌<◌, ◌≤◌, ◌≡◌, ◌≢◌, ◌⊎◌, inl, inr, refl, arith, List, [], ◌∷◌, ◌++◌, Bool, false,
  Option, none, some, if◌then◌else◌, ltb, length, u64, Bool-cases, Option-cases, append-nil,
  append_assoc,
}
use substitute.Arm64.JumpPatch.{jump_patch_size, make_jump_patch, max_jump_patch_size}
use substitute.TransformDis.{Rewritten, Result, transform_dis_main}
use substitute.TransformDis.Table.{Ends, transform_dis_main-Ends}
use substitute.JumpDis.{Verdict, jump_dis_main}
use substitute.JumpDis.Returns.{jump_dis_main-returns}
use substitute.Hooks.{HookInternal, Intro}
use substitute.Hooks.Reach.{Settled, Unreached, check_intro_trampoline-Settled}
use substitute.Hooks.Loop.{
  Hook, Run, Prepared, page_or_null, size_of_patch, code_at, td_max_rewritten_size, end_outro,
  search_rest, fill_outro, begin_outro, new_page, place_outro, patch_function, place_intro,
  use_intro, prepare,
}
use substitute.Hooks.Loop.Keeps.{check_intro_trampoline-Kept}
use substitute.Hooks.Loop.Prepared.{ready, fails, aborts, out_of_fuel}

size_bound : (pc dpc n : ℕ) → jump_patch_size pc dpc false ≡ some n → n ≤ 12
unfolding jump_patch_size
size_bound pc dpc n h = ground arith

-- These bytes are put at this address of a trampoline.
pub Placed : ℕ → List ℕ → List (ℕ × List ℕ) → Type 0
Placed at bytes all = (before after : List (ℕ × List ℕ)) × (all ≡ before ++ ((at, bytes) ∷ after))

Placed-last :
    (at : ℕ) (bytes : List ℕ) (all : List (ℕ × List ℕ))
    → Placed at bytes (all ++ ((at, bytes) ∷ []))
unfolding Placed
Placed-last at bytes all = (all, [], refl)

pub Placed-grow :
    (at : ℕ) (bytes : List ℕ) (all more : List (ℕ × List ℕ))
    → Placed at bytes all
    → Placed at bytes (all ++ more)
unfolding Placed
Placed-grow at bytes all more (before, after, is) =
    (before, after ++ more, ap (λ t. t ++ more) is ∙ append_assoc before ((at, bytes) ∷ after) more)

-- The jump that is to be written at a function: it goes to the replacement, or to where a jump to it
-- has been put, and is within reach of a jump of the announced size.
pub record Patched (hook : Hook) (at : ℕ) (patch : List ℕ) (patch_size : ℕ)
    (all : List (ℕ × List ℕ)) : Type 0 where
  pub at_function : at ≡ hook.function
  pub target : ℕ
  pub to_replacement :
      (target ≡ hook.replacement)
      ⊎ ((jump : List ℕ) × (make_jump_patch target hook.replacement 0 ≡ some jump)
          × Placed target jump all)
  pub jump : make_jump_patch hook.function target 0 ≡ some patch
  pub whole : patch_size ≡ length patch
  pub size : ℕ
  pub reach : jump_patch_size hook.function target false ≡ some size

abbrev Patched-grow :
    {hook : Hook} {at : ℕ} {patch : List ℕ} {patch_size : ℕ} (all more : List (ℕ × List ℕ))
    → Patched hook at patch patch_size all
    → Patched hook at patch patch_size (all ++ more)
Patched-grow all more p = record {
  at_function = p.at_function;
  target = p.target;
  to_replacement = elim p.to_replacement [
    | inl e ↦ inl e
    | inr (jump, made, placed) ↦ inr (jump, made, Placed-grow p.target jump all more placed)
  ];
  jump = p.jump;
  whole = p.whole;
  size = p.size;
  reach = p.reach;
}

-- What has been found and done for a hook before any function is written: the jump, the code that the
-- instructions under it are rewritten to, which is in the trampoline with a jump behind it to the
-- first instruction that has not been rewritten, and that no jump back has been found.
pub record Checked (code : ℕ → ℕ) (thread_safe : Bool) (hook : Hook) (hi : HookInternal)
    (all : List (ℕ × List ℕ)) : Type 0 where
  pub patched : Patched hook hi.code hi.jump_patch hi.jump_patch_size all
  pub rewritten : Rewritten
  pub rewrites :
      transform_dis_main
        (code_at code hi.code)
        hi.outro_trampoline
        hi.code
        (u64 (hi.code + patched.size))
        0
        thread_safe
      ≡ Result.done rewritten
  pub table : hi.offset_by_pcdiff ≡ rewritten.offsets
  pub code_placed : Placed hi.outro_trampoline rewritten.code all
  pub back : List ℕ
  pub back_made :
      make_jump_patch
        (u64 (hi.outro_trampoline + length rewritten.code))
        rewritten.pc_patch_end
        rewritten.regs
      ≡ some back
  pub back_placed : Placed (u64 (hi.outro_trampoline + length rewritten.code)) back all
  pub no_jump_back :
      jump_dis_main (code_at code hi.code) hi.code rewritten.pc_patch_end ≡ Verdict.clean

pub Checked-grow :
    {code : ℕ → ℕ} {thread_safe : Bool} {hook : Hook} {hi : HookInternal}
    (all more : List (ℕ × List ℕ))
    → Checked code thread_safe hook hi all
    → Checked code thread_safe hook hi (all ++ more)
Checked-grow all more c = record {
  patched = Patched-grow all more c.patched;
  rewritten = c.rewritten;
  rewrites = c.rewrites;
  table = c.table;
  code_placed = Placed-grow _ _ all more c.code_placed;
  back = c.back;
  back_made = c.back_made;
  back_placed = Placed-grow _ _ all more c.back_placed;
  no_jump_back = c.no_jump_back;
}

module _ {W : Type 0} (mmap : W → ℕ → W × Option ℕ) (munmap : W → ℕ → W) (page_size : ℕ)
    (code : ℕ → ℕ) (thread_safe : Bool) (words : (a : ℕ) → code a < 2 ^ 32) (Kept : W → Type 0)
    (mmap-Kept : (w : W) (hint : ℕ) → Kept w → Kept (mmap w hint).0)
    (munmap-Kept : (w : W) (page : ℕ) → Kept w → Kept (munmap w page)) where
  -- A round keeps the functions, and adds a hook that is checked or ends with an error.
  unfoldable pub Sound : Run W → Hook → Prepared W → Type 0
  Sound run hook (ready next) =
      Kept next.world
      × ((hi : HookInternal) × (next.his ≡ run.his ++ (hi ∷ []))
          × Checked code thread_safe hook hi next.trampolines)
      × ((more : List (ℕ × List ℕ)) × (next.trampolines ≡ run.trampolines ++ more))
  Sound run hook (fails e next page) = (e ≢ 0) × Kept next.world
  Sound run hook aborts = Unit {0}
  Sound run hook out_of_fuel = ⊥

  module _ (start : Run W) (hook : Hook) where
    -- The hooks that are done are the same, and nothing is taken out of the trampolines.
    abbrev From : Run W → Type 0
    From run =
        (run.his ≡ start.his)
        × ((more : List (ℕ × List ℕ)) × (run.trampolines ≡ start.trampolines ++ more))

    abbrev put : Run W → ℕ → ℕ → List ℕ → Run W
    put run ptr at bytes = record run {
      trampoline_ptr = ptr;
      trampolines = run.trampolines ++ ((at, bytes) ∷ []);
    }

    From-put : (run : Run W) (ptr at : ℕ) (bytes : List ℕ) → From run → From (put run ptr at bytes)
    From-put run ptr at bytes (same, (more, grown)) = (
      same,
      (
        more ++ ((at, bytes) ∷ []),
        ap (λ t. t ++ ((at, bytes) ∷ [])) grown
            ∙ append_assoc start.trampolines more ((at, bytes) ∷ []),
      ),
    )

    -- What is known of a hook when its rewritten code has been put at its outro trampoline.
    record Filled (run : Run W) (hi : HookInternal) (r : Rewritten) : Type 0 where
      from : From run
      patched : Patched hook hi.code hi.jump_patch hi.jump_patch_size run.trampolines
      done :
          transform_dis_main
            (code_at code hi.code)
            hi.outro_trampoline
            hi.code
            (u64 (hi.code + patched.size))
            0
            thread_safe
          ≡ Result.done r
      table : hi.offset_by_pcdiff ≡ r.offsets
      placed : Placed hi.outro_trampoline r.code run.trampolines
      behind : run.trampoline_ptr ≡ u64 (hi.outro_trampoline + length r.code)

    end_outro-Sound :
        (run : Run W) (hi : HookInternal) (r : Rewritten)
        → Kept run.world
        → Filled run hi r
        → jump_dis_main (code_at code hi.code) hi.code r.pc_patch_end ≡ Verdict.clean
        → Sound start hook (end_outro mmap munmap page_size code thread_safe run hi r)
    unfolding end_outro Sound
    end_outro-Sound run hi r kept f clean =
        elim (Option-cases (make_jump_patch run.trampoline_ptr r.pc_patch_end r.regs)) [
          | inl e ↦ rw (e, end_outro) tt
          | inr (jump, e) ↦
              let last = (run.trampoline_ptr, jump) ∷ [] in
              rw (e, end_outro)
                (
                  kept,
                  (
                    hi,
                    ap (λ t. t ++ (hi ∷ [])) f.from.0,
                    record {
                      patched = Patched-grow run.trampolines last f.patched;
                      rewritten = r;
                      rewrites = f.done;
                      table = f.table;
                      code_placed = Placed-grow _ _ run.trampolines last f.placed;
                      back = jump;
                      back_made = rw f.behind at e;
                      back_placed =
                          subst (λ a. Placed a jump (run.trampolines ++ last)) f.behind
                            (Placed-last run.trampoline_ptr jump run.trampolines);
                      no_jump_back = clean;
                    },
                  ),
                  (From-put run 0 run.trampoline_ptr jump f.from).1,
                )
        ]

    search_rest-Sound :
        (run : Run W) (hi : HookInternal) (r : Rewritten)
        → Kept run.world
        → Filled run hi r
        → Sound start hook (search_rest mmap munmap page_size code thread_safe run hi r)
    unfolding search_rest Sound
    search_rest-Sound run hi r kept f =
        elim (jump_dis_main-returns (code_at code hi.code) (λ a. words _) hi.code r.pc_patch_end) [
          | inl back ↦ rw (back, search_rest) ((λ e. omega arith), kept)
          | inr clean ↦ rw (clean, search_rest) (end_outro-Sound run hi r kept f clean)
        ]

    fill_outro-Sound :
        (run : Run W) (hi : HookInternal)
        → Kept run.world
        → From run
        → (p : Patched hook hi.code hi.jump_patch hi.jump_patch_size run.trampolines)
        → hi.outro_trampoline ≡ run.trampoline_ptr
        → hook.function + 24 ≤ 2 ^ 64
        → Sound start hook
            (fill_outro mmap munmap page_size code thread_safe run hi (u64 (hi.code + p.size)))
    unfolding fill_outro Sound Ends
    fill_outro-Sound run hi kept same p outro fits =
        let small = size_bound hook.function p.target p.size p.reach in
        elim (transform_dis_main-Ends (code_at code hi.code) run.trampoline_ptr hi.code
          (u64 (hi.code + p.size)) (λ a. words _) (omega (arith, p.at_function)) 0 thread_safe
          (omega (arith, p.at_function))) [
            | inl (r, done, _) ↦
                rw (done, fill_outro)
                  (search_rest-Sound
                    (put run (u64 (run.trampoline_ptr + length r.code)) run.trampoline_ptr r.code)
                    (record hi { offset_by_pcdiff = r.offsets }) r kept
                    (record {
                      from = From-put run 0 run.trampoline_ptr r.code same;
                      patched = Patched-grow run.trampolines ((run.trampoline_ptr, r.code) ∷ []) p;
                      done = rw outro done;
                      table = refl;
                      placed = rw outro (Placed-last run.trampoline_ptr r.code run.trampolines);
                      behind = ap (λ (a : ℕ). u64 (a + length r.code)) (sym outro);
                    }))
            | inr (inl (e, failed, lo, hi_)) ↦ rw (failed, fill_outro) ((λ z. omega arith), kept)
            | inr (inr (aborted, _)) ↦ rw (aborted, fill_outro) tt
          ]

    begin_outro-Sound :
        (run : Run W) (hi : HookInternal)
        → Kept run.world
        → From run
        → (p : Patched hook hi.code hi.jump_patch hi.jump_patch_size run.trampolines)
        → hook.function + 24 ≤ 2 ^ 64
        → Sound start hook (
            begin_outro mmap munmap page_size code thread_safe run hook hi (u64 (hi.code + p.size)))
    unfolding begin_outro
    begin_outro-Sound run hi kept same p fits =
        fill_outro-Sound
          (record run {
            olds = run.olds ++ ((if hook.wants_old then some run.trampoline_ptr else none) ∷ []);
          })
          (record hi { outro_trampoline = run.trampoline_ptr }) kept same p refl fits

    new_page-Sound :
        (run : Run W) (hi : HookInternal) (given : W × Option ℕ)
        → Kept given.0
        → From run
        → (p : Patched hook hi.code hi.jump_patch hi.jump_patch_size run.trampolines)
        → hook.function + 24 ≤ 2 ^ 64
        → Sound start hook (
            new_page mmap munmap page_size code thread_safe run hook hi
              (u64 (hi.code + p.size))
              given)
    unfolding new_page Sound
    new_page-Sound run hi (w, none) kept same p fits = ((λ e. omega arith), kept)
    new_page-Sound run hi (w, some page) kept same p fits =
        begin_outro-Sound
          (record run { world = w; trampoline_ptr = page; trampoline_size_left = page_size })
          (record hi { trampoline_page = page }) kept same p fits

    place_outro-Sound :
        (run : Run W) (hi : HookInternal)
        → Kept run.world
        → From run
        → (p : Patched hook hi.code hi.jump_patch hi.jump_patch_size run.trampolines)
        → hook.function + 24 ≤ 2 ^ 64
        → Sound start hook (
            place_outro mmap munmap page_size code thread_safe run hook hi (u64 (hi.code + p.size)))
    unfolding place_outro
    place_outro-Sound run hi kept same p fits =
        elim (Bool-cases
          (ltb run.trampoline_size_left (td_max_rewritten_size + max_jump_patch_size))) [
            | inl full ↦ rw full (new_page-Sound run hi _ (mmap-Kept run.world 0 kept) same p fits)
            | inr room ↦ rw room (begin_outro-Sound run hi kept same p fits)
          ]

    patch_function-Sound :
        (run : Run W) (page size target : ℕ)
        → Kept run.world
        → From run
        → (target ≡ hook.replacement)
          ⊎ ((jump : List ℕ) × (make_jump_patch target hook.replacement 0 ≡ some jump)
              × Placed target jump run.trampolines)
        → jump_patch_size hook.function target false ≡ some size
        → hook.function + 24 ≤ 2 ^ 64
        → Sound start hook
            (patch_function mmap munmap page_size code thread_safe run hook page size target)
    unfolding patch_function Sound
    patch_function-Sound run page size target kept same to reach fits =
        elim (Option-cases (make_jump_patch hook.function target 0)) [
          | inl e ↦ rw (e, patch_function) tt
          | inr (jump, e) ↦
              rw (e, patch_function)
                (place_outro-Sound run _ kept same
                  (record {
                    at_function = refl;
                    target = target;
                    to_replacement = to;
                    jump = e;
                    whole = refl;
                    size = size;
                    reach = reach;
                  })
                  fits)
        ]

    place_intro-Sound :
        (run : Run W) (intro : Intro)
        → Kept run.world
        → From run
        → intro.trampoline_ptr ≡ run.trampoline_ptr
        → jump_patch_size hook.function
            (if intro.need_intro_trampoline then intro.trampoline_ptr else hook.replacement)
            false
          ≡ some (size_of_patch intro.patch_size)
        → hook.function + 24 ≤ 2 ^ 64
        → Sound start hook (place_intro mmap munmap page_size code thread_safe run hook intro)
    unfolding place_intro Sound
    place_intro-Sound run intro kept same ptr reach fits =
        let page = page_or_null intro.trampoline_page in
        let size = size_of_patch intro.patch_size in
        elim (Bool-cases intro.need_intro_trampoline) [
          | inr direct ↦
              let reach' = rw direct at reach in
              rw direct (
                patch_function-Sound run page size hook.replacement kept same (inl refl) reach'
                  fits)
          | inl need ↦ elim (Option-cases (make_jump_patch run.trampoline_ptr hook.replacement 0)) [
            | inl e ↦ rw (need, place_intro, e) tt
            | inr (jump, e) ↦
                let reach' = rw (need, ptr) at reach in
                rw (need, place_intro, e)
                  (patch_function-Sound
                    (put run (u64 (run.trampoline_ptr + length jump)) run.trampoline_ptr jump) page
                    size run.trampoline_ptr kept (From-put run 0 run.trampoline_ptr jump same)
                    (inr (jump, e, Placed-last run.trampoline_ptr jump run.trampolines)) reach'
                    fits)
          ]
        ]

    use_intro-Sound :
        (found : W × Intro)
        → Kept found.0
        → Settled mmap munmap page_size hook.function hook.replacement found
        → hook.function + 24 ≤ 2 ^ 64
        → Sound start hook (use_intro mmap munmap page_size code thread_safe start hook found)
    unfolding use_intro Sound Settled Unreached size_of_patch place_intro
    use_intro-Sound (w, intro) kept (inl (good, (size, sized, reach))) fits =
        let announced : size_of_patch intro.patch_size ≡ size = rw sized refl in
        rw good (
          place_intro-Sound
            (record start {
              world = w;
              trampoline_ptr = intro.trampoline_ptr;
              trampoline_size_left = intro.trampoline_size_left;
            })
            intro kept (refl, ([], sym (append-nil start.trampolines))) refl (rw announced reach)
            fits)
    use_intro-Sound (w, intro) kept (inr (_, inl (e, _, _))) fits = rw e ((λ z. omega arith), kept)
    use_intro-Sound (w, intro) kept (inr (_, inr (e, _))) fits = rw e ((λ z. omega arith), kept)

    pub prepare-Sound :
        Kept start.world
        → hook.function + 24 ≤ 2 ^ 64
        → Sound start hook (prepare mmap munmap page_size code thread_safe start hook)
    unfolding prepare
    prepare-Sound kept fits =
        use_intro-Sound _
          (check_intro_trampoline-Kept mmap munmap page_size Kept mmap-Kept munmap-Kept start.world
            start.trampoline_ptr start.trampoline_size_left hook.function hook.replacement kept)
          (check_intro_trampoline-Settled mmap munmap page_size start.world start.trampoline_ptr
            start.trampoline_size_left hook.function hook.replacement)
          fits
