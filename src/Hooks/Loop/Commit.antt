-- ===== src/Hooks/Loop/Commit.antt =====
-- No function is written unless every hook has passed every check.
use mathlib.Core.Path.{◌∙◌, sym, ap, subst}
use substitute.Common.{
  ℕ, ◌+◌, ◌^◌, ◌<◌, ◌≤◌, ◌≡◌, ◌≢◌, ◌⊎◌, inl, inr, refl, arith, List, [], ◌∷◌, ◌++◌, Bool, true,
  false, not, ◌&&◌, Option, some, none, length, if◌then◌else◌, ◌==◌, append-nil, append_assoc,
  Bool-cases,
}
use substitute.Hooks.{HookInternal, Moved, pc_callback}
use substitute.Hooks.Loop.{
  Hook, Run, Prepared, ForeignWrite, Hooked, prepare, prepare_all, commit, seal_pages, writes_of,
  substitute_hook_functions,
}
use substitute.Hooks.Loop.Keeps.{free_page-Kept, free_pages-Kept}
use substitute.Hooks.Loop.Prepared.{ready, fails, aborts, out_of_fuel}
use substitute.Hooks.Loop.Hooked.{returns, hook_aborts}
use substitute.Hooks.Loop.Rounds.{Checked, Checked-grow, Sound, prepare-Sound}

-- The hooks and what is kept of them, one for one.
pub data AllChecked (code : ℕ → ℕ) (thread_safe : Bool) (all : List (ℕ × List ℕ))
    : List Hook → List HookInternal → Type 0 where
  no_hooks : AllChecked code thread_safe all [] []
  hook_and :
      {hook : Hook} {hi : HookInternal} {hooks : List Hook} {his : List HookInternal}
      → Checked code thread_safe hook hi all
      → AllChecked code thread_safe all hooks his
      → AllChecked code thread_safe all (hook ∷ hooks) (hi ∷ his)

-- One write for each hook, in their order: the whole jump, to the function.
pub WritesFor : List Hook → List HookInternal → List ForeignWrite → Type 0
WritesFor [] [] [] = Unit {0}
WritesFor (hook ∷ hooks) (hi ∷ his) (write ∷ writes) =
    (write.dst ≡ hook.function)
    × (write.src ≡ hi.jump_patch)
    × (write.len ≡ length hi.jump_patch)
    × WritesFor hooks his writes
WritesFor _ _ _ = ⊥

-- No function reaches the last bytes of the address space.
unfoldable pub InSpace : List Hook → Type 0
InSpace [] = Unit {0}
InSpace (hook ∷ hooks) = (hook.function + 24 ≤ 2 ^ 64) × InSpace hooks

module _ {W : Type 0} (mmap : W → ℕ → W × Option ℕ) (munmap : W → ℕ → W) (page_size : ℕ)
    (code : ℕ → ℕ) (thread_safe : Bool) (words : (a : ℕ) → code a < 2 ^ 32) (Kept : W → Type 0)
    (mmap-Kept : (w : W) (hint : ℕ) → Kept w → Kept (mmap w hint).0)
    (munmap-Kept : (w : W) (page : ℕ) → Kept w → Kept (munmap w page)) where
  -- The whole first loop.
  unfoldable AllSound : Run W → List Hook → Prepared W → Type 0
  AllSound run hooks (ready next) =
      Kept next.world
      × ((his : List HookInternal) × (next.his ≡ run.his ++ his)
          × AllChecked code thread_safe next.trampolines hooks his)
      × ((more : List (ℕ × List ℕ)) × (next.trampolines ≡ run.trampolines ++ more))
  AllSound run hooks (fails e next page) = (e ≢ 0) × Kept next.world
  AllSound run hooks aborts = Unit {0}
  AllSound run hooks out_of_fuel = ⊥

  after_Sound :
      (run next : Run W) (hi : HookInternal) (hook : Hook) (hooks : List Hook) (result : Prepared W)
      → next.his ≡ run.his ++ (hi ∷ [])
      → Checked code thread_safe hook hi next.trampolines
      → ((more : List (ℕ × List ℕ)) × (next.trampolines ≡ run.trampolines ++ more))
      → AllSound next hooks result
      → AllSound run (hook ∷ hooks) result
  unfolding AllSound
  after_Sound run next hi hook hooks (ready last) same c (put, grew)
        (kept, (his, more, all), (then_put, grows)) =
      let joined = append_assoc run.his (hi ∷ []) his in
      let grown : next.his ++ his ≡ (run.his ++ (hi ∷ [])) ++ his = rw same refl in
      let checked =
        subst (λ t. Checked code thread_safe hook hi t) (sym grows)
          (Checked-grow next.trampolines then_put c) in
      (
        kept,
        (hi ∷ his, more ∙ grown ∙ joined, hook_and checked all),
        (
          put ++ then_put,
          grows ∙ ap (λ t. t ++ then_put) grew ∙ append_assoc run.trampolines put then_put,
        ),
      )
  after_Sound run next hi hook hooks (fails e last page) same c grew h = h
  after_Sound run next hi hook hooks aborts same c grew h = h
  after_Sound run next hi hook hooks out_of_fuel same c grew h = h

  prepare_all-step :
      (run : Run W) (hook : Hook) (hooks : List Hook) (round : Prepared W)
      → prepare mmap munmap page_size code thread_safe run hook ≡ round
      → Sound mmap munmap page_size code thread_safe words Kept mmap-Kept munmap-Kept run hook round
      → ((next : Run W)
          → Kept next.world
          → AllSound next hooks (prepare_all mmap munmap page_size code thread_safe next hooks))
      → AllSound run
          (hook ∷ hooks)
          (prepare_all mmap munmap page_size code thread_safe run (hook ∷ hooks))
  unfolding prepare_all Sound AllSound
  prepare_all-step run hook hooks (ready next) e (kept, (hi, same, c), grew) more =
      rw (e, prepare_all) (after_Sound run next hi hook hooks _ same c grew (more next kept))
  prepare_all-step run hook hooks (fails err next page) e h more = rw (e, prepare_all) h
  prepare_all-step run hook hooks aborts e h more = rw (e, prepare_all) tt
  prepare_all-step run hook hooks out_of_fuel e h more = absurd h

  prepare_all-AllSound :
      (hooks : List Hook) (run : Run W)
      → InSpace hooks
      → Kept run.world
      → AllSound run hooks (prepare_all mmap munmap page_size code thread_safe run hooks)
  unfolding InSpace AllSound prepare_all
  prepare_all-AllSound [] run fits kept =
      (kept, ([], sym (append-nil run.his), no_hooks), ([], sym (append-nil run.trampolines)))
  prepare_all-AllSound (hook ∷ hooks) run (fits, more) kept =
      prepare_all-step run hook hooks _ refl
        (prepare-Sound mmap munmap page_size code thread_safe words Kept mmap-Kept munmap-Kept run
          hook kept fits)
        (λ next kept'. prepare_all-AllSound hooks next more kept')

  module _ (mprotect : W → ℕ → W)
      (foreign_write : W → List ForeignWrite → Option (ℕ → Moved) → W × ℕ × Bool) where
    abbrev begun : W → Run W
    begun w = record {
      world = w;
      trampoline_ptr = 0;
      trampoline_size_left = 0;
      trampolines = [];
      olds = [];
      his = [];
    }

    -- What the second loop does and returns: the pages are sealed, the writes are made in one call, and
    -- a thread that stands in a patch at a bad address is an error of its own.
    pub Committed : List Hook → Run W → Hooked W → Type 0
    Committed hooks run result =
        (writes : List ForeignWrite) × WritesFor hooks run.his writes
        × (let sent =
              foreign_write
                (seal_pages mmap munmap page_size code thread_safe mprotect foreign_write run.world
                  run.his)
                writes (if thread_safe then some (pc_callback run.his) else none) in
            result
            ≡ returns (if sent.1 == 0 then (if sent.2 then 8 else 0) else sent.1) sent.0 run.olds)

    writes_of-WritesFor :
        (hooks : List Hook) (his : List HookInternal) (all : List (ℕ × List ℕ))
        → AllChecked code thread_safe all hooks his
        → WritesFor hooks his
            (writes_of mmap munmap page_size code thread_safe mprotect foreign_write his)
    unfolding WritesFor writes_of
    writes_of-WritesFor [] [] all no_hooks = tt
    writes_of-WritesFor [] (hi ∷ his) all h = elim h [ ]
    writes_of-WritesFor (hook ∷ hooks) [] all h = elim h [ ]
    writes_of-WritesFor (hook ∷ hooks) (hi ∷ his) all (hook_and c more) =
        (c.patched.at_function, refl, c.patched.whole, writes_of-WritesFor hooks his all more)

    -- No function has been written and there is an error, or the first loop has come to its end, every
    -- hook has been checked and the writes of all are made at once; or a register for a jump was
    -- wanting.
    pub AllOrNone : W → List Hook → Hooked W → Type 0
    AllOrNone w hooks result =
        ((e : ℕ) × ((after : W) × ((olds : List (Option ℕ)) × (result ≡ returns e after olds)
              × (e ≢ 0)
              × Kept after)))
        ⊎ (((run : Run W) × (prepare_all mmap munmap page_size code thread_safe (begun w) hooks
                ≡ ready run)
              × Kept run.world
              × AllChecked code thread_safe run.trampolines hooks run.his
              × Committed hooks run result)
            ⊎ (result ≡ hook_aborts))

    all_or_none :
        (main_thread given : Bool) (w : W) (hooks : List Hook) (prepared : Prepared W)
        → (thread_safe && not main_thread) ≡ false
        → given ≡ true
        → prepare_all mmap munmap page_size code thread_safe (begun w) hooks ≡ prepared
        → AllSound (begun w) hooks prepared
        → AllOrNone w hooks (
            substitute_hook_functions mmap munmap page_size code thread_safe mprotect foreign_write
              main_thread given w hooks)
    unfolding substitute_hook_functions AllSound AllOrNone Committed commit
    all_or_none main_thread given w hooks (ready run) on_main memory e (kept, (his, same, all), _) =
        rw (on_main, memory, substitute_hook_functions, e)
          (inr (
            inl (
              run,
              refl,
              kept,
              rw same all,
              (_, writes_of-WritesFor hooks run.his run.trampolines (rw same all), refl),
            )))
    all_or_none main_thread given w hooks (fails err run page) on_main memory e (wrong, kept) =
        rw (on_main, memory, substitute_hook_functions, e)
          (inl (
            err,
            (
              _,
              (
                run.olds,
                refl,
                wrong,
                free_page-Kept mmap munmap page_size Kept mmap-Kept munmap-Kept code thread_safe _
                    page
                    (free_pages-Kept mmap munmap page_size Kept mmap-Kept munmap-Kept code
                      thread_safe run.world run.his kept),
              ),
            ),
          ))
    all_or_none main_thread given w hooks aborts on_main memory e h =
        rw (on_main, memory, substitute_hook_functions, e) (inr (inr refl))
    all_or_none main_thread given w hooks out_of_fuel on_main memory e h = absurd h

    -- Let `Kept` be any property of the system that `mmap` and `munmap` keep, such as that the memory
    -- of the functions is as it was. Whatever hooks in code of 32-bit words, away from the end of the
    -- address space, `substitute_hook_functions` comes to an end in one of three ways. It returns an
    -- error in a system with the property. Or every hook has been checked: its jump is within reach
    -- and goes to the replacement or to where a jump to the replacement has been put, the
    -- instructions under it have been rewritten, what they have been rewritten to has been put in the
    -- trampoline with a jump back behind it, and the search has found no jump back; then, from a
    -- system with the property, the pages are sealed, and the whole jump of each hook is handed over,
    -- to be written at its function, in the one call that writes to functions. What that call
    -- returns is returned, or the error 8 if it reports a bad address. Or it aborts, in a system that
    -- it does not return.
    pub substitute_hook_functions-AllOrNone :
        (main_thread given : Bool) (w : W) (hooks : List Hook)
        → InSpace hooks
        → Kept w
        → AllOrNone w hooks (
            substitute_hook_functions mmap munmap page_size code thread_safe mprotect foreign_write
              main_thread given w hooks)
    unfolding substitute_hook_functions AllOrNone
    substitute_hook_functions-AllOrNone main_thread given w hooks fits kept =
        elim (Bool-cases (thread_safe && not main_thread)) [
          | inl off_main ↦
              rw (off_main, substitute_hook_functions)
                (inl (7, (w, ([], refl, (λ e. omega arith), kept))))
          | inr on_main ↦ elim (Bool-cases given) [
            | inr no_memory ↦
                rw (on_main, no_memory, substitute_hook_functions)
                  (inl (5, (w, ([], refl, (λ e. omega arith), kept))))
            | inl memory ↦
                all_or_none main_thread given w hooks _ on_main memory refl
                  (prepare_all-AllSound hooks (begun w) fits kept)
          ]
        ]
