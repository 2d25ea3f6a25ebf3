-- ===== src/Hooks/Loop.antt =====
-- `substitute_hook_functions` of lib/hook-functions.c on AArch64, where `make_sym_readable` and
-- `make_sym_callable` do nothing. `code` is the 32-bit word at an address, before any function is
-- changed. What goes to trampolines is a list of writes and what goes through `old_ptr` a list of
-- values, both apart from the system: a write beyond the page of a trampoline is not told apart.
pub mod Keeps
pub mod Rounds
pub mod Commit
use substitute.Common.{
  ℕ, ◌+◌, ◌-◌, ◌%◌, ◌^◌, List, [], ◌∷◌, ◌++◌, Bool, true, false, not, ◌&&◌, Option, none, some,
  if◌then◌else◌, ◌==◌, ltb, length, u64, sub64,
}
use substitute.Arm64.JumpPatch.{make_jump_patch, max_jump_patch_size}
use substitute.TransformDis.{Rewritten, Result, transform_dis_main}
use substitute.JumpDis.{Verdict, jump_dis_main}
use substitute.Hooks.{
  HookInternal, Moved, Intro, pc_callback, err_vm, map_failed, check_intro_trampoline,
}

abbrev pub err_oom : ℕ
err_oom = 5

abbrev pub err_not_on_main_thread : ℕ
err_not_on_main_thread = 7

abbrev pub err_unexpected_pc_on_other_thread : ℕ
err_unexpected_pc_on_other_thread = 8

abbrev pub td_max_rewritten_size : ℕ
td_max_rewritten_size = 56

abbrev pub arch_max_code_alignment : ℕ
arch_max_code_alignment = 4

-- `struct substitute_function_hook`; of `old_ptr`, whether it is given.
pub record Hook : Type 0 where
  pub function : ℕ
  pub replacement : ℕ
  pub wants_old : Bool

-- The state of the first loop: the system, the trampoline that is being filled, what has been put
-- there, what has been stored through `old_ptr`, and the hooks that are done.
pub record Run (W : Type 0) : Type 0 where
  pub world : W
  pub trampoline_ptr : ℕ
  pub trampoline_size_left : ℕ
  pub trampolines : List (ℕ × List ℕ)
  pub olds : List (Option ℕ)
  pub his : List HookInternal

-- A round: the next state, or an error with the page of the hook at hand, or an abort.
pub data Prepared (W : Type 0) : Type 0 where
  ready : Run W → Prepared W
  fails : ℕ → Run W → ℕ → Prepared W
  aborts out_of_fuel : Prepared W

-- `struct execmem_foreign_write`
pub record ForeignWrite : Type 0 where
  pub dst : ℕ
  pub src : List ℕ
  pub len : ℕ

-- What is returned, with the system and what has been stored through `old_ptr`.
pub data Hooked (W : Type 0) : Type 0 where
  returns : ℕ → W → List (Option ℕ) → Hooked W
  hook_aborts hook_out_of_fuel : Hooked W

-- A page, where NULL is 0.
unfoldable pub page_or_null : Option ℕ → ℕ
page_or_null none = 0
page_or_null (some page) = page

unfoldable pub size_of_patch : Option ℕ → ℕ
size_of_patch none = 0
size_of_patch (some n) = n

-- The words of the function at `start`, by their offset.
abbrev pub code_at : (ℕ → ℕ) → ℕ → ℕ → ℕ
code_at code start off = code (u64 (start + off))

unfoldable pub align_code : ℕ → ℕ
align_code a = u64 (a + sub64 0 a % arch_max_code_alignment)

module _ {W : Type 0} (mmap : W → ℕ → W × Option ℕ) (munmap : W → ℕ → W) (page_size : ℕ)
    (code : ℕ → ℕ) (thread_safe : Bool) where
  -- The jump from the end of the outro trampoline.
  unfoldable pub end_outro : Run W → HookInternal → Rewritten → Prepared W
  end_outro run hi r = elim (make_jump_patch run.trampoline_ptr r.pc_patch_end r.regs) [
    | none ↦ aborts
    | some jump ↦
        let end = align_code (run.trampoline_ptr + length jump) in
        ready (record run {
          trampoline_ptr = end;
          trampoline_size_left = sub64 run.trampoline_size_left (sub64 end hi.outro_trampoline);
          trampolines = run.trampolines ++ ((run.trampoline_ptr, jump) ∷ []);
          his = run.his ++ (hi ∷ []);
        })
  ]

  -- The search for jumps back, which returns true as the error 1.
  unfoldable pub search_rest : Run W → HookInternal → Rewritten → Prepared W
  search_rest run hi r = elim (jump_dis_main (code_at code hi.code) hi.code r.pc_patch_end) [
    | Verdict.jumps_back ↦ fails 1 run hi.trampoline_page
    | Verdict.clean ↦ end_outro run hi r
    | Verdict.aborted ↦ aborts
    | Verdict.out_of_fuel ↦ out_of_fuel
  ]

  -- The rewriting of the patch to the outro trampoline.
  unfoldable pub fill_outro : Run W → HookInternal → ℕ → Prepared W
  fill_outro run hi pc_patch_end =
      elim (transform_dis_main (code_at code hi.code) run.trampoline_ptr hi.code pc_patch_end 0
        thread_safe) [
          | Result.done r ↦
              search_rest
                (record run {
                  trampoline_ptr = u64 (run.trampoline_ptr + length r.code);
                  trampolines = run.trampolines ++ ((run.trampoline_ptr, r.code) ∷ []);
                })
                (record hi { offset_by_pcdiff = r.offsets }) r
          | Result.failed e ↦ fails e run hi.trampoline_page
          | Result.aborted ↦ aborts
          | Result.out_of_fuel ↦ out_of_fuel
        ]

  unfoldable pub begin_outro : Run W → Hook → HookInternal → ℕ → Prepared W
  begin_outro run hook hi pc_patch_end =
      let outro = run.trampoline_ptr in
      fill_outro
        (record run { olds = run.olds ++ ((if hook.wants_old then some outro else none) ∷ []) })
        (record hi { outro_trampoline = outro }) pc_patch_end

  -- With a new page if there is not enough left.
  unfoldable pub new_page : Run W → Hook → HookInternal → ℕ → W × Option ℕ → Prepared W
  new_page run hook hi pc_patch_end (w, none) =
      fails err_vm
        (record run { world = w; trampoline_ptr = map_failed; trampoline_size_left = page_size })
        hi.trampoline_page
  new_page run hook hi pc_patch_end (w, some page) =
      begin_outro
        (record run { world = w; trampoline_ptr = page; trampoline_size_left = page_size }) hook
        (record hi { trampoline_page = page }) pc_patch_end

  unfoldable pub place_outro : Run W → Hook → HookInternal → ℕ → Prepared W
  place_outro run hook hi pc_patch_end =
      if ltb run.trampoline_size_left (td_max_rewritten_size + max_jump_patch_size)
      then new_page run hook hi pc_patch_end (mmap run.world 0)
      else begin_outro run hook hi pc_patch_end

  -- The patch of the function itself.
  unfoldable pub patch_function : Run W → Hook → ℕ → ℕ → ℕ → Prepared W
  patch_function run hook page size initial_target =
      elim (make_jump_patch hook.function initial_target 0) [
        | none ↦ aborts
        | some jump ↦
            place_outro run hook
              (record {
                offset_by_pcdiff = [];
                jump_patch = jump;
                jump_patch_size = length jump;
                code = hook.function;
                outro_trampoline = 0;
                trampoline_page = page;
              })
              (u64 (hook.function + size))
      ]

  -- The jump from the trampoline to the replacement, if it is needed.
  unfoldable pub place_intro : Run W → Hook → Intro → Prepared W
  place_intro run hook intro =
      let page = page_or_null intro.trampoline_page in
      let size = size_of_patch intro.patch_size in
      if intro.need_intro_trampoline
      then (elim (make_jump_patch run.trampoline_ptr hook.replacement 0) [
        | none ↦ aborts
        | some jump ↦
            patch_function
              (record run {
                trampoline_ptr = u64 (run.trampoline_ptr + length jump);
                trampolines = run.trampolines ++ ((run.trampoline_ptr, jump) ∷ []);
              })
              hook page size run.trampoline_ptr
      ])
      else patch_function run hook page size hook.replacement

  unfoldable pub use_intro : Run W → Hook → W × Intro → Prepared W
  use_intro run hook (w, intro) =
      let found = record run {
        world = w;
        trampoline_ptr = intro.trampoline_ptr;
        trampoline_size_left = intro.trampoline_size_left;
      } in
      if intro.ret == 0
      then place_intro found hook intro
      else fails intro.ret found (page_or_null intro.trampoline_page)

  -- One round of the first loop.
  unfoldable pub prepare : Run W → Hook → Prepared W
  prepare run hook = use_intro run hook (
      check_intro_trampoline mmap munmap page_size run.world run.trampoline_ptr
        run.trampoline_size_left hook.function hook.replacement)

  unfoldable pub prepare_all : Run W → List Hook → Prepared W
  prepare_all run [] = ready run
  prepare_all run (hook ∷ hooks) = elim (prepare run hook) [
    | ready next ↦ prepare_all next hooks
    | fails e next page ↦ fails e next page
    | aborts ↦ aborts
    | out_of_fuel ↦ out_of_fuel
  ]

  -- `execmem_free` of a page, if there is one.
  unfoldable pub free_page : W → ℕ → W
  free_page w page = if page == 0 then w else munmap w page

  unfoldable pub free_pages : W → List HookInternal → W
  unfolding free_page
  free_pages w [] = w
  free_pages w (hi ∷ his) = free_pages (free_page w hi.trampoline_page) his

  module _ (mprotect : W → ℕ → W)
      (foreign_write : W → List ForeignWrite → Option (ℕ → Moved) → W × ℕ × Bool) where
    -- `execmem_seal` of every page; what it returns is not looked at.
    unfoldable pub seal_pages : W → List HookInternal → W
    seal_pages w [] = w
    seal_pages w (hi ∷ his) =
        seal_pages (if hi.trampoline_page == 0 then w else mprotect w hi.trampoline_page) his

    unfoldable pub writes_of : List HookInternal → List ForeignWrite
    writes_of [] = []
    writes_of (hi ∷ his) =
        record { dst = hi.code; src = hi.jump_patch; len = hi.jump_patch_size } ∷ writes_of his

    -- The writes to the functions, and the error that they or a thread in a patch make.
    unfoldable pub commit : W → List HookInternal → List (Option ℕ) → Hooked W
    commit w his olds =
        let callback = if thread_safe then some (pc_callback his) else none in
        let (written, ret, bad_pc) = foreign_write (seal_pages w his) (writes_of his) callback in
        let error = if bad_pc then err_unexpected_pc_on_other_thread else 0 in
        returns (if ret == 0 then error else ret) written olds

    -- `main_thread` is `pthread_main_np`, and `given` whether `malloc` gives memory.
    unfoldable pub substitute_hook_functions : Bool → Bool → W → List Hook → Hooked W
    substitute_hook_functions main_thread given w hooks =
        if thread_safe && not main_thread
        then returns err_not_on_main_thread w []
        else if not given
        then returns err_oom w []
        else (elim (prepare_all
            (record {
              world = w;
              trampoline_ptr = 0;
              trampoline_size_left = 0;
              trampolines = [];
              olds = [];
              his = [];
            })
            hooks) [
              | ready run ↦ commit run.world run.his run.olds
              | fails e run page ↦
                  returns e (free_page (free_pages run.world run.his) page) run.olds
              | aborts ↦ hook_aborts
              | out_of_fuel ↦ hook_out_of_fuel
            ])
