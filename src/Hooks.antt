-- ===== src/Hooks.antt =====
-- lib/hook-functions.c on AArch64: where the jump of a hook goes, and where a thread that stands in
-- a patched function is moved. `execmem_alloc_unsealed` and `execmem_free` are those of
-- lib/darwin/execmem.c over `mmap` and `munmap`, which are parameters on a state of their own.
pub mod Callback
pub mod Reach
pub mod Loop
mod Tests
use substitute.Common.{
  ℕ, ◌+◌, ◌-◌, ◌^◌, List, [], ◌∷◌, Bool, true, false, Option, none, some, if◌then◌else◌, ◌==◌, ltb,
  leb, get_or, u64, sub64,
}
use substitute.Arm64.JumpPatch.{jump_patch_size}

-- `struct hook_internal`, less `arch_dis_ctx`, which the loop alone uses. An entry of the table that
-- is not written is none, like -1.
pub record HookInternal : Type 0 where
  pub offset_by_pcdiff : List (Option ℕ)
  pub jump_patch : List ℕ
  pub jump_patch_size : ℕ
  pub code : ℕ
  pub outro_trampoline : ℕ
  pub trampoline_page : ℕ

-- The address to go on at, and whether `encountered_bad_pc` is set.
pub record Moved : Type 0 where
  pub pc : ℕ
  pub bad_pc : Bool

unfoldable pub pc_callback : List HookInternal → ℕ → Moved
pc_callback [] pc = record { pc = pc; bad_pc = false }
pc_callback (hi ∷ his) pc =
    let diff = sub64 pc hi.code in
    elim (ltb diff hi.jump_patch_size) [
      | false ↦ pc_callback his pc
      | true ↦ elim (get_or hi.offset_by_pcdiff diff none) [
        | none ↦ record { pc = pc; bad_pc = true }
        | some offset ↦ record { pc = u64 (hi.outro_trampoline + offset); bad_pc = false }
      ]
    ]

abbrev pub err_vm : ℕ
err_vm = 6

abbrev pub err_out_of_range : ℕ
err_out_of_range = 9

abbrev pub map_failed : ℕ
map_failed = 2 ^ 64 - 1

-- What `check_intro_trampoline` leaves behind its pointers. `patch_size` counts where `ret` is 0.
pub record Intro : Type 0 where
  pub ret : ℕ
  pub patch_size : Option ℕ
  pub need_intro_trampoline : Bool
  pub trampoline_ptr : ℕ
  pub trampoline_size_left : ℕ
  pub trampoline_page : Option ℕ

-- A page that was asked for: none was given, or one within reach, or one that has been freed again.
pub data Page : Type 0 where
  refused : Page
  reached : ℕ → ℕ → Page
  freed : ℕ → Page

unfoldable pub try_existing : ℕ → ℕ → ℕ → Option ℕ
try_existing trampoline_ptr trampoline_size_left pc =
    if trampoline_ptr == 0 then none else (elim (jump_patch_size pc trampoline_ptr false) [
      | none ↦ none
      | some n ↦ if leb n trampoline_size_left then some n else none
    ])

module _ {W : Type 0} (mmap : W → ℕ → W × Option ℕ) (munmap : W → ℕ → W) (page_size : ℕ) where
  -- A page out of reach is freed again.
  unfoldable pub reach_page : W → ℕ → Option ℕ → W × Page
  reach_page w page none = (munmap w page, freed page)
  reach_page w page (some n) = (w, reached page n)

  unfoldable pub given_page : W → ℕ → Option ℕ → W × Page
  given_page w pc none = (w, refused)
  given_page w pc (some page) = reach_page w page (jump_patch_size pc page false)

  unfoldable pub try_page : W → ℕ → ℕ → W × Page
  try_page w pc hint = given_page (mmap w hint).0 pc (mmap w hint).1

  abbrev pub with_page : ℕ → Option ℕ → ℕ → Intro
  with_page ret patch_size page = record {
    ret = ret;
    patch_size = patch_size;
    need_intro_trampoline = true;
    trampoline_ptr = page;
    trampoline_size_left = page_size;
    trampoline_page = some page;
  }

  unfoldable pub last_page : W × Page → W × Intro
  last_page (w, refused) = (w, with_page err_vm none map_failed)
  last_page (w, freed page) = (w, with_page err_out_of_range none page)
  last_page (w, reached page n) = (w, with_page 0 (some n) page)

  unfoldable pub intro_before : W → ℕ → W × Intro
  intro_before w pc = last_page (try_page w pc (sub64 pc 0x80000000))

  unfoldable pub first_page : ℕ → W × Page → W × Intro
  first_page pc (w, refused) = intro_before w pc
  first_page pc (w, freed page) = intro_before w pc
  first_page pc (w, reached page n) = (w, with_page 0 (some n) page)

  unfoldable pub intro_after : W → ℕ → W × Intro
  intro_after w pc = first_page pc (try_page w pc pc)

  unfoldable pub check_intro_trampoline : W → ℕ → ℕ → ℕ → ℕ → W × Intro
  check_intro_trampoline w trampoline_ptr trampoline_size_left pc dpc =
      let kept : ℕ → Bool → Intro = λ n need. record {
        ret = 0;
        patch_size = some n;
        need_intro_trampoline = need;
        trampoline_ptr = trampoline_ptr;
        trampoline_size_left = trampoline_size_left;
        trampoline_page = none;
      } in
      elim (jump_patch_size pc dpc false) [
        | some n ↦ (w, kept n false)
        | none ↦ elim (try_existing trampoline_ptr trampoline_size_left pc) [
          | some n ↦ (w, kept n true)
          | none ↦ intro_after w pc
        ]
      ]
