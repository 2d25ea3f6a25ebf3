-- ===== src/Hooks/Loop/Keeps.antt =====
-- What the pages of a hook leave as it is.
use substitute.Common.{
  ℕ, inl, inr, List, [], ◌∷◌, Bool, false, Option, none, some, Option-cases, Bool-cases, ◌==◌,
}
use substitute.Arm64.JumpPatch.{jump_patch_size}
use substitute.Hooks.{
  HookInternal, Page, try_existing, reach_page, given_page, try_page, last_page, first_page,
  intro_before, intro_after, check_intro_trampoline,
}
use substitute.Hooks.Page.{refused, reached, freed}
use substitute.Hooks.Reach.{
  check_intro_trampoline-direct, check_intro_trampoline-kept, check_intro_trampoline-new,
}
use substitute.Hooks.Loop.{free_pages, free_page}

module _ {W : Type 0} (mmap : W → ℕ → W × Option ℕ) (munmap : W → ℕ → W) (page_size : ℕ)
    (Kept : W → Type 0) (mmap-Kept : (w : W) (hint : ℕ) → Kept w → Kept (mmap w hint).0)
    (munmap-Kept : (w : W) (page : ℕ) → Kept w → Kept (munmap w page)) where
  reach_page-Kept :
      (w : W) (page : ℕ) (r : Option ℕ)
      → Kept w
      → Kept (reach_page mmap munmap page_size w page r).0
  unfolding reach_page
  reach_page-Kept w page none k = munmap-Kept w page k
  reach_page-Kept w page (some n) k = k

  given_page-Kept :
      (w : W) (pc : ℕ) (given : Option ℕ)
      → Kept w
      → Kept (given_page mmap munmap page_size w pc given).0
  unfolding given_page
  given_page-Kept w pc none k = k
  given_page-Kept w pc (some page) k = reach_page-Kept w page _ k

  try_page-Kept : (w : W) (pc hint : ℕ) → Kept w → Kept (try_page mmap munmap page_size w pc hint).0
  unfolding try_page
  try_page-Kept w pc hint k = given_page-Kept _ pc _ (mmap-Kept w hint k)

  last_page-Kept :
      (tried : W × Page) → Kept tried.0 → Kept (last_page mmap munmap page_size tried).0
  unfolding last_page
  last_page-Kept (w, refused) k = k
  last_page-Kept (w, freed page) k = k
  last_page-Kept (w, reached page n) k = k

  intro_before-Kept : (w : W) (pc : ℕ) → Kept w → Kept (intro_before mmap munmap page_size w pc).0
  unfolding intro_before
  intro_before-Kept w pc k = last_page-Kept _ (try_page-Kept w pc _ k)

  first_page-Kept :
      (pc : ℕ) (tried : W × Page)
      → Kept tried.0
      → Kept (first_page mmap munmap page_size pc tried).0
  unfolding first_page
  first_page-Kept pc (w, refused) k = intro_before-Kept w pc k
  first_page-Kept pc (w, freed page) k = intro_before-Kept w pc k
  first_page-Kept pc (w, reached page n) k = k

  intro_after-Kept : (w : W) (pc : ℕ) → Kept w → Kept (intro_after mmap munmap page_size w pc).0
  unfolding intro_after
  intro_after-Kept w pc k = first_page-Kept pc _ (try_page-Kept w pc pc k)

  pub check_intro_trampoline-Kept :
      (w : W) (ptr left pc dpc : ℕ)
      → Kept w
      → Kept (check_intro_trampoline mmap munmap page_size w ptr left pc dpc).0
  check_intro_trampoline-Kept w ptr left pc dpc k =
      elim (Option-cases (jump_patch_size pc dpc false)) [
        | inr (n, direct) ↦
            rw (check_intro_trampoline-direct mmap munmap page_size w ptr left pc dpc direct) k
        | inl far ↦ elim (Option-cases (try_existing ptr left pc)) [
          | inr (n, found) ↦
              rw (check_intro_trampoline-kept mmap munmap page_size w ptr left pc dpc far found) k
          | inl unfit ↦
              rw (check_intro_trampoline-new mmap munmap page_size w ptr left pc dpc far unfit)
                (intro_after-Kept w pc k)
        ]
      ]

  module _ (code : ℕ → ℕ) (thread_safe : Bool) where
    pub free_page-Kept :
        (w : W) (page : ℕ) → Kept w → Kept (free_page mmap munmap page_size code thread_safe w page)
    unfolding free_page
    free_page-Kept w page k = elim (Bool-cases (page == 0)) [
      | inl e ↦ rw e k
      | inr e ↦ rw e (munmap-Kept w page k)
    ]

    pub free_pages-Kept :
        (w : W) (his : List HookInternal)
        → Kept w
        → Kept (free_pages mmap munmap page_size code thread_safe w his)
    unfolding free_pages free_page
    free_pages-Kept w [] k = k
    free_pages-Kept w (hi ∷ his) k =
        free_pages-Kept (free_page mmap munmap page_size code thread_safe w hi.trampoline_page) his
          (free_page-Kept w hi.trampoline_page k)
