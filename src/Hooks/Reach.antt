-- ===== src/Hooks/Reach.antt =====
-- Where the jump of a hook can go.
use substitute.Common.{
  ℕ, ◌-◌, ◌^◌, ◌≡◌, ◌⊎◌, inl, inr, refl, Bool, true, false, Option, none, some, Option-cases,
  Bool-cases, if◌then◌else◌, ◌==◌, leb, sub64,
}
use substitute.Arm64.JumpPatch.{jump_patch_size}
use substitute.Hooks.{
  Intro, Page, err_vm, err_out_of_range, try_existing, reach_page, given_page, try_page, last_page,
  first_page, intro_before, intro_after, check_intro_trampoline,
}
use substitute.Hooks.Page.{refused, reached, freed}

try_existing-reaches :
    (ptr left pc n : ℕ) → try_existing ptr left pc ≡ some n → jump_patch_size pc ptr false ≡ some n
unfolding try_existing
try_existing-reaches ptr left pc n h = elim (Bool-cases (ptr == 0)) [
  | inl e ↦ let h' = rw (e, try_existing) at h in cc
  | inr e ↦ elim (Option-cases (jump_patch_size pc ptr false)) [
    | inl f ↦ let h' = rw (e, f, try_existing) at h in cc
    | inr (k, f) ↦ elim (Bool-cases (leb k left)) [
      | inl g ↦ let h' = rw (e, f, g, try_existing) at h in cc
      | inr g ↦ let h' = rw (e, f, g, try_existing) at h in cc
    ]
  ]
]

module _ {W : Type 0} (mmap : W → ℕ → W × Option ℕ) (munmap : W → ℕ → W) (page_size : ℕ) where
  -- What has come of the page that is asked for near `hint`: it is not given, or it is kept and
  -- within reach, or it is out of reach and has been freed.
  pub IsTried : W → ℕ → ℕ → W × Page → Type 0
  IsTried w pc hint (after, refused) = ((mmap w hint).1 ≡ none) × (after ≡ (mmap w hint).0)
  IsTried w pc hint (after, reached page n) =
      ((mmap w hint).1 ≡ some page) × (jump_patch_size pc page false ≡ some n)
  IsTried w pc hint (after, freed page) =
      ((mmap w hint).1 ≡ some page)
      × (jump_patch_size pc page false ≡ none)
      × (after ≡ munmap (mmap w hint).0 page)

  -- The last page that is asked for is the one 2 GB below the function. Where it is not given, what is
  -- left as the page of the hook is MAP_FAILED; where it is given out of reach, it is the page itself,
  -- which has been freed.
  unfoldable pub Unreached : ℕ → W × Intro → Type 0
  Unreached pc (after, i) =
      (w : W) × (((i.ret ≡ err_vm)
          × (i.trampoline_page ≡ some (2 ^ 64 - 1))
          × IsTried w pc (sub64 pc 0x80000000) (after, refused))
        ⊎ ((i.ret ≡ err_out_of_range)
            × ((page : ℕ) × (i.trampoline_page ≡ some page)
                × IsTried w pc (sub64 pc 0x80000000) (after, freed page))))

  -- Either the jump is of the announced size and within reach, to the target or to the trampoline, or
  -- there is an error.
  unfoldable pub Settled : ℕ → ℕ → W × Intro → Type 0
  Settled pc dpc (after, i) =
      ((i.ret ≡ 0)
        × ((n : ℕ) × (i.patch_size ≡ some n)
            × (jump_patch_size pc (if i.need_intro_trampoline then i.trampoline_ptr else dpc) false
                ≡ some n)))
      ⊎ Unreached pc (after, i)

  reach_page-IsTried :
      (w : W) (pc hint page : ℕ) (r : Option ℕ)
      → (mmap w hint).1 ≡ some page
      → jump_patch_size pc page false ≡ r
      → IsTried w pc hint (reach_page mmap munmap page_size (mmap w hint).0 page r)
  unfolding reach_page IsTried
  reach_page-IsTried w pc hint page none given h = (given, h, refl)
  reach_page-IsTried w pc hint page (some n) given h = (given, h)

  given_page-IsTried :
      (w : W) (pc hint : ℕ) (given : Option ℕ)
      → (mmap w hint).1 ≡ given
      → IsTried w pc hint (given_page mmap munmap page_size (mmap w hint).0 pc given)
  unfolding given_page IsTried
  given_page-IsTried w pc hint none h = (h, refl)
  given_page-IsTried w pc hint (some page) h = reach_page-IsTried w pc hint page _ h refl

  try_page-IsTried :
      (w : W) (pc hint : ℕ) → IsTried w pc hint (try_page mmap munmap page_size w pc hint)
  unfolding try_page
  try_page-IsTried w pc hint = given_page-IsTried w pc hint (mmap w hint).1 refl

  last_page-Settled :
      (w : W) (pc dpc : ℕ) (tried : W × Page)
      → IsTried w pc (sub64 pc 0x80000000) tried
      → Settled pc dpc (last_page mmap munmap page_size tried)
  unfolding last_page IsTried Settled Unreached
  last_page-Settled w pc dpc (after, refused) h = inr (w, inl (refl, refl, h))
  last_page-Settled w pc dpc (after, freed page) h = inr (w, inr (refl, (page, refl, h)))
  last_page-Settled w pc dpc (after, reached page n) h = inl (refl, (n, refl, h.1))

  intro_before-Settled :
      (w : W) (pc dpc : ℕ) → Settled pc dpc (intro_before mmap munmap page_size w pc)
  unfolding intro_before
  intro_before-Settled w pc dpc =
      last_page-Settled w pc dpc (try_page mmap munmap page_size w pc (sub64 pc 0x80000000))
        (try_page-IsTried w pc (sub64 pc 0x80000000))

  first_page-Settled :
      (w : W) (pc dpc : ℕ) (tried : W × Page)
      → IsTried w pc pc tried
      → Settled pc dpc (first_page mmap munmap page_size pc tried)
  unfolding first_page IsTried Settled
  first_page-Settled w pc dpc (after, refused) h = intro_before-Settled after pc dpc
  first_page-Settled w pc dpc (after, freed page) h = intro_before-Settled after pc dpc
  first_page-Settled w pc dpc (after, reached page n) h = inl (refl, (n, refl, h.1))

  intro_after-Settled :
      (w : W) (pc dpc : ℕ) → Settled pc dpc (intro_after mmap munmap page_size w pc)
  unfolding intro_after
  intro_after-Settled w pc dpc =
      first_page-Settled w pc dpc (try_page mmap munmap page_size w pc pc)
        (try_page-IsTried w pc pc)

  abbrev kept : ℕ → ℕ → ℕ → Bool → Intro
  kept ptr left n need = record {
    ret = 0;
    patch_size = some n;
    need_intro_trampoline = need;
    trampoline_ptr = ptr;
    trampoline_size_left = left;
    trampoline_page = none;
  }

  pub check_intro_trampoline-direct :
      (w : W) (ptr left pc dpc : ℕ) {n : ℕ}
      → jump_patch_size pc dpc false ≡ some n
      → check_intro_trampoline mmap munmap page_size w ptr left pc dpc ≡ (w, kept ptr left n false)
  unfolding check_intro_trampoline
  check_intro_trampoline-direct w ptr left pc dpc direct = rw (direct, check_intro_trampoline) refl

  pub check_intro_trampoline-kept :
      (w : W) (ptr left pc dpc : ℕ) {n : ℕ}
      → jump_patch_size pc dpc false ≡ none
      → try_existing ptr left pc ≡ some n
      → check_intro_trampoline mmap munmap page_size w ptr left pc dpc ≡ (w, kept ptr left n true)
  unfolding check_intro_trampoline
  check_intro_trampoline-kept w ptr left pc dpc far found =
      rw (far, check_intro_trampoline, found) refl

  pub check_intro_trampoline-new :
      (w : W) (ptr left pc dpc : ℕ)
      → jump_patch_size pc dpc false ≡ none
      → try_existing ptr left pc ≡ none
      → check_intro_trampoline mmap munmap page_size w ptr left pc dpc
        ≡ intro_after mmap munmap page_size w pc
  unfolding check_intro_trampoline
  check_intro_trampoline-new w ptr left pc dpc far unfit =
      rw (far, check_intro_trampoline, unfit) refl

  -- Whatever pages the system gives, the check ends in one of two ways. Either a jump of the size
  -- that it announces reaches the replacement, or the trampoline where it says that one is needed.
  -- Or it has failed with the last page that it asked for, 2 GB below the function: the system gave
  -- none, and MAP_FAILED is left for the hook to free; or the system gave one out of reach, which has
  -- been freed, and is left for the hook to free again.
  pub check_intro_trampoline-Settled :
      (w : W) (trampoline_ptr trampoline_size_left pc dpc : ℕ)
      → Settled pc dpc (
          check_intro_trampoline mmap munmap page_size w trampoline_ptr trampoline_size_left pc dpc)
  check_intro_trampoline-Settled w ptr left pc dpc =
      elim (Option-cases (jump_patch_size pc dpc false)) [
        | inr (n, direct) ↦
            rw (check_intro_trampoline-direct w ptr left pc dpc direct)
              (unfold Settled in inl (refl, (n, refl, direct)))
        | inl far ↦ elim (Option-cases (try_existing ptr left pc)) [
          | inr (n, found) ↦
              rw (check_intro_trampoline-kept w ptr left pc dpc far found)
                (unfold Settled in inl (refl, (n, refl, try_existing-reaches ptr left pc n found)))
          | inl unfit ↦
              rw (check_intro_trampoline-new w ptr left pc dpc far unfit)
                (intro_after-Settled w pc dpc)
        ]
      ]
