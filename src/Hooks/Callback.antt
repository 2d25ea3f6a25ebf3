-- ===== src/Hooks/Callback.antt =====
-- Where a thread is moved.
use substitute.Common.{
  ℕ, ◌+◌, ◌%◌, ◌^◌, ◌<◌, ◌≤◌, length, ◌≡◌, ◌≢◌, ◌⊎◌, inl, inr, refl, arith, List, [], ◌∷◌, Bool,
  true, false, none, some, Bool-cases, ◌==◌, ltb, get_or, u64, sub64,
}
use mathlib.Core.Path.{subst, sym, ap, ◌∙◌}
use substitute.TransformDis.{Rewritten, transform_dis_main}
use substitute.TransformDis.Result.{done}
use substitute.TransformDis.Table.{Table, Ends, transform_dis_main-Ends}
use substitute.Hooks.{HookInternal, Moved, pc_callback}

-- The table is the one that the rewriting of the function's code has left, of at least the bytes of
-- the patch.
pub record IsHooked (hi : HookInternal) : Type 0 where
  pub read : ℕ → ℕ
  pub words : (a : ℕ) → read a < 2 ^ 32
  pub stop : ℕ
  pub top : stop + 4 ≤ 2 ^ 64
  pub regs : ℕ
  pub ban_calls : Bool
  pub rewritten : Rewritten
  pub rewrites :
      transform_dis_main read hi.outro_trampoline hi.code stop regs ban_calls ≡ done rewritten
  pub table : hi.offset_by_pcdiff ≡ rewritten.offsets
  pub covered : hi.code + hi.jump_patch_size ≤ stop

abbrev pub AllHooked : List HookInternal → Type 0
AllHooked [] = Unit {0}
AllHooked (hi ∷ his) = IsHooked hi × AllHooked his

abbrev pub within : HookInternal → ℕ → Bool
within hi pc = ltb (sub64 pc hi.code) hi.jump_patch_size

-- The first hook whose patch has `pc` in it.
abbrev pub FirstWithin : List HookInternal → ℕ → HookInternal → Type 0
FirstWithin [] pc hi = ⊥
FirstWithin (h ∷ his) pc hi =
    ((h ≡ hi) × (within h pc ≡ true)) ⊎ ((within h pc ≡ false) × FirstWithin his pc hi)

-- At the start of an instruction of its patch, the thread goes on at the start of the code for that
-- instruction, which is four to 24 bytes of the code that has been put out, and ends where the code
-- for the next one starts; elsewhere in a patch it is where it may not be.
pub InPatch : (hi : HookInternal) → IsHooked hi → ℕ → Moved → Type 0
InPatch hi h pc moved =
    let k = sub64 pc hi.code in
    ((k % 4 ≡ 0)
      × ((o n : ℕ) × (get_or h.rewritten.offsets k none ≡ some o)
          × (get_or h.rewritten.offsets (k + 4) none ≡ some (o + n))
          × (4 ≤ n)
          × (n ≤ 24)
          × (o + n ≤ length h.rewritten.code)
          × (moved ≡ record { pc = u64 (hi.outro_trampoline + o); bad_pc = false })))
    ⊎ ((k % 4 ≢ 0) × (moved ≡ record { pc = pc; bad_pc = true }))

done-injective : (r s : Rewritten) → done r ≡ done s → r ≡ s
done-injective r s h = cc

IsHooked-Table : (hi : HookInternal) (h : IsHooked hi) → Table hi.code h.stop h.rewritten
unfolding Ends
IsHooked-Table hi h =
    elim (transform_dis_main-Ends h.read hi.outro_trampoline hi.code h.stop h.words h.top h.regs
      h.ban_calls (omega (arith, h.covered))) [
        | inl (r, is, t) ↦
            subst (λ s. Table hi.code h.stop s) (done-injective r h.rewritten (sym is ∙ h.rewrites))
              t
        | inr (inl (e, is, _, _)) ↦ let clash = sym is ∙ h.rewrites in cc
        | inr (inr (is, _)) ↦ let clash = sym is ∙ h.rewrites in cc
      ]

pc_callback-some :
    (hi : HookInternal) (his : List HookInternal) (pc o : ℕ)
    → within hi pc ≡ true
    → get_or hi.offset_by_pcdiff (sub64 pc hi.code) none ≡ some o
    → pc_callback (hi ∷ his) pc ≡ record { pc = u64 (hi.outro_trampoline + o); bad_pc = false }
unfolding pc_callback
pc_callback-some hi his pc o w e = rw (w, pc_callback, e) refl

pc_callback-none :
    (hi : HookInternal) (his : List HookInternal) (pc : ℕ)
    → within hi pc ≡ true
    → get_or hi.offset_by_pcdiff (sub64 pc hi.code) none ≡ none
    → pc_callback (hi ∷ his) pc ≡ record { pc = pc; bad_pc = true }
unfolding pc_callback
pc_callback-none hi his pc w e = rw (w, pc_callback, e) refl

pc_callback-next :
    (hi : HookInternal) (his : List HookInternal) (pc : ℕ)
    → within hi pc ≡ false
    → pc_callback (hi ∷ his) pc ≡ pc_callback his pc
unfolding pc_callback
pc_callback-next hi his pc w = rw (w, pc_callback) refl

pc_callback-first :
    (hi : HookInternal) (his : List HookInternal) (pc : ℕ) (h : IsHooked hi)
    → within hi pc ≡ true
    → InPatch hi h pc (pc_callback (hi ∷ his) pc)
unfolding InPatch
pc_callback-first hi his pc h inside =
    let k = sub64 pc hi.code in
    let t = IsHooked-Table hi h in
    let at : k < t.span = ground (arith, t.covers, h.covered) in
    elim (Bool-cases (k % 4 == 0)) [
      | inl e ↦
          let start : k % 4 ≡ 0 = ground arith in
          let (o, n, here, there, lo, hi_) = t.entries.steps k (omega (arith, t.whole)) start in
          let (p, same, small) = t.entries.starts (k + 4) (omega (arith, t.whole)) (omega arith) in
          let next : p ≡ o + n = let both = sym same ∙ there in cc in
          inl (
            start,
            (
              o,
              n,
              here,
              there,
              lo,
              hi_,
              omega arith,
              pc_callback-some hi his pc o inside (ap (λ l. get_or l k none) h.table ∙ here),
            ),
          )
      | inr e ↦
          let between : k % 4 ≢ 0 = ground arith in
          inr (
            between,
            pc_callback-none hi his pc inside
                (ap (λ l. get_or l k none) h.table ∙ t.entries.between k (omega arith) between),
          )
    ]

-- Let the table of each hook be the one that the rewriting of its code has left, of at least its
-- patch. A thread that stands in the patch of a hook is moved to the code that its instruction has
-- been rewritten to where it stands at the start of one, and is reported as being at a bad address
-- where it does not. The first such hook counts.
pub pc_callback-InPatch :
    (his : List HookInternal) (hi : HookInternal) (pc : ℕ)
    → AllHooked his
    → FirstWithin his pc hi
    → (h : IsHooked hi) × InPatch hi h pc (pc_callback his pc)
pc_callback-InPatch [] hi pc wf h = absurd h
pc_callback-InPatch (g ∷ his) hi pc (w, ws) (inr (out, h)) =
    rw (pc_callback-next g his pc out) (pc_callback-InPatch his hi pc ws h)
pc_callback-InPatch (g ∷ his) hi pc (w, ws) (inl (same, inside)) =
    subst (λ t. (h : IsHooked t) × InPatch t h pc (pc_callback (g ∷ his) pc)) same
      (w, pc_callback-first g his pc w inside)
