-- ===== src/JumpDis/Extends.antt =====
-- What a round does to the set of marked indices and to the queue.
use mathlib.Core.Path.{◌∙◌}
use substitute.Common.{
  ℕ, ◌<◌, ◌≡◌, ◌≢◌, ◌⊎◌, inl, inr, refl, arith, List, [], ◌∷◌, Bool, true, false, bit_and, ◌==◌,
  leb, Bool-cases, if◌then◌else◌,
}
use native.Mathlib.Decide.{ℕ_discrete}
use substitute.Dis.Event.{pcrel, branch, ret, indirect_call, unidentified, bad}
use substitute.Arm64.Decode.{Arm64Event}
use substitute.JumpDis.{
  Ctx, is_seen, mark_seen, window_index, add_to_queue, in_patch, handle, max_insns,
}
use substitute.JumpDis.Seen.{IsMask, is_seen-mark_seen}
use substitute.JumpDis.Flow.{BranchTo}

abbrev pub Member : ℕ → List ℕ → Type 0
Member a [] = ⊥
Member a (x ∷ xs) = (a ≡ x) ⊎ Member a xs

-- `ctx'` has at least the marks and the queue of `ctx`. A new mark is that of an address in the
-- queue, and what is new in the queue has the property `P`.
pub record Extends (P : ℕ → Type 0) (ctx ctx' : Ctx) : Type 0 where
  pub grows : (d : ℕ) → d < 512 → is_seen ctx.seen_mask d ≡ true → is_seen ctx'.seen_mask d ≡ true
  pub keeps : (a : ℕ) → Member a ctx.queue → Member a ctx'.queue
  pub fresh :
      (d : ℕ)
      → d < 512
      → is_seen ctx'.seen_mask d ≡ true
      → (is_seen ctx.seen_mask d ≡ true)
        ⊎ ((a : ℕ) × (window_index ctx.pc_patch_start a ≡ d) × Member a ctx'.queue)
  pub holds : (a : ℕ) → Member a ctx'.queue → Member a ctx.queue ⊎ P a
  pub start : ctx'.pc_patch_start ≡ ctx.pc_patch_start

is_seen-mark_other :
    (mask : List ℕ)
    → IsMask mask
    → (i d : ℕ) → i < 512
    → d < 512
    → i ≢ d
    → is_seen (mark_seen mask i) d ≡ true
    → is_seen mask d ≡ true
is_seen-mark_other mask valid i d hi hd ne e =
    let same = is_seen-mark_seen mask valid i hi d hd in ground arith

if_self : (i : ℕ) (b : Bool) → (if i == i then true else b) ≡ true
if_self i b = ground arith

module _ (P : ℕ → Type 0) where
  -- A step that touches neither.
  pub Extends-same :
      (ctx ctx' : Ctx)
      → ctx'.seen_mask ≡ ctx.seen_mask
      → ctx'.queue ≡ ctx.queue
      → ctx'.pc_patch_start ≡ ctx.pc_patch_start
      → Extends P ctx ctx'
  Extends-same ctx ctx' m q s = record {
    grows = λ d h e. rw m e;
    keeps = λ a h. rw q h;
    fresh = λ d h e. inl (rw m at e);
    holds = λ a h. inl (rw q at h);
    start = s;
  }

  pub Extends-trans : {a b c : Ctx} → Extends P a b → Extends P b c → Extends P a c
  Extends-trans h k = record {
    grows = λ d l e. k.grows d l (h.grows d l e);
    keeps = λ x m. k.keeps x (h.keeps x m);
    fresh = λ d l e. elim (k.fresh d l e) [
      | inl old ↦ elim (h.fresh d l old) [
        | inl older ↦ inl older
        | inr (x, i, m) ↦ inr (x, i, k.keeps x m)
      ]
      | inr (x, i, m) ↦ inr (x, rw h.start at i, m)
    ];
    holds = λ x m. elim (k.holds x m) [ inl old ↦ h.holds x old | inr p ↦ inr p ];
    start = k.start ∙ h.start;
  }

  pub add_to_queue-Extends :
      (ctx : Ctx) (pc : ℕ)
      → IsMask ctx.seen_mask
      → (window_index ctx.pc_patch_start pc < 512 → P pc)
      → Extends P ctx (add_to_queue ctx pc)
  unfolding add_to_queue
  add_to_queue-Extends ctx pc valid p =
      let i = window_index ctx.pc_patch_start pc in
      elim (Bool-cases (leb max_insns i)) [
        | inl far ↦ rw far (Extends-same ctx ctx refl refl refl)
        | inr near ↦ elim (Bool-cases (is_seen ctx.seen_mask i)) [
          | inl old ↦ rw (near, old) (Extends-same ctx ctx refl refl refl)
          | inr new ↦
              let i-lt : i < 512 = ground arith in
              rw (near, new)
                (record {
                  grows = λ d l e. ground (arith, is_seen-mark_seen ctx.seen_mask valid i i-lt d l);
                  keeps = λ a m. inr m;
                  fresh = λ d l e. elim (ℕ_discrete i d) [
                    | yes same ↦ inr (pc, same, inl refl)
                    | no ne ↦ inl (is_seen-mark_other ctx.seen_mask valid i d i-lt l ne e)
                  ];
                  holds = λ a m. elim m [ inl e ↦ inr (rw e (p i-lt)) | inr old ↦ inl old ];
                  start = refl;
                })
        ]
      ]

  -- An address in the window is marked once it has been handed over.
  pub is_seen-add_to_queue :
      (ctx : Ctx) (pc : ℕ)
      → IsMask ctx.seen_mask
      → window_index ctx.pc_patch_start pc < 512
      → is_seen (add_to_queue ctx pc).seen_mask (window_index ctx.pc_patch_start pc) ≡ true
  unfolding add_to_queue
  is_seen-add_to_queue ctx pc valid h =
      let i = window_index ctx.pc_patch_start pc in
      let near : leb max_insns i ≡ false = ground arith in
      elim (Bool-cases (is_seen ctx.seen_mask i)) [
        | inl old ↦ rw (near, old) old
        | inr new ↦ rw (near, new) (is_seen-mark_seen ctx.seen_mask valid i h i h ∙ if_self i _)
      ]

  pub handle-Extends :
      (ctx : Ctx) (e : Arm64Event)
      → IsMask ctx.seen_mask
      → ((b : ℕ) → BranchTo e b → window_index ctx.pc_patch_start b < 512 → P b)
      → Extends P ctx (handle ctx e)
  unfolding handle
  handle-Extends ctx (branch dpc c) valid p = elim (Bool-cases (in_patch ctx dpc)) [
    | inl e ↦ rw e (Extends-same ctx _ refl refl refl)
    | inr e ↦
        let added = add_to_queue-Extends ctx dpc valid (p dpc refl) in
        rw e (Extends-trans added (Extends-same (add_to_queue ctx dpc) _ refl refl refl))
  ]
  handle-Extends ctx (pcrel dpc info) valid p =
      elim (Bool-cases (bit_and ctx.op 0x9f000000 == 0x90000000)) [
        | inl e ↦ rw e (Extends-same ctx _ refl refl refl)
        | inr e ↦ rw e (Extends-same ctx _ refl refl refl)
      ]
  handle-Extends ctx ret valid p = Extends-same ctx _ refl refl refl
  handle-Extends ctx indirect_call valid p = Extends-same ctx _ refl refl refl
  handle-Extends ctx unidentified valid p = Extends-same ctx _ refl refl refl
  handle-Extends ctx bad valid p = Extends-same ctx _ refl refl refl
