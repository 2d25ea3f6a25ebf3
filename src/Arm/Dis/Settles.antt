-- ===== src/Arm/Dis/Settles.antt =====
-- How the disassembler of ARM and Thumb code ends, for any bytes.
use substitute.Common.{
  ℕ, ◌/◌, ◌%◌, ◌^◌, ◌<◌, ◌≡◌, ◌≢◌, ◌⊎◌, inl, inr, refl, ap, ◌∙◌, sym, arith, Bool, true, false,
  ◌&&◌, List, [], ◌∷◌, length, bit_and, ◌==◌, ◌>>>◌, Bool-cases,
}
use mathlib.Core.Path.{subst}
use substitute.Common.Bits.{bit_and_field, bit_and_mask}
use substitute.Arm.Context.{
  DisCtx, Outcome, done, aborts, overruns, unaligned_r16, unaligned_r32, advance_conds,
  advance_it_cond,
}
use substitute.Arm.Switch.Check.{apart-read, forced-read}
use substitute.Arm.Dis.Thumb.Insn.{ThumbInsn}
use substitute.Arm.Dis.Thumb2.Insn.{Thumb2Insn}
use substitute.Arm.Dis.It.{ItSettled, t2_it-ItSettled}
use substitute.Arm.Dis.Ends.{thumb_ok, thumb2_ok, arm-Finds, thumb-Finds, thumb2-Finds, find-it}
use substitute.Arm.Dis.ArmMode as ArmMode
use substitute.Arm.Dis.Thumb as Thumb
use substitute.Arm.Dis.Thumb.{ctz, it_round, it_loop, mark_block, it_done, it_block, t2_it}
use substitute.Arm.Dis.Thumb2 as Thumb2
use substitute.Arm.Dis.Thumb2.Handlers.{flip16}
use substitute.Arm.Dis.{dis, is_32}
use substitute.Arm.Dis.Modes.{
  IsBytes, flip16_lem, r16_fits, r32_fits, dis-arm_mode, dis-thumb_mode, dis-thumb2_mode,
}

-- An IT instruction whose block is of four.
abbrev pub long_it_word : ℕ → Bool
long_it_word op = (op / 2 ^ 8 == 0xbf) && (op % 2 == 1)

abbrev pub is_long_it : DisCtx → Bool
is_long_it ctx = ctx.arch.pc_low_bit && long_it_word (unaligned_r16 ctx.code)

abbrev pub Settled : Bool → Outcome → Type 0
Settled long (done call c) =
    (long ≡ false)
    × (length c.arch.it_conds ≡ 5)
    × ((c.op_size ≡ 2) ⊎ (c.op_size ≡ 4))
    × (c.newop_size ≡ c.op_size)
Settled long aborts = ⊥
Settled long overruns = long ≡ true

length-advance : (cs : List ℕ) → length cs ≡ 5 → length (advance_conds cs) ≡ 5
unfolding advance_conds
length-advance (a ∷ b ∷ c ∷ d ∷ e ∷ []) h = refl
length-advance cs h = h

-- Every handler of Thumb-2 calls the pass in the context it is given.
abbrev Keeps : DisCtx → Outcome → Type 0
Keeps c (done call c') = c' ≡ c
Keeps c _ = ⊥

mode_field : (op : ℕ) → op < 2 ^ 32 → bit_and (flip16 op >>> 5) 3 ≡ op / 2 ^ 21 % 4
mode_field op h = bit_and_mask 2 (flip16 op >>> 5) ∙ omega (arith, flip16_lem op h)

mode_not_3 : (op : ℕ) → bit_and op 0x600000 ≢ 0x600000 → op / 2 ^ 21 % 4 < 3
mode_not_3 op h = ground (arith, bit_and_field 21 2 op)

thumb2-Keeps :
    (i : Thumb2Insn) (mask : ℕ) (c : DisCtx)
    → c.op < 2 ^ 32
    → thumb2_ok i mask (bit_and c.op mask) ≡ true
    → Keeps c (Thumb2.handle i c)
unfolding thumb2_ok Thumb2.handle
thumb2-Keeps Thumb2Insn.t2_ldrbpci mask c fits h =
    let low = mode_not_3 c.op (apart-read c.op mask _ 0x600000 0x600000 refl h) in
    ground (arith, mode_field c.op fits)
thumb2-Keeps _ mask c fits h = refl

thumb-Keeps :
    (i : ThumbInsn) (mask : ℕ) (c : DisCtx)
    → c.op < 2 ^ 16
    → c.op / 2 ^ 8 ≢ 0xbf
    → thumb_ok i mask (bit_and c.op mask) ≡ true
    → Keeps c (Thumb.handle i c)
unfolding thumb_ok Thumb.handle
thumb-Keeps ThumbInsn.t2_it mask c fits n h =
    let read = forced-read c.op mask _ 0xffffff00 0xbf00 refl h in
    absurd (n (omega (arith, bit_and_field 8 24 c.op)))
thumb-Keeps _ mask c fits n h = refl

flip16_fits : (code : ℕ → ℕ) → IsBytes code → flip16 (unaligned_r32 code) < 2 ^ 32
flip16_fits code h =
    let fits = r32_fits code h in omega (arith, flip16_lem (unaligned_r32 code) fits)

it_masked : (op : ℕ) → op < 2 ^ 16 → (op / 2 ^ 8 == 0xbf) ≡ true → bit_and op 0xffffff00 ≡ 0xbf00
it_masked op fits h = ground (arith, bit_and_field 8 24 op)

settle : {b b' : Bool} {o o' : Outcome} → b ≡ b' → o ≡ o' → Settled b' o' → Settled b o
settle {b' = b'} {o = o} e f h =
    subst (λ t. Settled t o) (sym e) (subst (λ t. Settled b' t) (sym f) h)

not_long_32 : (ctx : DisCtx) → is_32 (unaligned_r16 ctx.code) ≡ true → is_long_it ctx ≡ false
unfolding is_32
not_long_32 ctx wide = ground (arith, bit_and_mask 3 (unaligned_r16 ctx.code >>> 13))

module _ (ctx : DisCtx) (five : length ctx.arch.it_conds ≡ 5) where
  arm_mode : ctx.arch.pc_low_bit ≡ false → Settled (is_long_it ctx) (ArmMode.dis_arm ctx)
  unfolding ArmMode.dis_arm
  arm_mode arm =
      let op = unaligned_r32 ctx.code in
      let c = record ctx { op = op; op_size = 4; newop_size = 4 } in
      let f = arm-Finds op in
      subst (λ o. Settled (is_long_it ctx) (ArmMode.call_insn o c)) (sym f.found)
        (ground arith, five, inr refl, refl)

  thumb_halfword : DisCtx
  thumb_halfword = record ctx { op = unaligned_r16 ctx.code; op_size = 2; newop_size = 2 }

  advanced-Settled :
      (o : Outcome)
      → ItSettled thumb_halfword o
      → Settled (unaligned_r16 ctx.code % 2 == 1) (Thumb.advanced o)
  unfolding thumb_halfword Thumb.advanced advance_it_cond
  advanced-Settled (done call c) (even, l, s, n) =
      (ground arith, length-advance c.arch.it_conds l, inl s, n ∙ sym s)
  advanced-Settled aborts h = absurd h
  advanced-Settled overruns h = ground arith

  advanced-Keeps : (o : Outcome) → Keeps thumb_halfword o → Settled false (Thumb.advanced o)
  unfolding thumb_halfword Thumb.advanced advance_it_cond
  advanced-Keeps (done call c) e = (
    refl,
    length-advance c.arch.it_conds (ap (λ (t : DisCtx). length t.arch.it_conds) e ∙ five),
    inl (ap (λ (t : DisCtx). t.op_size) e),
    ap (λ (t : DisCtx). t.newop_size) e ∙ sym (ap (λ (t : DisCtx). t.op_size) e),
  )
  advanced-Keeps aborts h = absurd h
  advanced-Keeps overruns h = absurd h

  thumb_mode :
      IsBytes ctx.code → Settled (long_it_word (unaligned_r16 ctx.code)) (Thumb.dis_thumb ctx)
  unfolding Thumb.dis_thumb Thumb.thumb_do_it thumb_halfword
  thumb_mode bytes =
      let op = unaligned_r16 ctx.code in
      let c = thumb_halfword in
      elim (Bool-cases (op / 2 ^ 8 == 0xbf)) [
        | inl it ↦ rw it (
            subst (λ o. Settled (op % 2 == 1) (Thumb.advanced (Thumb.call_insn o c)))
              (sym (find-it op (it_masked op (r16_fits ctx.code bytes) it)))
              (advanced-Settled (Thumb.handle ThumbInsn.t2_it c) (t2_it-ItSettled c five)))
        | inr not_it ↦
            let f = thumb-Finds op in
            rw not_it (
              subst (λ o. Settled false (Thumb.advanced (Thumb.call_insn o c))) (sym f.found)
                (advanced-Keeps (Thumb.handle f.insn c)
                  (thumb-Keeps f.insn f.mask c (r16_fits ctx.code bytes) (ground arith) f.checked)))
      ]

  flipped-Keeps :
      (c : DisCtx) (o : Outcome)
      → length c.arch.it_conds ≡ 5
      → c.op_size ≡ 4
      → c.newop_size ≡ 4
      → Keeps c o
      → Settled false (Thumb2.flipped o)
  unfolding Thumb2.flipped advance_it_cond
  flipped-Keeps c (done call c') l s n e = (
    refl,
    length-advance c'.arch.it_conds (ap (λ (t : DisCtx). length t.arch.it_conds) e ∙ l),
    inr (ap (λ (t : DisCtx). t.op_size) e ∙ s),
    ap (λ (t : DisCtx). t.newop_size) e ∙ n ∙ sym s ∙ sym (ap (λ (t : DisCtx). t.op_size) e),
  )
  flipped-Keeps c aborts l s n h = absurd h
  flipped-Keeps c overruns l s n h = absurd h

  thumb2_mode : IsBytes ctx.code → Settled false (Thumb2.dis_thumb2 ctx)
  unfolding Thumb2.dis_thumb2 Thumb2.thumb2_do_it
  thumb2_mode bytes =
      let op = flip16 (unaligned_r32 ctx.code) in
      let c = record ctx { op = op; op_size = 4; newop_size = 4 } in
      let f = thumb2-Finds op in
      subst (λ o. Settled false (Thumb2.flipped (Thumb2.call_insn o c))) (sym f.found)
        (flipped-Keeps c (Thumb2.handle f.insn c) five refl refl
          (thumb2-Keeps f.insn f.mask c (flip16_fits ctx.code bytes) f.checked))

  -- From code of bytes, with an array of five conditions, the disassembler never aborts. It calls
  -- the pass for an instruction of two or four bytes and leaves five conditions, unless it is in
  -- Thumb mode at an IT instruction for a block of four: exactly then it writes behind the array.
  pub dis-Settled : IsBytes ctx.code → Settled (is_long_it ctx) (dis ctx)
  dis-Settled bytes = elim (Bool-cases ctx.arch.pc_low_bit) [
    | inl thumb ↦ elim (Bool-cases (is_32 (unaligned_r16 ctx.code))) [
      | inl wide ↦
          settle (not_long_32 ctx wide) (dis-thumb2_mode ctx thumb wide) (thumb2_mode bytes)
      | inr narrow ↦
          settle (ap (λ b. b && long_it_word (unaligned_r16 ctx.code)) thumb)
            (dis-thumb_mode ctx thumb narrow) (thumb_mode bytes)
    ]
    | inr arm ↦ settle refl (dis-arm_mode ctx arm) (arm_mode arm)
  ]
