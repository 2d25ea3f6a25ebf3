-- ===== src/X86/Decode/Ends.antt =====
-- The disassembler comes to an end behind the prefixes, and never to an abort.
use mathlib.Core.Path.{◌∙◌, sym}
use substitute.Common.{
  ℕ, zero, suc, ◌+◌, ◌<◌, ◌≤◌, ◌≡◌, ◌≢◌, ◌⊎◌, inl, inr, refl, arith, List, [], ◌∷◌, Bool, true,
  false, Option, some, if◌then◌else◌, ◌==◌, bit_and, ◌*◌, u64, ==_ne, Bool-cases,
}
use substitute.Dis.Event.{branch}
use substitute.X86.Flags.{i_8, i_imm_mask, i_pfx, i_jmp, i_jimm_only, i_bad, i_call}
use substitute.X86.Onebyte.{onebyte_bits}
use substitute.X86.Decode.{
  Opcode, Step, X86Event, type_of, has, step, opcode_from, imm_off, signed_8, signed_16, signed_32,
  read_32, jump_cc, is_pcrel, imm_size, jump_imm, events, op_size, dis,
}
use substitute.X86.Decode.Step.{restart, opcode, bad_opcode, aborted}
use substitute.X86.Decode.Dis.{decoded, bad_insn}
use substitute.X86.Decode.Total.{jump_flags, IsRight, step-IsRight, true-ne_false}

module _ (read : ℕ → ℕ) (bytes : (a : ℕ) → read a < 256) where
  opcode_from-next :
      (fuel off opnd_size rm off' opnd_size' rm' : ℕ)
      → step read off opnd_size rm ≡ restart off' opnd_size' rm'
      → opcode_from read (suc fuel) off opnd_size rm ≡ opcode_from read fuel off' opnd_size' rm'
  unfolding opcode_from
  opcode_from-next fuel off opnd_size rm off' opnd_size' rm' h = rw (h, opcode_from) refl

  opcode_from-opcode :
      (fuel off opnd_size rm : ℕ) (o : Opcode)
      → step read off opnd_size rm ≡ opcode o
      → opcode_from read (suc fuel) off opnd_size rm ≡ some (opcode o)
  unfolding opcode_from
  opcode_from-opcode fuel off opnd_size rm o h = rw (h, opcode_from) refl

  opcode_from-bad :
      (fuel off opnd_size rm : ℕ)
      → step read off opnd_size rm ≡ bad_opcode
      → opcode_from read (suc fuel) off opnd_size rm ≡ some bad_opcode
  unfolding opcode_from
  opcode_from-bad fuel off opnd_size rm h = rw (h, opcode_from) refl

  -- Where the prefixes end, an opcode with flags of the tables stands, or a bad one.
  abbrev pub Found : ℕ → ℕ → ℕ → ℕ → Type 0
  Found fuel off opnd_size rm =
      (opcode_from read fuel off opnd_size rm ≡ some bad_opcode)
      ⊎ ((o : Opcode) × (opcode_from read fuel off opnd_size rm ≡ some (opcode o))
          × (jump_flags o.bits ≡ true)
          × ((o.bits == i_bad) ≡ false)
          × (off < o.off)
          × (o.off ≤ off + fuel + 3)
          × (o.opnd_size ≤ 8))

  Found-next :
      (fuel off opnd_size rm off' opnd_size' rm' : ℕ)
      → step read off opnd_size rm ≡ restart off' opnd_size' rm'
      → off' ≡ off + 1
      → Found fuel off' opnd_size' rm'
      → Found (suc fuel) off opnd_size rm
  Found-next fuel off opnd_size rm off' opnd_size' rm' h n (inl f) =
      inl (opcode_from-next fuel off opnd_size rm off' opnd_size' rm' h ∙ f)
  Found-next fuel off opnd_size rm off' opnd_size' rm' h n
        (inr (o, f, flags, good, lo, hi, sized)) =
      inr (
        o,
        opcode_from-next fuel off opnd_size rm off' opnd_size' rm' h ∙ f,
        flags,
        good,
        omega arith,
        omega arith,
        sized,
      )

  Found-step :
      (fuel off opnd_size rm k : ℕ) (s : Step)
      → step read off opnd_size rm ≡ s
      → IsRight (type_of (onebyte_bits (read off)) == i_pfx) (off + 1) s
      → k < suc fuel
      → (type_of (onebyte_bits (read (off + k))) == i_pfx) ≡ false
      → ((off' opnd_size' rm' j : ℕ)
          → opnd_size' ≤ 8
          → j < fuel
          → (type_of (onebyte_bits (read (off' + j))) == i_pfx) ≡ false
          → Found fuel off' opnd_size' rm')
      → Found (suc fuel) off opnd_size rm
  unfolding IsRight
  Found-step fuel off opnd_size rm k bad_opcode h r lt e more =
      inl (opcode_from-bad fuel off opnd_size rm h)
  Found-step fuel off opnd_size rm k aborted h r lt e more = absurd r
  Found-step fuel off opnd_size rm k (opcode o) h (flags, good, lo, hi, sized) lt e more = inr (
    o,
    opcode_from-opcode fuel off opnd_size rm o h,
    flags,
    good,
    omega arith,
    omega arith,
    sized,
  )
  Found-step fuel off opnd_size rm zero (restart off' opnd_size' rm') h (p, n, sized) lt e more =
      let same : off + 0 ≡ off = omega arith in
      let e' = rw same at e in absurd (true-ne_false (sym p ∙ e'))
  Found-step fuel off opnd_size rm (suc k) (restart off' opnd_size' rm') h (p, n, sized) lt e more =
      let same : off + suc k ≡ off' + k = omega arith in
      Found-next fuel off opnd_size rm off' opnd_size' rm' h n
        (more off' opnd_size' rm' k sized (omega arith) (rw same at e))

  pub opcode_from-Found :
      (fuel off opnd_size rm k : ℕ)
      → opnd_size ≤ 8
      → k < fuel
      → (type_of (onebyte_bits (read (off + k))) == i_pfx) ≡ false
      → Found fuel off opnd_size rm
  opcode_from-Found zero off opnd_size rm k small h e = elim h [ ]
  opcode_from-Found (suc fuel) off opnd_size rm k small h e =
      Found-step fuel off opnd_size rm k (step read off opnd_size rm) refl
        (step-IsRight read bytes off opnd_size rm small) h e (opcode_from-Found fuel)

  pub imm_size-jump :
      (o : Opcode)
      → jump_flags o.bits ≡ true
      → (o.bits == i_bad) ≡ false
      → has o.bits i_jimm_only ≡ true
      → (imm_size read o ≡ 1) ⊎ ((imm_size read o ≡ 2) ⊎ (imm_size read o ≡ 4))
  unfolding imm_size
  imm_size-jump o f g h = elim (Bool-cases (bit_and o.bits i_imm_mask == i_8)) [
    | inl e ↦ inl (ground arith)
    | inr e ↦ elim (Bool-cases (o.opnd_size == 2)) [
      | inl two ↦ inr (inl (ground arith))
      | inr other ↦ inr (inr (ground arith))
    ]
  ]

  pub jump_imm-some :
      (o : Opcode)
      → (imm_size read o ≡ 1) ⊎ ((imm_size read o ≡ 2) ⊎ (imm_size read o ≡ 4))
      → (imm : ℕ) × (jump_imm read o ≡ some imm)
  unfolding jump_imm
  jump_imm-some o (inl e) = (signed_8 read (read (imm_off read o)), rw e refl)
  jump_imm-some o (inr (inl e)) =
      let at = imm_off read o in (signed_16 read (read at + read (at + 1) * 256), rw e refl)
  jump_imm-some o (inr (inr e)) = (signed_32 read (read_32 read (imm_off read o)), rw e refl)

  pub events-jump :
      (pc : ℕ) (o : Opcode) {imm : ℕ}
      → has o.bits i_jimm_only ≡ true
      → jump_imm read o ≡ some imm
      → events read pc o ≡ some (branch (u64 (pc + op_size read o + imm)) (jump_cc read o) ∷ [])
  unfolding events
  events-jump pc o h e = rw (h, events, e) refl

  abbrev Calls : Option (List X86Event) → Type 0
  Calls r = (calls : List X86Event) × (r ≡ some calls)

  if_Calls :
      (b : Bool) (s t : Option (List X86Event)) → Calls s → Calls t → Calls (if b then s else t)
  if_Calls true s t h k = h
  if_Calls false s t h k = k

  pub events-some :
      (pc : ℕ) (o : Opcode)
      → jump_flags o.bits ≡ true
      → (o.bits == i_bad) ≡ false
      → Calls (events read pc o)
  unfolding events
  events-some pc o f g = elim (Bool-cases (has o.bits i_jimm_only)) [
    | inl jumps ↦
        let (imm, e) = jump_imm-some o (imm_size-jump o f g jumps) in (_, events-jump pc o jumps e)
    | inr other ↦ rw other (
        if_Calls (is_pcrel read o) _ _ (_, refl)
          (if_Calls (type_of o.bits == i_jmp) _ _ (_, refl)
            (if_Calls (has o.bits i_call) _ _ (_, refl) (_, refl))))
  ]

  dis-bad :
      (fuel pc : ℕ) → opcode_from read fuel 0 4 0 ≡ some bad_opcode → dis read fuel pc ≡ bad_insn
  unfolding dis
  dis-bad fuel pc h = rw (h, dis) refl

  pub dis-decoded :
      (fuel pc : ℕ) (o : Opcode) {calls : List X86Event}
      → opcode_from read fuel 0 4 0 ≡ some (opcode o)
      → events read pc o ≡ some calls
      → dis read fuel pc ≡ decoded (op_size read o) calls
  unfolding dis
  dis-decoded fuel pc o h e = rw (h, dis, e) refl

  -- Where one of the first bytes of the code, as many as the fuel, is no prefix, the disassembler
  -- decodes an instruction or calls it bad. It never aborts.
  pub dis-decodes :
      (fuel pc k : ℕ)
      → k < fuel
      → type_of (onebyte_bits (read k)) ≢ i_pfx
      → (dis read fuel pc ≡ bad_insn)
        ⊎ ((size : ℕ) × ((calls : List X86Event) × (dis read fuel pc ≡ decoded size calls)))
  dis-decodes fuel pc k h ne =
      let at : 0 + k ≡ k = omega arith in
      elim (opcode_from-Found fuel 0 4 0 k (omega arith) h (rw at (==_ne _ _ ne))) [
        | inl e ↦ inl (dis-bad fuel pc e)
        | inr (o, e, f, g, _, _, _) ↦
            let (calls, c) = events-some pc o f g in
            inr (op_size read o, (calls, dis-decoded fuel pc o e c))
      ]
