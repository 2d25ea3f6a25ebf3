-- ===== src/X86/Transform/Passes.antt =====
-- One round of the loop of lib/transform-dis.c on x86-64.
use mathlib.Core.Path.{◌∙◌}
use substitute.Common.{
  ℕ, ◌+◌, ◌<◌, ◌≤◌, ◌≡◌, ◌≢◌, ◌⊎◌, inl, inr, refl, arith, List, true, false, some, length,
  Bool-cases, ◌==◌, ==_ne, u64,
}
use substitute.X86.Flags.{i_bad, i_pfx}
use substitute.X86.Onebyte.{onebyte_bits}
use substitute.X86.Decode.{Opcode, X86Event, type_of, opcode_from, op_size, events}
use substitute.X86.Decode.Step.{opcode, bad_opcode}
use substitute.X86.Decode.Total.{jump_flags}
use substitute.X86.Decode.Ends.{opcode_from-Found, events-some}
use substitute.X86.Transform.{Ctx, copy_insn, on_events, here, begin_insn, finish_insn, round}
use substitute.X86.Transform.Result.{failed}
use substitute.X86.Transform.Round.{go_on, halt}
use substitute.X86.Transform.Place.{op_size_bounds}
use substitute.X86.Transform.Handlers.{Ready}
use substitute.X86.Transform.Insn.{calls-Handled, length-copy_insn, copy_insn-frame}

module _ (read : ℕ → ℕ) (bytes : (a : ℕ) → read a < 256) (pc_trampoline prefixes : ℕ) where
  -- One round fails, or goes on behind the instruction with more code.
  abbrev pub Passes : Ctx → Type 0
  Passes ctx =
      ((e : ℕ) × (round read pc_trampoline prefixes ctx ≡ halt (failed e)) × (1 ≤ e) × (e ≤ 3))
      ⊎ ((after : Ctx) × (size : ℕ) × (round read pc_trampoline prefixes ctx ≡ go_on after)
          × (0 < size)
          × (size ≤ prefixes + 17)
          × (after.pc ≡ u64 (ctx.pc + size))
          × (after.pc_patch_start ≡ ctx.pc_patch_start)
          × (after.pc_patch_end ≡ ctx.pc_patch_end)
          × (length ctx.rewritten < length after.rewritten)
          × (length after.rewritten ≤ length ctx.rewritten + size + 16))

  module _ (ctx : Ctx) where
    round-bad :
        opcode_from (here read pc_trampoline prefixes ctx) prefixes 0 4 0 ≡ some bad_opcode
        → round read pc_trampoline prefixes ctx ≡ halt (failed 2)
    unfolding round
    round-bad h = rw (h, round) refl

    round-decoded :
        (o : Opcode) (calls : List X86Event)
        → opcode_from (here read pc_trampoline prefixes ctx) prefixes 0 4 0 ≡ some (opcode o)
        → events (here read pc_trampoline prefixes ctx) ctx.pc o ≡ some calls
        → round read pc_trampoline prefixes ctx
          ≡ finish_insn read pc_trampoline prefixes ctx o (
              on_events
                (begin_insn read pc_trampoline prefixes ctx
                  (op_size (here read pc_trampoline prefixes ctx) o))
                calls)
    unfolding round
    round-decoded o calls h e = rw (h, round, e) refl

    finish_insn-failed :
        (o : Opcode) (seen : Ctx)
        → (seen.err == 0) ≡ false
        → finish_insn read pc_trampoline prefixes ctx o seen ≡ halt (failed seen.err)
    unfolding finish_insn
    finish_insn-failed o seen h = rw (h, finish_insn) refl

    abbrev passed : Opcode → Ctx → Ctx
    passed o seen =
        let copied = copy_insn (here read pc_trampoline prefixes ctx) o seen in
        record copied { pc = u64 (copied.pc + copied.insn_size) }

    finish_insn-passed :
        (o : Opcode) (seen : Ctx)
        → (seen.err == 0) ≡ true
        → finish_insn read pc_trampoline prefixes ctx o seen ≡ go_on (passed o seen)
    unfolding finish_insn
    finish_insn-passed o seen h = rw (h, finish_insn) refl

    begin_insn-Ready :
        (o : Opcode)
        → Ready (here read pc_trampoline prefixes ctx) o (
            begin_insn read pc_trampoline prefixes ctx
              (op_size (here read pc_trampoline prefixes ctx) o))
    unfolding begin_insn
    begin_insn-Ready o = record {
      no_error = omega arith;
      of_size = refl;
      unmodified = refl;
      place = refl;
    }

    -- From the opcode on.
    decoded-Passes :
        (o : Opcode)
        → opcode_from (here read pc_trampoline prefixes ctx) prefixes 0 4 0 ≡ some (opcode o)
        → jump_flags o.bits ≡ true
        → (o.bits == i_bad) ≡ false
        → 0 < o.off
        → o.off ≤ prefixes + 3
        → o.opnd_size ≤ 8
        → Passes ctx
    unfolding begin_insn
    decoded-Passes o found flags good lo hi sized =
        let code = here read pc_trampoline prefixes ctx in
        let (calls, e) = events-some code (λ a. bytes _) ctx.pc o flags good in
        let entered = begin_insn read pc_trampoline prefixes ctx (op_size code o) in
        let seen = on_events entered calls in
        let k =
          calls-Handled code (λ a. bytes _) o ctx.pc entered calls (begin_insn-Ready o) lo flags
            good e in
        let decoded = round-decoded o calls found e in
        elim (Bool-cases (seen.err == 0)) [
          | inr wrong ↦
              inl (seen.err, decoded ∙ finish_insn-failed o seen wrong, ground arith, k.error)
          | inl right ↦
              let (size_lo, size_hi) = op_size_bounds code o sized in
              let (same_pc, same_start, same_stop, same_size) =
                copy_insn-frame code (λ a. bytes _) o seen in
              let (more, less) =
                length-copy_insn code (λ a. bytes _) o entered seen k refl (omega arith) in
              inr (
                passed o seen,
                op_size code o,
                decoded ∙ finish_insn-passed o seen right,
                omega arith,
                omega arith,
                rw (same_pc, same_size, k.at_pc, k.sized) refl,
                same_start ∙ k.start,
                same_stop ∙ k.stop,
                more,
                less,
              )
        ]

    pub round-Passes :
        (n : ℕ)
        → n < prefixes
        → type_of (onebyte_bits (here read pc_trampoline prefixes ctx n)) ≢ i_pfx
        → Passes ctx
    round-Passes n small ne =
        let code = here read pc_trampoline prefixes ctx in
        let at : 0 + n ≡ n = omega arith in
        elim (opcode_from-Found code (λ a. bytes _) prefixes 0 4 0 n (omega arith) small
          (rw at (==_ne _ _ ne))) [
            | inl wrong ↦ inl (2, round-bad wrong, omega arith, omega arith)
            | inr (o, found, flags, good, lo, hi, sized) ↦
                decoded-Passes o found flags good lo (omega arith) sized
          ]
