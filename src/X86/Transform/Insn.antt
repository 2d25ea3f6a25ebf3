-- ===== src/X86/Transform/Insn.antt =====
-- One instruction: what the calls of the disassembler and the copy put out together.
use mathlib.Core.Path.{◌∙◌, sym}
use substitute.Common.{
  ℕ, ◌+◌, ◌<◌, ◌≤◌, ◌≡◌, ◌⊎◌, inl, inr, refl, arith, List, [], ◌∷◌, true, false, some, length,
  Bool-cases, Option-cases, if◌then◌else◌, ◌==◌, u64,
}
use substitute.Dis.Event.{branch, indirect_call}
use substitute.TransformDis.Length.{length-overwrite}
use substitute.X86.Flags.{i_bad, i_jmp, i_jimm_only, i_call}
use substitute.X86.Decode.{
  Opcode, X86Event, Step, type_of, has, is_pcrel, opcode_from, imm_size, jump_imm, jump_cc, op_size,
  pcrel_event, events,
}
use substitute.X86.Decode.Step.{opcode, bad_opcode}
use substitute.X86.Decode.Total.{jump_flags}
use substitute.X86.Decode.Ends.{events-jump, imm_size-jump, jump_imm-some}
use substitute.X86.Newop.{bytes_from, newop, length-bytes_from}
use substitute.X86.Transform.{Ctx, copy_insn, on_event, on_events, here}
use substitute.X86.Transform.Handlers.{
  Placed, Handled, Ready, on_branch-Handled, pcrel_calls, plain_calls, plain_calls_Handled,
}

pub some_injective : {A : Type 0} {x y : A} → some x ≡ some y → x ≡ y
some_injective h = cc

module _ (read : ℕ → ℕ) (bytes : (a : ℕ) → read a < 256) (o : Opcode) where
  jump_op_size :
      0 < o.off
      → (imm_size read o ≡ 1) ⊎ ((imm_size read o ≡ 2) ⊎ (imm_size read o ≡ 4))
      → 2 ≤ op_size read o
  unfolding op_size substitute.X86.Decode.imm_off
  jump_op_size h imm = ground arith

  abbrev pcrel_list : ℕ → List X86Event
  pcrel_list pc =
      if has o.bits i_call
      then indirect_call ∷ pcrel_event read pc o ∷ []
      else pcrel_event read pc o ∷ []

  events-pcrel :
      (pc : ℕ)
      → has o.bits i_jimm_only ≡ false
      → is_pcrel read o ≡ true
      → events read pc o ≡ some (pcrel_list pc)
  unfolding events
  events-pcrel pc other at_pc = rw (other, events, at_pc) refl

  events-plain :
      (pc : ℕ)
      → has o.bits i_jimm_only ≡ false
      → is_pcrel read o ≡ false
      → events read pc o ≡ some (plain_calls read o)
  unfolding events
  events-plain pc other away = elim (Bool-cases (type_of o.bits == i_jmp)) [
    | inl e ↦ rw (other, events, away, e) refl
    | inr e ↦ elim (Bool-cases (has o.bits i_call)) [
      | inl f ↦ rw (other, events, away, e, f) refl
      | inr f ↦ rw (other, events, away, e, f) refl
    ]
  ]

  pub calls-Handled :
      (pc : ℕ) (ctx : Ctx) (calls : List X86Event)
      → Ready read o ctx
      → 0 < o.off
      → jump_flags o.bits ≡ true
      → (o.bits == i_bad) ≡ false
      → events read pc o ≡ some calls
      → Handled read o ctx (on_events ctx calls)
  unfolding on_events on_event
  calls-Handled pc ctx calls r pos flags good h = elim (Bool-cases (has o.bits i_jimm_only)) [
    | inl jumps ↦
        let size = imm_size-jump read bytes o flags good jumps in
        let (imm, e) = jump_imm-some read bytes o size in
        let call = branch (u64 (pc + op_size read o + imm)) (jump_cc read o) in
        let same : calls ≡ call ∷ [] =
          some_injective (sym h ∙ events-jump read bytes pc o jumps e) in
        rw same (on_branch-Handled read o ctx r _ _ (jump_op_size pos size) jumps size)
    | inr other ↦ elim (Bool-cases (is_pcrel read o)) [
      | inl at_pc ↦
          let same : calls ≡ pcrel_list pc = some_injective (sym h ∙ events-pcrel pc other at_pc) in
          rw same (pcrel_calls read o ctx r pc other at_pc)
      | inr away ↦
          let same : calls ≡ plain_calls read o =
            some_injective (sym h ∙ events-plain pc other away) in
          rw same (plain_calls_Handled read o ctx r)
    ]
  ]

  -- The instruction puts out between one byte and 16 bytes beside itself.
  pub length-copy_insn :
      (before after : Ctx)
      → Handled read o before after
      → before.insn_size ≡ op_size read o
      → 0 < op_size read o
      → (length before.rewritten < length (copy_insn read o after).rewritten)
        × (length (copy_insn read o after).rewritten
            ≤ length before.rewritten + op_size read o + 16)
  unfolding copy_insn Placed
  length-copy_insn before after h size pos = elim h.put_out [
    | inl (here, plain, same) ↦
        let out =
          length-overwrite after.rewritten (bytes_from read 0 after.insn_size)
            (length before.rewritten) (omega arith) in
        rw (here, plain) (omega (arith, out, h.sized, length-bytes_from read 0 after.insn_size))
    | inr (inl (none_left, grown)) ↦ rw none_left (omega (arith, grown), omega (arith, grown))
    | inr (inr (at, here, modified, fits, grown)) ↦
        let out =
          length-overwrite after.rewritten (newop read o after.newval_0 after.newval_1) at
            (omega arith) in
        rw (here, modified) (omega (arith, out, grown), omega (arith, out, grown))
  ]

  pub copy_insn-frame :
      (ctx : Ctx)
      → ((copy_insn read o ctx).pc ≡ ctx.pc)
        × ((copy_insn read o ctx).pc_patch_start ≡ ctx.pc_patch_start)
        × ((copy_insn read o ctx).pc_patch_end ≡ ctx.pc_patch_end)
        × ((copy_insn read o ctx).insn_size ≡ ctx.insn_size)
  unfolding copy_insn
  copy_insn-frame ctx = elim (Option-cases ctx.write_newop_here) [
    | inl e ↦ rw e (refl, refl, refl, refl)
    | inr (at, e) ↦ rw e (refl, refl, refl, refl)
  ]
