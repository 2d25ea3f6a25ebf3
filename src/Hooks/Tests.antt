-- ===== src/Hooks/Tests.antt =====
-- A hook of two instructions, and a system that gives the page that was asked for.
use substitute.Common.{
  ℕ, ◌+◌, ◌++◌, Bool, true, false, ◌≡◌, inl, refl, arith, List, [], ◌∷◌, Option, none, some, suc,
}
use substitute.Dis.{op32}
use substitute.Arm64.Tree.{find_insn}
use substitute.Arm64.Decode.{dis}
use substitute.TransformDis.{
  Rewritten, transform_dis_main, rewrite, begin, dis_insn, begin_insn, on_event, pass_insn,
  copy_insn, overwrite, mark_written, add_offset,
}
use substitute.TransformDis.Result.{done}
use substitute.Hooks.{HookInternal, Moved, pc_callback, check_intro_trampoline}
use substitute.Hooks.Loop.{Hook, ForeignWrite, substitute_hook_functions}
use substitute.Hooks.Loop.Commit.{InSpace, AllOrNone, substitute_hook_functions-AllOrNone}
use substitute.Hooks.Callback.{IsHooked, InPatch, pc_callback-InPatch}
use substitute.Hooks.Reach.{Settled, check_intro_trampoline-Settled}

-- Two `nop`s, which are copied.
abbrev nops : ℕ → ℕ
nops a = 0xd503201f

abbrev table : List (Option ℕ)
table = some 0 ∷ none ∷ none ∷ none ∷ some 4 ∷ none ∷ none ∷ none ∷ some 8 ∷ []

abbrev two_nops : Rewritten
two_nops = record {
  code = 0x1f ∷ 0x20 ∷ 0x03 ∷ 0xd5 ∷ 0x1f ∷ 0x20 ∷ 0x03 ∷ 0xd5 ∷ [];
  pc_patch_end = 0x1008;
  regs = 0x80000108;
  offsets = table;
}

abbrev hooked : HookInternal
hooked = record {
  offset_by_pcdiff = table;
  jump_patch = [];
  jump_patch_size = 8;
  code = 0x1000;
  outro_trampoline = 0x8000;
  trampoline_page = 0x8000;
}

nops-done : transform_dis_main nops 0x8000 0x1000 0x1008 0 true ≡ done two_nops
unfolding transform_dis_main rewrite begin dis_insn dis find_insn begin_insn on_event pass_insn
    copy_insn overwrite mark_written add_offset op32
nops-done = refl

hooked-IsHooked : IsHooked hooked
hooked-IsHooked = record {
  read = nops;
  words = λ a. omega arith;
  stop = 0x1008;
  top = omega arith;
  regs = 0;
  ban_calls = true;
  rewritten = two_nops;
  rewrites = nops-done;
  table = refl;
  covered = omega arith;
}

pc_callback-InPatch_example :
    (h : IsHooked hooked) × InPatch hooked h 0x1004 (pc_callback (hooked ∷ []) 0x1004)
pc_callback-InPatch_example =
    pc_callback-InPatch (hooked ∷ []) hooked 0x1004 (hooked-IsHooked, tt) (inl (refl, refl))

abbrev gives : ℕ → ℕ → ℕ × Option ℕ
gives calls hint = (suc calls, some 0x100000000)

abbrev takes_back : ℕ → ℕ → ℕ
takes_back calls page = calls

check_intro_trampoline-Settled_example :
    Settled gives takes_back 0x4000 0x100004000 0x700000000
      (check_intro_trampoline gives takes_back 0x4000 0 0 0 0x100004000 0x700000000)
check_intro_trampoline-Settled_example =
    check_intro_trampoline-Settled gives takes_back 0x4000 0 0 0 0x100004000 0x700000000

-- A system with the next page to give and the writes that have been made to functions.
abbrev System : Type 0
System = ℕ × List ForeignWrite

abbrev system_mmap : System → ℕ → System × Option ℕ
system_mmap (next, writes) hint = ((next + 0x4000, writes), some next)

abbrev system_write : System → List ForeignWrite → Option (ℕ → Moved) → System × ℕ × Bool
system_write (next, writes) more callback = ((next, writes ++ more), 0, false)

abbrev Unwritten : System → Type 0
Unwritten (next, writes) = writes ≡ []

-- `nop`s everywhere, and one hook.
abbrev one_hook : List Hook
one_hook = record { function = 0x10000; replacement = 0x20000; wants_old = true } ∷ []

one_hook-InSpace : InSpace one_hook
unfolding InSpace
one_hook-InSpace = (omega arith, tt)

substitute_hook_functions-AllOrNone_example :
    AllOrNone system_mmap
      (λ w page. w)
      0x4000
      nops
      true
      (λ a. omega arith)
      Unwritten
      (λ w hint k. k)
      (λ w page k. k)
      (λ w page. w)
      system_write
      (0x100000, [])
      one_hook
      (substitute_hook_functions system_mmap
        (λ w page. w)
        0x4000
        nops
        true
        (λ w page. w)
        system_write
        true
        true
        (0x100000, [])
        one_hook)
substitute_hook_functions-AllOrNone_example =
    substitute_hook_functions-AllOrNone system_mmap (λ w page. w) 0x4000 nops true
      (λ a. omega arith) Unwritten (λ w hint k. k) (λ w page k. k) (λ w page. w) system_write true
      true (0x100000, []) one_hook one_hook-InSpace refl
