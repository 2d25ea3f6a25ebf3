-- ===== src/X86/Transform/Handlers.antt =====
-- What each handler of lib/x86/arch-transform-dis.inc.h puts out, and where it leaves a place.
use substitute.Common.{
  ℕ, zero, suc, ◌+◌, ◌-◌, ◌^◌, ◌≤◌, ◌≡◌, ◌⊎◌, inl, inr, refl, arith, List, [], ◌∷◌, ◌++◌, Bool,
  true, false, not, ◌&&◌, none, some, if◌then◌else◌, ◌==◌, ltb, leb, bit_and, length, length-append,
  replicate, u32, u64, sub64, Bool-cases,
}
use substitute.Dis.{op8, op32, op64, cc_conditional, cc_call}
use substitute.Dis.Event.{ret, indirect_call, unidentified}
use substitute.X86.Flags.{i_jimm_only, i_jmp, i_call}
use substitute.X86.JumpPatch.{jump_patch_size, make_jmp_or_call, make_jump_patch, fits_32}
use substitute.X86.Decode.{
  Opcode, X86Event, PcrelInfo, has, type_of, imm_size, op_size, is_pcrel, pcrel_event,
}
use substitute.X86.Newop.{newop}
use substitute.X86.Transform.{
  Ctx, push_mov_head, push_mov_tail, goes_on, on_indirect_call, on_ret, branch_top, on_pcrel,
  call_next, conditional_code, on_branch, on_event, on_events,
}
use substitute.X86.Transform.Place.{
  pcrel_op_size, length-pcrel_newop, length-pcrel_newop-stack, length-jump_newop,
}

length-replicate : (n : ℕ) → length {A = ℕ} (replicate n 0) ≡ n
length-replicate zero = refl
length-replicate (suc n) = omega (arith, length-replicate n)

length-pad : (out : List ℕ) (n : ℕ) → length (out ++ replicate n 0) ≡ length out + n
length-pad out n = omega (arith, length-append out (replicate n 0), length-replicate n)

-- The code before a jump through memory.
abbrev jump_head : List ℕ → ℕ → List ℕ
jump_head out dpc =
    out
    ++ (push_mov_head dpc true ++ ((0x48 ∷ 0x89 ∷ 0x44 ∷ 0x24 ∷ 0xf8 ∷ []) ++ push_mov_tail true))

length-jump_head : (out : List ℕ) (dpc : ℕ) → length (jump_head out dpc) ≡ length out + 17
unfolding push_mov_head push_mov_tail op8 op64
length-jump_head out dpc = length-append out _

length-load_head :
    (out : List ℕ) (dpc : ℕ) (rax : Bool) → length (out ++ push_mov_head dpc rax) ≡ length out + 11
unfolding push_mov_head op8 op64
length-load_head out dpc rax = length-append out _

length-load_tail :
    (out : List ℕ) (n : ℕ) (rax : Bool)
    → length (out ++ (replicate n 0 ++ push_mov_tail rax)) ≡ length out + n + 1
unfolding push_mov_tail op8
length-load_tail out n rax = omega (
  arith,
  length-append out (replicate n 0 ++ push_mov_tail rax),
  length-append (replicate n 0) (push_mov_tail rax),
  length-replicate n,
)

length-call_next :
    (out : List ℕ) (dpc : ℕ)
    → length (
        out
        ++ (op8 0x50
            ++ (push_mov_head dpc true
                ++ ((0x48 ∷ 0x8b ∷ 0x44 ∷ 0x24 ∷ 0x08 ∷ []) ++ push_mov_tail true))))
      ≡ length out + 18
unfolding push_mov_head push_mov_tail op8 op64
length-call_next out dpc = length-append out _

abbrev Within : List ℕ → Type 0
Within code = (5 ≤ length code) × (length code ≤ 14)

if_Within : (b : Bool) (s t : List ℕ) → Within s → Within t → Within (if b then s else t)
if_Within true s t h k = h
if_Within false s t h k = k

length-jump : (pc dpc : ℕ) (call : Bool) → Within (make_jmp_or_call pc dpc call)
unfolding make_jmp_or_call op8 op32 op64
length-jump pc dpc call =
    if_Within (fits_32 (sub64 dpc (u64 (pc + 5)))) _ _ (omega arith, omega arith)
      (omega arith, omega arith)

length-conditional_code :
    (pc_trampoline size dpc : ℕ)
    → (size + 7 ≤ length (conditional_code pc_trampoline size dpc))
      × (length (conditional_code pc_trampoline size dpc) ≤ size + 16)
unfolding conditional_code op8
length-conditional_code pc_trampoline size dpc =
    let source = u64 (pc_trampoline + size + 2) in
    let jump = length-jump source dpc false in
    let n : ℕ = elim (jump_patch_size source dpc true) [ none ↦ 0xff | some n ↦ n ] in
    let split =
      length-append {A = ℕ} (replicate size 0)
        (op8 0xeb ++ (op8 n ++ make_jump_patch source dpc)) in
    rw split (omega (arith, length-replicate size, jump))

-- A handler that only may set the error.
abbrev Sets : Ctx → Ctx → Type 0
Sets before after = (e : ℕ) × (e ≤ 3) × (after ≡ record before { err = e })

module _ (ctx : Ctx) (small : ctx.err ≤ 3) where
  Sets-none : Sets ctx ctx
  Sets-none = (ctx.err, small, refl)

  if_Sets : (b : Bool) (s t : Ctx) → Sets ctx s → Sets ctx t → Sets ctx (if b then s else t)
  if_Sets true s t h k = h
  if_Sets false s t h k = k

  on_ret-Sets : Sets ctx (on_ret ctx)
  unfolding on_ret
  on_ret-Sets = if_Sets (goes_on ctx) _ _ (1, omega arith, refl) Sets-none

  on_indirect_call-Sets : Sets ctx (on_indirect_call ctx)
  unfolding on_indirect_call
  on_indirect_call-Sets =
      if_Sets (ctx.ban_calls && goes_on ctx) _ _ (3, omega arith, refl) Sets-none

  branch_top-Sets : (dpc cc : ℕ) → Sets ctx (branch_top ctx dpc cc)
  unfolding branch_top
  branch_top-Sets dpc cc =
      if_Sets (leb ctx.pc_patch_start dpc && ltb dpc ctx.pc_patch_end) _ _ (2, omega arith, refl)
        (if_Sets (bit_and cc cc_call == 0) _ _
          (if_Sets (bit_and cc cc_conditional == 0) _ _ on_ret-Sets Sets-none)
          on_indirect_call-Sets)

module _ (read : ℕ → ℕ) (o : Opcode) (before : ℕ) where
  -- More code, but no more than 16 bytes beside the instruction.
  abbrev pub Grown : Ctx → Type 0
  Grown after =
      (before + 5 ≤ length after.rewritten)
      × (length after.rewritten ≤ before + op_size read o + 16)

  -- Nothing is put out and the instruction is copied, or code is put out, which has a place for the
  -- new instruction or none.
  unfoldable pub Placed : Ctx → Type 0
  Placed after =
      ((after.write_newop_here ≡ some before)
        × (after.modify ≡ false)
        × (length after.rewritten ≡ before))
      ⊎ (((after.write_newop_here ≡ none) × Grown after)
          ⊎ ((at : ℕ) × (after.write_newop_here ≡ some at)
              × (after.modify ≡ true)
              × (at + length (newop read o after.newval_0 after.newval_1) ≤ length after.rewritten)
              × Grown after))

-- What a handler leaves of the context.
pub record Handled (read : ℕ → ℕ) (o : Opcode) (before after : Ctx) : Type 0 where
  pub at_pc : after.pc ≡ before.pc
  pub start : after.pc_patch_start ≡ before.pc_patch_start
  pub stop : after.pc_patch_end ≡ before.pc_patch_end
  pub sized : after.insn_size ≡ before.insn_size
  pub error : after.err ≤ 3
  pub put_out : Placed read o (length before.rewritten) after

-- Before the calls of the disassembler.
pub record Ready (read : ℕ → ℕ) (o : Opcode) (ctx : Ctx) : Type 0 where
  pub no_error : ctx.err ≤ 3
  pub of_size : ctx.insn_size ≡ op_size read o
  pub unmodified : ctx.modify ≡ false
  pub place : ctx.write_newop_here ≡ some (length ctx.rewritten)

module _ (read : ℕ → ℕ) (o : Opcode) where
  set_Handled : (ctx after : Ctx) → Ready read o ctx → Sets ctx after → Handled read o ctx after
  unfolding Placed
  set_Handled ctx after r (e, small, same) = rw same (record {
    at_pc = refl;
    start = refl;
    stop = refl;
    sized = refl;
    error = small;
    put_out = inl (r.place, r.unmodified, refl);
  })

  abbrev handled :
      (ctx after : Ctx)
      → (after.pc ≡ ctx.pc)
        × (after.pc_patch_start ≡ ctx.pc_patch_start)
        × (after.pc_patch_end ≡ ctx.pc_patch_end)
        × (after.insn_size ≡ ctx.insn_size)
      → after.err ≤ 3
      → Placed read o (length ctx.rewritten) after
      → Handled read o ctx after
  handled ctx after (p, s, t, z) e put = record {
    at_pc = p;
    start = s;
    stop = t;
    sized = z;
    error = e;
    put_out = put;
  }

  abbrev pub plain_calls : List X86Event
  plain_calls =
      if type_of o.bits == i_jmp
      then ret ∷ []
      else if has o.bits i_call
      then indirect_call ∷ []
      else unidentified ∷ []

  module _ (ctx : Ctx) (r : Ready read o ctx) where
    on_pcrel-Handled :
        (e dpc : ℕ) (info : PcrelInfo)
        → e ≤ 3
        → has o.bits i_jimm_only ≡ false
        → is_pcrel read o ≡ true
        → Handled read o ctx (on_pcrel (record ctx { err = e }) dpc info)
    unfolding on_pcrel Placed newop
    on_pcrel-Handled e dpc info small other at_pc = elim (Bool-cases info.is_jump) [
      | inl jumps ↦
          let start = length-jump_head ctx.rewritten dpc in
          let more = length-pad (jump_head ctx.rewritten dpc) (ctx.insn_size - 2) in
          let fits = length-pcrel_newop-stack read o (u32 (2 ^ 32 - 0x10)) refl at_pc in
          rw jumps (
            handled ctx _ (refl, refl, refl, refl) small
              (inr (
                inr (
                  _,
                  refl,
                  refl,
                  rw other
                      (omega (arith, start, more, fits, r.of_size, pcrel_op_size read o at_pc)),
                  (
                    omega (arith, start, more),
                    omega (arith, start, more, r.of_size, pcrel_op_size read o at_pc),
                  ),
                ))))
      | inr loads ↦
          let rax = info.reg == 1 in
          let head = ctx.rewritten ++ push_mov_head dpc rax in
          let start = length-load_head ctx.rewritten dpc rax in
          let more = length-load_tail head (ctx.insn_size - 4) rax in
          let fits = length-pcrel_newop read o (if rax then 0 else 1) (ground arith) at_pc in
          rw loads (
            handled ctx _ (refl, refl, refl, refl) small
              (inr (
                inr (
                  _,
                  refl,
                  refl,
                  rw other
                      (omega (arith, start, more, fits, r.of_size, pcrel_op_size read o at_pc)),
                  (
                    omega (arith, start, more),
                    omega (arith, start, more, r.of_size, pcrel_op_size read o at_pc),
                  ),
                ))))
    ]

    call_next-Handled : (dpc : ℕ) → 2 ≤ op_size read o → Handled read o ctx (call_next ctx dpc)
    unfolding call_next Placed
    call_next-Handled dpc sized =
        let start = length-call_next ctx.rewritten dpc in
        handled ctx _ (refl, refl, refl, refl) r.no_error
          (inr (inl (refl, (omega (arith, start), omega (arith, start, sized)))))

    abbrev kept : ℕ → ℕ → Ctx
    kept e dpc = record ctx {
      err = e;
      modify = true;
      newval_0 = 2;
      write_newop_here = some (length ctx.rewritten);
      rewritten = ctx.rewritten ++ conditional_code ctx.pc_trampoline ctx.insn_size dpc;
    }

    kept_Handled :
        (e dpc : ℕ)
        → e ≤ 3
        → has o.bits i_jimm_only ≡ true
        → (imm_size read o ≡ 1) ⊎ ((imm_size read o ≡ 2) ⊎ (imm_size read o ≡ 4))
        → Handled read o ctx (on_ret (kept e dpc))
    unfolding Placed newop
    kept_Handled e dpc small jumps immediate =
        let (e', small', same) = on_ret-Sets (kept e dpc) small in
        let code = conditional_code ctx.pc_trampoline ctx.insn_size dpc in
        let more = length-append ctx.rewritten code in
        let grows = length-conditional_code ctx.pc_trampoline ctx.insn_size dpc in
        let fits = length-jump_newop read o 2 immediate in
        rw same (
          handled ctx _ (refl, refl, refl, refl) small'
            (inr (
              inr (
                _,
                refl,
                refl,
                rw jumps (omega (arith, more, grows, fits, r.of_size)),
                (omega (arith, more, grows), omega (arith, more, grows, r.of_size)),
              ))))

    pub on_branch-Handled :
        (dpc cc : ℕ)
        → 2 ≤ op_size read o
        → has o.bits i_jimm_only ≡ true
        → (imm_size read o ≡ 1) ⊎ ((imm_size read o ≡ 2) ⊎ (imm_size read o ≡ 4))
        → Handled read o ctx (on_branch ctx dpc cc)
    unfolding on_branch Placed newop
    on_branch-Handled dpc cc sized jumps immediate =
        let size = op_size read o in
        elim (Bool-cases ((dpc == u64 (ctx.pc + ctx.insn_size)) && not (bit_and cc cc_call == 0))) [
          | inl next ↦ rw (next, on_branch) (call_next-Handled dpc sized)
          | inr other ↦
              let (e, small, same) = branch_top-Sets ctx r.no_error dpc cc in
              elim (Bool-cases (bit_and cc cc_conditional == 0)) [
                | inl plain ↦
                    let link = not (bit_and cc cc_call == 0) in
                    let more =
                      length-append ctx.rewritten (make_jmp_or_call ctx.pc_trampoline dpc link) in
                    let jump = length-jump ctx.pc_trampoline dpc link in
                    rw (other, same, plain)
                      (handled ctx _ (refl, refl, refl, refl) small
                        (inr (inl (refl, (omega (arith, more, jump), omega (arith, more, jump))))))
                | inr conditional ↦
                    rw (other, same, conditional) (kept_Handled e dpc small jumps immediate)
              ]
        ]

    pub pcrel_calls :
        (pc : ℕ)
        → has o.bits i_jimm_only ≡ false
        → is_pcrel read o ≡ true
        → Handled read o ctx (
            on_events ctx (
              if has o.bits i_call
              then indirect_call ∷ pcrel_event read pc o ∷ []
              else pcrel_event read pc o ∷ []))
    unfolding pcrel_event on_events on_event
    pcrel_calls pc other at_pc = elim (Bool-cases (has o.bits i_call)) [
      | inl call ↦
          let (e, small, same) = on_indirect_call-Sets ctx r.no_error in
          rw (call, same) (on_pcrel-Handled e _ _ small other at_pc)
      | inr plain ↦ rw plain (on_pcrel-Handled ctx.err _ _ r.no_error other at_pc)
    ]

    pub plain_calls_Handled : Handled read o ctx (on_events ctx plain_calls)
    unfolding on_events on_event
    plain_calls_Handled = elim (Bool-cases (type_of o.bits == i_jmp)) [
      | inl e ↦ rw e (set_Handled ctx _ r (on_ret-Sets ctx r.no_error))
      | inr e ↦ elim (Bool-cases (has o.bits i_call)) [
        | inl f ↦ rw (e, f) (set_Handled ctx _ r (on_indirect_call-Sets ctx r.no_error))
        | inr f ↦ rw (e, f) (set_Handled ctx _ r (Sets-none ctx r.no_error))
      ]
    ]
