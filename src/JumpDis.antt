-- ===== src/JumpDis.antt =====
-- lib/jump-dis.c on AArch64: the search for jumps back into the code that a hook writes over.
-- The queue is the list of what `vec_append` has put there and `vec_pop` has not taken, the last
-- first. `read` gives the word at an offset from `code_ptr`.
pub mod Seen
pub mod Returns
pub mod Flow
pub mod Extends
pub mod Round
pub mod Limits
pub mod Covers
pub mod Arch
pub mod Complete
pub mod Sound
mod Tests
use substitute.Common.{
  ℕ, zero, suc, ◌+◌, ◌-◌, ◌*◌, ◌/◌, ◌%◌, ◌^◌, List, [], ◌∷◌, Bool, true, false, not, ◌&&◌, Option,
  none, some, bit_and, bit_or, if◌then◌else◌, ◌==◌, ltb, leb, get_or, set, replicate, u64, sub64,
  ◌<<<◌,
}
use substitute.Dis.{Event, cc_conditional, cc_call}
use substitute.Dis.Event.{pcrel, branch, ret, indirect_call, unidentified, bad}
use substitute.Arm64.Decode.{Arm64Event, dis}

abbrev pub min_insn_size : ℕ
min_insn_size = 4

abbrev pub max_insns : ℕ
max_insns = 512

-- `struct jump_dis_ctx`; `base.ptr` and `arch` are functions of the rest.
pub record Ctx : Type 0 where
  pub bad_insn : Bool
  pub continue_after_this_insn : Bool
  pub pc : ℕ
  pub op : ℕ
  pub pc_patch_start : ℕ
  pub pc_patch_end : ℕ
  pub pc_ret : ℕ
  pub seen_mask : List ℕ
  pub queue : List ℕ

-- `seen_mask[diff / 8] & 1 << (diff % 8)`
unfoldable pub is_seen : List ℕ → ℕ → Bool
is_seen mask diff = not (bit_and (get_or mask (diff / 8) 0) (1 <<< (diff % 8)) == 0)

unfoldable pub mark_seen : List ℕ → ℕ → List ℕ
mark_seen mask diff = set mask (diff / 8) (bit_or (get_or mask (diff / 8) 0) (1 <<< (diff % 8)))

unfoldable pub window_index : ℕ → ℕ → ℕ
window_index start pc = sub64 pc start / min_insn_size

unfoldable pub add_to_queue : Ctx → ℕ → Ctx
add_to_queue ctx pc =
    let diff = window_index ctx.pc_patch_start pc in
    if leb max_insns diff
    then ctx
    else if is_seen ctx.seen_mask diff
    then ctx
    else record ctx { seen_mask = mark_seen ctx.seen_mask diff; queue = pc ∷ ctx.queue }

-- `dpc >= ctx->pc_patch_start && dpc < ctx->pc_patch_end`
unfoldable pub in_patch : Ctx → ℕ → Bool
in_patch ctx dpc = leb ctx.pc_patch_start dpc && ltb dpc ctx.pc_patch_end

-- `jump_dis_pcrel`, `jump_dis_branch`, `jump_dis_ret` and the rest.
unfoldable pub handle : Ctx → Arm64Event → Ctx
handle ctx (pcrel dpc info) =
    if bit_and ctx.op 0x9f000000 == 0x90000000
    then ctx
    else record ctx { bad_insn = in_patch ctx dpc }
handle ctx indirect_call = ctx
handle ctx ret = record ctx {
  pc_ret = if ltb ctx.pc ctx.pc_ret then ctx.pc else ctx.pc_ret;
  continue_after_this_insn = false;
}
handle ctx (branch dpc cc) =
    if in_patch ctx dpc then record ctx { bad_insn = true } else record (add_to_queue ctx dpc) {
      continue_after_this_insn = not (bit_and cc (cc_conditional + cc_call) == 0);
    }
handle ctx unidentified = ctx
handle ctx bad = record ctx { continue_after_this_insn = false }

-- The search reports a jump or none. `aborted` is an abort of the disassembler, `out_of_fuel` is no
-- result.
pub data Verdict : Type 0 where
  jumps_back clean aborted out_of_fuel : Verdict

-- The `do` loop that takes the next address from the queue: the rest of the queue, and the address.
unfoldable pub pop_until : ℕ → List ℕ → Option (ℕ × List ℕ)
pop_until pc_ret [] = none
pop_until pc_ret (pc ∷ queue) = if ltb pc_ret pc then pop_until pc_ret queue else some (pc, queue)

module _ (read : ℕ → ℕ) where
  -- One round, up to the test of `bad_insn`.
  unfoldable pub visit : Ctx → Option Ctx
  visit ctx =
      let op = read (sub64 ctx.pc ctx.pc_patch_start) in
      elim (dis ctx.pc op) [
        | none ↦ none
        | some event ↦ some (
            handle (record ctx { bad_insn = false; continue_after_this_insn = true; op = op })
              event)
      ]

  -- `if (ctx.continue_after_this_insn) jump_dis_add_to_queue(...)`
  unfoldable pub follow : Ctx → Ctx
  follow ctx = if ctx.continue_after_this_insn then add_to_queue ctx (u64 (ctx.pc + 4)) else ctx

  unfoldable pub loop : ℕ → Ctx → Verdict
  loop zero ctx = out_of_fuel
  loop (suc fuel) ctx = elim (visit ctx) [
    | none ↦ aborted
    | some seen ↦ elim (seen.bad_insn) [
      | true ↦ jumps_back
      | false ↦ elim (pop_until (follow seen).pc_ret (follow seen).queue) [
        | none ↦ clean
        | some (pc, queue) ↦ loop fuel (record (follow seen) { pc = pc; queue = queue })
      ]
    ]
  ]

  unfoldable pub initial : ℕ → ℕ → Ctx
  initial pc_patch_start pc_patch_end = record {
    bad_insn = false;
    continue_after_this_insn = false;
    pc = pc_patch_end;
    op = 0;
    pc_patch_start = pc_patch_start;
    pc_patch_end = pc_patch_end;
    pc_ret = 2 ^ 64 - 1;
    seen_mask = replicate 64 0;
    queue = [];
  }

  -- One round more than there are instructions in the window.
  unfoldable pub jump_dis_main : ℕ → ℕ → Verdict
  jump_dis_main pc_patch_start pc_patch_end =
      loop (max_insns + 1) (initial pc_patch_start pc_patch_end)
