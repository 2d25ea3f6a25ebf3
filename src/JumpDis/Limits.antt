-- ===== src/JumpDis/Limits.antt =====
-- The limit `pc_ret`, and the queue while no return has lowered it.
use mathlib.Core.Path.{◌∙◌}
use substitute.Common.{
  ℕ, zero, suc, ◌/◌, ◌%◌, ◌^◌, ◌<◌, ◌≤◌, ◌≡◌, ◌≢◌, inl, refl, arith, List, [], ◌∷◌, true, none,
  some, u64, ◌+◌, get_or, replicate, le→ltb,
}
use substitute.Dis.Event.{pcrel, branch, ret, indirect_call, unidentified, bad}
use Prim.Native.Nat.{bit_and-bitwise}
use substitute.Common.{◌<<<◌}
use substitute.Arm64.Decode.{Arm64Event}
use substitute.Arm64.Decode.Align.{InStep}
use substitute.JumpDis.{Ctx, is_seen, window_index, add_to_queue, handle, follow, pop_until}
use substitute.JumpDis.Returns.{entering, after}
use substitute.JumpDis.Extends.{Member}

add_to_queue-pc_ret : (ctx : Ctx) (pc : ℕ) → (add_to_queue ctx pc).pc_ret ≡ ctx.pc_ret
unfolding add_to_queue
add_to_queue-pc_ret ctx pc = ground arith

-- Only a return moves the limit.
handle-pc_ret : (ctx : Ctx) (e : Arm64Event) → e ≢ ret → (handle ctx e).pc_ret ≡ ctx.pc_ret
unfolding handle
handle-pc_ret ctx (branch dpc c) n = ground (arith, add_to_queue-pc_ret ctx dpc)
handle-pc_ret ctx (pcrel dpc info) n = ground arith
handle-pc_ret ctx ret n = absurd (n refl)
handle-pc_ret ctx indirect_call n = refl
handle-pc_ret ctx unidentified n = refl
handle-pc_ret ctx bad n = refl

follow-pc_ret : (read : ℕ → ℕ) (ctx : Ctx) → (follow read ctx).pc_ret ≡ ctx.pc_ret
unfolding follow
follow-pc_ret read ctx = ground (arith, add_to_queue-pc_ret ctx (u64 (ctx.pc + 4)))

pub after-pc_ret :
    (read : ℕ → ℕ) (ctx : Ctx) (e : Arm64Event) → e ≢ ret → (after read ctx e).pc_ret ≡ ctx.pc_ret
after-pc_ret read ctx e n =
    follow-pc_ret read (handle (entering read ctx) e) ∙ handle-pc_ret (entering read ctx) e n

-- With no limit nothing in the queue is passed over.
pub pop_until-some :
    (pc_ret pc : ℕ) (queue rest : List ℕ)
    → ((a : ℕ) → Member a queue → a ≤ pc_ret)
    → pop_until pc_ret queue ≡ some (pc, rest)
    → queue ≡ pc ∷ rest
unfolding pop_until
pop_until-some pc_ret pc [] rest low h = cc
pop_until-some pc_ret pc (q ∷ queue) rest low h =
    let h' = rw (le→ltb pc_ret q (low q (inl refl)), pop_until) at h in
    let same_pc : pc ≡ q = cc in let same_rest : rest ≡ queue = cc in cc

pub pop_until-none :
    (pc_ret : ℕ) (queue : List ℕ)
    → ((a : ℕ) → Member a queue → a ≤ pc_ret)
    → pop_until pc_ret queue ≡ none
    → queue ≡ []
unfolding pop_until
pop_until-none pc_ret [] low h = refl
pop_until-none pc_ret (q ∷ queue) low h =
    let h' = rw (le→ltb pc_ret q (low q (inl refl)), pop_until) at h in cc

-- Addresses in step with the start of the patch are told apart by their index.
pub window_index-injective :
    (start a b : ℕ)
    → start < 2 ^ 64
    → InStep start a
    → InStep start b
    → window_index start a ≡ window_index start b
    → a ≡ b
unfolding window_index
window_index-injective start a b hs ha hb h = omega arith

zero_byte : (n k : ℕ) → get_or {A = ℕ} (replicate n 0) k 0 ≡ 0
zero_byte zero k = refl
zero_byte (suc n) zero = refl
zero_byte (suc n) (suc k) = zero_byte n k

pub no_mark : (d : ℕ) → is_seen (replicate 64 0) d ≡ true → ⊥
unfolding is_seen
no_mark d h =
    let h' = rw (zero_byte 64 (d / 8)) at h in ground (arith, bit_and-bitwise 0 (1 <<< (d % 8)))
