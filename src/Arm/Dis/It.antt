-- ===== src/Arm/Dis/It.antt =====
-- The handler of IT, which marks the conditions of the instructions of its block.
use substitute.Common.{
  ℕ, zero, suc, ◌+◌, ◌-◌, ◌*◌, ◌/◌, ◌%◌, ◌^◌, ◌≤◌, ◌<◌, ◌≡◌, ◌≢◌, inl, inr, refl, ap, ◌∙◌, arith,
  Bool, true, false, ◌&&◌, ◌||◌, Option, none, some, List, [], ◌∷◌, length, set, length-set,
  replicate, bit_and, if◌then◌else◌, ◌==◌, not32, ◌or◌, lt→ltb, ◌>>>◌, Bool-cases, &&_split,
}
use substitute.Common.Bits.{bit_and_field, bit_and_mask, below_all, below_all_at}
use substitute.Arm64.Decode.Targets.{bs_get-field}
use substitute.Dis.{bs_get, run}
use substitute.Arm.Context.{
  DisCtx, Outcome, done, aborts, overruns, unaligned_r16, advance_conds, advance_it_cond,
}
use substitute.Arm.Dis.Thumb.Insn.{ThumbInsn}
use substitute.Arm.Dis.Ends.{find-it}
use substitute.Arm.Dis.Thumb.{
  handle, ctz, it_round, it_loop, mark_block, it_done, it_block, t2_it, advanced, call_insn,
  dis_thumb, thumb_do_it,
}
use substitute.Arm.Dis.{dis, is_32}
use substitute.Arm.Dis.Modes.{dis-thumb_mode}

-- The rounds of IT: the fourth writes behind the array.
ctz_odd : (mask : ℕ) → mask % 2 ≡ 1 → ctz 4 mask ≡ 0
unfolding ctz
ctz_odd mask h = ground arith

ctz_even : (mask : ℕ) → mask % 2 ≡ 0 → 1 ≤ ctz 4 mask
unfolding ctz
ctz_even mask h = ground arith

module _ (mask_val cc_val : ℕ) where
  abbrev it_bits : ℕ → ℕ
  it_bits i = bit_and cc_val (not32 1) or bit_and (mask_val >>> (3 - i)) 1

  it_loop-none :
      (left i : ℕ) (conds : List ℕ)
      → i ≤ 3
      → 3 < i + left
      → it_loop mask_val cc_val left i conds ≡ none
  unfolding it_loop it_round
  it_loop-none zero i conds h k = absurd (omega arith)
  it_loop-none (suc left) i conds h k =
      let next = set conds (i + 2) (it_bits i) in ground (arith, it_loop-none left (i + 1) next)

  it_loop-some :
      (left i : ℕ) (conds : List ℕ)
      → i + left ≤ 3
      → (next : List ℕ) × (it_loop mask_val cc_val left i conds ≡ some next)
        × (length next ≡ length conds)
  unfolding it_loop it_round
  it_loop-some zero i conds h = (conds, refl, refl)
  it_loop-some (suc left) i conds h =
      let next = set conds (i + 2) (it_bits i) in
      let (last, e, l) = it_loop-some left (i + 1) next (omega arith) in
      rw (lt→ltb (i + 2) 5 (omega arith), it_loop)
        (last, e, l ∙ length-set conds (i + 2) (it_bits i))

-- The handler of IT, by the lowest bit of the mask.
abbrev pub ItSettled : DisCtx → Outcome → Type 0
ItSettled c (done call c') =
    (c.op % 2 ≡ 0)
    × (length c'.arch.it_conds ≡ 5)
    × (c'.op_size ≡ c.op_size)
    × (c'.newop_size ≡ c.newop_size)
ItSettled c aborts = ⊥
ItSettled c overruns = c.op % 2 ≡ 1

it_block-odd : (mask cc : ℕ) (c : DisCtx) → mask % 2 ≡ 1 → it_block mask cc c ≡ overruns
unfolding it_block mark_block it_done
it_block-odd mask cc c odd = ground (
  arith,
  ctz_odd mask,
  it_loop-none mask cc 4 0 (set c.arch.it_conds 1 cc) (omega arith) (omega arith),
)

it_block-even :
    (mask cc : ℕ) (c : DisCtx)
    → length c.arch.it_conds ≡ 5
    → mask % 2 ≡ 0
    → c.op % 2 ≡ 0
    → ItSettled c (it_block mask cc c)
unfolding it_block mark_block it_done
it_block-even mask cc c five even op_even =
    let conds = set c.arch.it_conds 1 cc in
    let few = ctz_even mask even in
    let (next, e, l) = it_loop-some mask cc (4 - ctz 4 mask) 0 conds (omega arith) in
    ground (arith, length-set c.arch.it_conds 1 cc)

pub t2_it-ItSettled :
    (c : DisCtx) → length c.arch.it_conds ≡ 5 → ItSettled c (handle ThumbInsn.t2_it c)
unfolding handle t2_it
t2_it-ItSettled c five =
    let cc = bs_get (run 4 0 4 ∷ []) c.op in
    let mask = bs_get (run 0 0 4 ∷ []) c.op in
    let low : mask ≡ c.op / 2 ^ 0 % 2 ^ 4 = bs_get-field 0 4 c.op (omega arith) in
    elim (Bool-cases (c.op % 2 == 1)) [
      | inl odd ↦ rw (it_block-odd mask cc c (ground arith)) (ground arith)
      | inr even ↦ it_block-even mask cc c five (ground arith) (ground arith)
    ]

-- `ITSTATE` of the architecture manual: how it moves on with each instruction, and the condition of
-- the instruction that it stands at. 14 is no condition.
abbrev pub it_advance : ℕ → ℕ
it_advance s = if s % 8 == 0 then 0 else s / 32 * 32 + s * 2 % 32

abbrev pub it_cond : ℕ → ℕ
it_cond s = if s % 16 == 0 then 14 else s / 16

abbrev pub next_conds : ℕ → ℕ → List ℕ
next_conds zero s = []
next_conds (suc n) s = it_cond s ∷ next_conds n (it_advance s)

-- How many instructions the block has, for an even mask that is not 0.
abbrev pub block_length : ℕ → ℕ
block_length s = if s % 16 == 8 then 1 else if s % 8 == 4 then 2 else 3

same : List ℕ → List ℕ → Bool
same [] [] = true
same (x ∷ xs) (y ∷ ys) = (x == y) && same xs ys
same _ _ = false

same-eq : (xs ys : List ℕ) → same xs ys ≡ true → xs ≡ ys
unfolding same
same-eq [] [] h = refl
same-eq (x ∷ xs) (y ∷ ys) h =
    let both = &&_split (x == y) (same xs ys) h in ground (arith, same-eq xs ys both.1)
same-eq [] (y ∷ ys) h = cc
same-eq (x ∷ xs) [] h = cc

abbrev pub off : List ℕ
off = replicate 5 14

-- What the code marks for a block that starts in a state.
marked : ℕ → List ℕ
marked s = elim (mark_block (s % 16) (s / 16) off) [ none ↦ [] | some conds ↦ advance_conds conds ]

abbrev pub expected : ℕ → List ℕ
expected s = set (next_conds 5 s) (block_length s) (s / 32 * 2 + 1)

block_test : ℕ → Bool
block_test s = (s % 16 == 0) || (s % 2 == 1) || same (marked s) (expected s)

block_table : below_all 256 block_test ≡ true
unfolding block_test below_all marked same mark_block advance_conds
block_table = refl

abbrev pub it_conds_of : Outcome → Option (List ℕ)
it_conds_of (done call c) = some c.arch.it_conds
it_conds_of _ = none

marked-expected : (s : ℕ) → s < 256 → s % 16 ≢ 0 → s % 2 ≡ 0 → marked s ≡ expected s
unfolding block_test
marked-expected s fits some_mask even =
    same-eq (marked s) (expected s) (ground (arith, below_all_at 256 block_test s block_table fits))

expected-length : (s : ℕ) → length (expected s) ≡ 5
expected-length s = length-set (next_conds 5 s) (block_length s) (s / 32 * 2 + 1)

advanced-it_done :
    (o : Option (List ℕ)) (c : DisCtx) (xs : List ℕ)
    → length xs ≡ 5
    → elim o [ none ↦ [] | some conds ↦ advance_conds conds ] ≡ xs
    → it_conds_of (advanced (it_done o c)) ≡ some xs
unfolding advanced it_done advance_it_cond
advanced-it_done none c xs l e = absurd (omega (arith, ap length e))
advanced-it_done (some conds) c xs l e = ap some e

not_wide : (op s : ℕ) → op ≡ 0xbf00 + s → s < 256 → is_32 op ≡ false
unfolding is_32
not_wide op s e h = ground (arith, bit_and_mask 3 (op >>> 13))

it_block-marks :
    (mask cc : ℕ) (c : DisCtx)
    → mask ≢ 0
    → it_block mask cc c ≡ it_done (mark_block mask cc c.arch.it_conds) c
unfolding it_block
it_block-marks mask cc c some_mask = ground arith

it_block-conds :
    (s : ℕ) (c : DisCtx)
    → s < 256
    → s % 16 ≢ 0
    → s % 2 ≡ 0
    → c.arch.it_conds ≡ off
    → it_conds_of (advanced (it_block (s % 16) (s / 16) c)) ≡ some (expected s)
unfolding marked
it_block-conds s c fits some_mask even start =
    ap (λ o. it_conds_of (advanced o)) (it_block-marks (s % 16) (s / 16) c some_mask)
    ∙ ap (λ l. it_conds_of (advanced (it_done (mark_block (s % 16) (s / 16) l) c))) start
    ∙ advanced-it_done (mark_block (s % 16) (s / 16) off) c (expected s) (expected-length s)
        (marked-expected s fits some_mask even)

-- The fields that the tree hands to the handler.
handle-it :
    (c : DisCtx) (s : ℕ)
    → c.op ≡ 0xbf00 + s
    → s < 256
    → handle ThumbInsn.t2_it c ≡ it_block (s % 16) (s / 16) c
unfolding handle t2_it
handle-it c s e h =
    let mask : bs_get (run 0 0 4 ∷ []) c.op ≡ s % 16 =
      bs_get-field 0 4 c.op (omega arith) ∙ omega arith in
    let cc : bs_get (run 4 0 4 ∷ []) c.op ≡ s / 16 =
      bs_get-field 4 4 c.op (omega arith) ∙ omega arith in
    ap (λ m. it_block m (bs_get (run 4 0 4 ∷ []) c.op) c) mask ∙ ap (λ k. it_block (s % 16) k c) cc

-- At an IT instruction for a block of one to three, outside of any block, the five conditions that
-- the disassembler leaves for the next instructions are those of the architecture's ITSTATE, but
-- for the first instruction behind the block: it is taken to have a condition, the first one's with
-- its lowest bit set.
pub dis-it_conds :
    (ctx : DisCtx) (s : ℕ)
    → ctx.arch.pc_low_bit ≡ true
    → unaligned_r16 ctx.code ≡ 0xbf00 + s
    → s < 256
    → s % 16 ≢ 0
    → s % 2 ≡ 0
    → ctx.arch.it_conds ≡ off
    → it_conds_of (dis ctx) ≡ some (expected s)
unfolding dis_thumb thumb_do_it
dis-it_conds ctx s thumb word fits some_mask even start =
    let op = unaligned_r16 ctx.code in
    let c = record ctx { op = op; op_size = 2; newop_size = 2 } in
    let masked : bit_and op 0xffffff00 ≡ 0xbf00 = ground (arith, bit_and_field 8 24 op) in
    ap it_conds_of (dis-thumb_mode ctx thumb (not_wide op s word fits))
    ∙ ap (λ o. it_conds_of (advanced (call_insn o c))) (find-it op masked)
    ∙ ap (λ o. it_conds_of (advanced o)) (handle-it c s word fits)
    ∙ it_block-conds s c fits some_mask even start
