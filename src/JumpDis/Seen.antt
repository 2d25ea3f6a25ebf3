-- ===== src/JumpDis/Seen.antt =====
-- The bytes of `seen_mask` as a set of indices below 512.
use substitute.Common.{
  ℕ, zero, suc, ◌+◌, ◌*◌, ◌/◌, ◌%◌, ◌^◌, ◌<◌, ◌≤◌, ◌≡◌, ◌≢◌, refl, arith, List, Bool, true, false,
  ◌==◌, ltb, get_or, length, length-set, bit_and, bit_or, get_or-set_self, get_or-set_ne, ==_iff,
  ltb→lt, if◌then◌else◌,
}
use native.Mathlib.Decide.{ℕ_discrete}
use native.Mathlib.Nat.{one-le-pow}
use substitute.Common.Bits.{below_all, below_all_at}
use substitute.JumpDis.{is_seen, mark_seen}

bit_set_then_read : ℕ → ℕ → ℕ → Bool
bit_set_then_read x i j =
    bit_and (bit_or x (1 * 2 ^ i)) (1 * 2 ^ j)
    == (if i == j then 1 * 2 ^ j else bit_and x (1 * 2 ^ j))

-- Every byte, with bit `i` set and bit `j` read.
bit_table : below_all 256 (λ x. below_all 8 (λ i. below_all 8 (bit_set_then_read x i))) ≡ true
unfolding below_all bit_set_then_read
bit_table = refl

byte_table : below_all 256 (λ x. below_all 8 (λ i. ltb (bit_or x (1 * 2 ^ i)) 256)) ≡ true
unfolding below_all
byte_table = refl

read_bit :
    (x i j : ℕ)
    → x < 256
    → i < 8
    → j < 8
    → bit_and (bit_or x (1 * 2 ^ i)) (1 * 2 ^ j)
      ≡ (if i == j then 1 * 2 ^ j else bit_and x (1 * 2 ^ j))
unfolding bit_set_then_read
read_bit x i j hx hi hj =
    let row =
      below_all_at 256 (λ x'. below_all 8 (λ i'. below_all 8 (bit_set_then_read x' i'))) x bit_table
        hx in
    let column = below_all_at 8 (λ i'. below_all 8 (bit_set_then_read x i')) i row hi in
    (==_iff _ _).0 (below_all_at 8 (bit_set_then_read x i) j column hj)

set_bit-lt : (x i : ℕ) → x < 256 → i < 8 → bit_or x (1 * 2 ^ i) < 256
set_bit-lt x i hx hi =
    let row =
      below_all_at 256 (λ x'. below_all 8 (λ i'. ltb (bit_or x' (1 * 2 ^ i')) 256)) x byte_table
        hx in
    ltb→lt _ _ (below_all_at 8 (λ i'. ltb (bit_or x (1 * 2 ^ i')) 256) i row hi)

-- Sixty-four bytes.
pub record IsMask (mask : List ℕ) : Type 0 where
  pub bytes : length mask ≡ 64
  pub small : (k : ℕ) → get_or mask k 0 < 256

module _ (mask : List ℕ) (valid : IsMask mask) (d : ℕ) (hd : d < 512) where
  here : get_or (mark_seen mask d) (d / 8) 0 ≡ bit_or (get_or mask (d / 8) 0) (1 * 2 ^ (d % 8))
  unfolding mark_seen
  here = get_or-set_self mask (d / 8) _ 0 (omega (arith, valid.bytes))

  elsewhere : (k : ℕ) → d / 8 ≢ k → get_or (mark_seen mask d) k 0 ≡ get_or mask k 0
  unfolding mark_seen
  elsewhere k ne = get_or-set_ne mask (d / 8) k _ 0 ne

  pub mark_seen-IsMask : IsMask (mark_seen mask d)
  unfolding mark_seen
  mark_seen-IsMask = record {
    bytes = rw length-set valid.bytes;
    small = λ k. elim (ℕ_discrete (d / 8) k) [
      | yes e ↦
          rw (← e, here)
            (set_bit-lt (get_or mask (d / 8) 0) (d % 8) (valid.small (d / 8)) (omega arith))
      | no ne ↦ rw (elsewhere k ne) (valid.small k)
    ];
  }

  -- Marking one index changes the answer for that one only.
  pub is_seen-mark_seen :
      (e : ℕ) → e < 512 → is_seen (mark_seen mask d) e ≡ (if d == e then true else is_seen mask e)
  unfolding is_seen
  is_seen-mark_seen e he = elim (ℕ_discrete (d / 8) (e / 8)) [
    | yes same ↦
        rw
          (
            ← same,
            here,
            read_bit (get_or mask (d / 8) 0) (d % 8) (e % 8) (valid.small (d / 8)) (omega arith)
                (omega arith),
          )
          (ground (arith, one-le-pow (e % 8) 2))
    | no ne ↦ rw (elsewhere (e / 8) ne) (ground arith)
  ]

-- How many of the first `n` indices are not marked.
pub unseen : List ℕ → ℕ → ℕ
unseen mask zero = 0
unseen mask (suc n) = (if is_seen mask n then 0 else 1) + unseen mask n

pub unseen-le : (mask : List ℕ) (n : ℕ) → unseen mask n ≤ n
unfolding unseen
unseen-le mask zero = omega arith
unseen-le mask (suc n) = ground (arith, unseen-le mask n)

unseen-mark_same :
    (mask : List ℕ) (d n : ℕ)
    → IsMask mask
    → d < 512
    → n ≤ d
    → unseen (mark_seen mask d) n ≡ unseen mask n
unfolding unseen
unseen-mark_same mask d zero v hd h = refl
unseen-mark_same mask d (suc n) v hd h =
    rw (unseen-mark_same mask d n v hd (omega arith), is_seen-mark_seen mask v d hd n (omega arith))
      (ground arith)

-- Marking a new index uses one up.
pub unseen-mark_seen :
    (mask : List ℕ) (d n : ℕ)
    → IsMask mask
    → n ≤ 512
    → d < n
    → is_seen mask d ≡ false
    → suc (unseen (mark_seen mask d) n) ≡ unseen mask n
unfolding unseen
unseen-mark_seen mask d zero v hn h e = elim h [ ]
unseen-mark_seen mask d (suc n) v hn h e =
    rw (is_seen-mark_seen mask v d (omega arith) n (omega arith))
      (ground (arith, unseen-mark_seen mask d n v, unseen-mark_same mask d n v))
