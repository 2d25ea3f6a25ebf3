-- ===== src/Dis.antt =====
-- lib/dis.h, for a target with 64-bit pointers: bit slices of an instruction word, sign extension,
-- the writers of machine code, and the flags and load modes that the disassemblers hand on.
-- `op8` to `op64` write at `*codep` and advance it; here they are the bytes that they write, and two
-- writes in a row are `++`. What stands at an offset is a position in the list.
use substitute.Common.{
  ℕ, ◌+◌, ◌-◌, ◌/◌, ◌%◌, ◌^◌, List, [], ◌∷◌, ◌++◌, bit_and, ◌or◌, ◌>>>◌, ◌<<<◌, u32, u64, not32,
  if◌then◌else◌, ltb, ◌==◌, le32,
}

-- `len` bits of a word from `inpos` up stand for the bits of a value from `outpos` up.
pub record BitsliceRun : Type 0 where
  pub inpos : ℕ
  pub outpos : ℕ
  pub len : ℕ

-- `runs`, and `nruns` as its length.
abbrev pub Bitslice : Type 0
Bitslice = List BitsliceRun

abbrev pub run : ℕ → ℕ → ℕ → BitsliceRun
run i o l = record { inpos = i; outpos = o; len = l }

-- `(1 << len) - 1`
abbrev pub ones : ℕ → ℕ
ones k = 2 ^ k - 1

-- A negative result is a pattern of 64 bits. `1 << bits` is defined for up to 30 bits, and no handler
-- has more.
unfoldable pub sext : ℕ → ℕ → ℕ
sext val bits = if bit_and val (1 <<< (bits - 1)) == 0 then val else u64 (val + 2 ^ 64 - 2 ^ bits)

unfoldable pub bs_get_from : ℕ → Bitslice → ℕ → ℕ
bs_get_from ret [] op = ret
bs_get_from ret (r ∷ bs) op =
    bs_get_from (ret or u32 (bit_and (op >>> r.inpos) (ones r.len) <<< r.outpos)) bs op

-- The loop of `bs_get`, from `ret = 0`.
unfoldable pub bs_get : Bitslice → ℕ → ℕ
unfolding bs_get_from
bs_get bs op = bs_get_from 0 bs op

unfoldable pub bs_set : Bitslice → ℕ → ℕ → ℕ
bs_set [] new op = op
bs_set (r ∷ bs) new op =
    let mask = ones r.len in
    let val = bit_and (new >>> r.outpos) mask in
    bs_set bs new (bit_and op (not32 (u32 (mask <<< r.inpos))) or u32 (val <<< r.inpos))

-- One round of `bs_slice_`: the part of a run at `lo` and above. A length that the source makes
-- negative is 0 here; both are dropped.
unfoldable pub slice_low : ℕ → BitsliceRun → BitsliceRun
slice_low lo r =
    if ltb r.outpos lo
    then record { inpos = r.inpos + (lo - r.outpos); outpos = 0; len = r.len - (lo - r.outpos) }
    else record r { outpos = r.outpos - lo }

unfoldable pub slice_high : ℕ → BitsliceRun → BitsliceRun
slice_high size r = if ltb size (r.outpos + r.len) then record r { len = size - r.outpos } else r

unfoldable pub bs_slice : Bitslice → ℕ → ℕ → Bitslice
unfolding slice_low slice_high
bs_slice [] lo size = []
bs_slice (r ∷ bs) lo size =
    let inr = slice_high size (slice_low lo r) in
    if ltb 0 inr.len then inr ∷ bs_slice bs lo size else bs_slice bs lo size

pub data PcrelLoadMode : Type 0 where
  adr u8_load s8_load u16_load s16_load u32_load s32_load u64_load u128_load : PcrelLoadMode
  u32_simd u64_simd u128_simd : PcrelLoadMode

unfoldable pub op8 : ℕ → List ℕ
op8 op = (op % 256) ∷ []

unfoldable pub op16 : ℕ → List ℕ
op16 op = (op % 256) ∷ (op / 256 % 256) ∷ []

unfoldable pub op32 : ℕ → List ℕ
op32 op = le32 (u32 op)

unfoldable pub op64 : ℕ → List ℕ
op64 op = le32 (op % 2 ^ 32) ++ le32 (op / 2 ^ 32 % 2 ^ 32)

abbrev pub cc_conditional : ℕ
cc_conditional = 0x100

abbrev pub cc_call : ℕ
cc_call = 0x200

-- Which `P(x)` a disassembler calls for an instruction, with what it hands over. `Info` is the
-- architecture's `struct arch_pcrel_info`.
pub data Event (Info : Type 0) : Type 0 where
  pcrel : ℕ → Info → Event Info
  branch : ℕ → ℕ → Event Info
  ret indirect_call unidentified bad : Event Info
