-- ===== src/Arm64/Assemble.antt =====
-- lib/arm64/assemble.h and the register allocation of lib/arm64/arch-dis.h. Each function is the
-- bytes that it writes at `*codep`.
pub mod Execute
pub mod Register
pub mod Sizes
pub mod MoveWide
use substitute.Common.{
  ℕ, zero, suc, ◌+◌, ◌-◌, ◌*◌, ◌/◌, ◌%◌, ◌^◌, List, [], ◌++◌, bit_and, ◌or◌, ◌>>>◌, ◌<<<◌, u32, u64,
  not32, not64, sub64, if◌then◌else◌, ◌==◌, Bool, true, false, Option, none, some,
}
use substitute.Dis.{op32, PcrelLoadMode}
use substitute.Dis.PcrelLoadMode.{
  adr, u8_load, s8_load, u16_load, s16_load, u32_load, s32_load, u64_load, u128_load, u32_simd,
  u64_simd, u128_simd,
}

-- The number of binary digits of a value below `2 ^ fuel`.
unfoldable pub bit_length : ℕ → ℕ → ℕ
bit_length zero n = 0
bit_length (suc fuel) n = let rest = bit_length fuel (n / 2) in if n == 0 then 0 else suc rest

-- `__builtin_clzll` and `__builtin_clz`, which the callers never hand a 0.
unfoldable pub clzll : ℕ → ℕ
unfolding bit_length
clzll n = 64 - bit_length 64 n

unfoldable pub clz : ℕ → ℕ
unfolding bit_length
clz n = 32 - bit_length 32 n

unfoldable pub size_of_mov_i64 : ℕ → ℕ
unfolding clzll
size_of_mov_i64 val =
    let num_nybbles = if val == 0 then 1 else (64 - clzll val + 15) / 16 in 4 * num_nybbles

-- One round of `mov_i64`: MOVZ at the first, MOVK after it.
unfoldable pub mov_op : ℕ → ℕ → ℕ → ℕ
mov_op shift_nybbles rd val =
    let k = if shift_nybbles == 0 then 0 else 1 in
    0xd2800000 or k <<< 29 or rd or bit_and val 0xffff <<< 5 or shift_nybbles <<< 21

-- The loop, with the rounds that a 64-bit value can take as fuel.
unfoldable pub mov_loop : ℕ → ℕ → ℕ → ℕ → List ℕ
mov_loop zero shift_nybbles rd val = []
mov_loop (suc fuel) shift_nybbles rd val =
    let rest = mov_loop fuel (suc shift_nybbles) rd (val >>> 16) in
    op32 (mov_op shift_nybbles rd val) ++ (if val >>> 16 == 0 then [] else rest)

unfoldable pub mov_i64 : ℕ → ℕ → List ℕ
unfolding mov_loop mov_op op32
mov_i64 rd val = mov_loop 4 0 rd val

-- `size`, `opc` and `simd` of a load, the shift of its offset, and whether it writes anything.
pub record LoadForm : Type 0 where
  pub size : ℕ
  pub opc : ℕ
  pub simd : ℕ

-- `none` is the `__builtin_abort` of a load mode that AArch64 does not have.
unfoldable pub load_form : Bool → PcrelLoadMode → Option LoadForm
load_form regsize_64 adr = none
load_form regsize_64 u8_load = some (record { size = 0; opc = 1; simd = 0 })
load_form regsize_64 s8_load =
    some (record { size = 0; opc = if regsize_64 then 2 else 3; simd = 0 })
load_form regsize_64 u16_load = some (record { size = 1; opc = 1; simd = 0 })
load_form regsize_64 s16_load =
    some (record { size = 1; opc = if regsize_64 then 2 else 3; simd = 0 })
load_form regsize_64 u32_load = some (record { size = 2; opc = 1; simd = 0 })
load_form regsize_64 s32_load =
    some (record { size = 2; opc = if regsize_64 then 2 else 3; simd = 0 })
load_form regsize_64 u64_load = some (record { size = 3; opc = 1; simd = 0 })
load_form regsize_64 u128_load = none
load_form regsize_64 u32_simd = some (record { size = 2; opc = 1; simd = 1 })
load_form regsize_64 u64_simd = some (record { size = 3; opc = 1; simd = 1 })
load_form regsize_64 u128_simd = some (record { size = 0; opc = 3; simd = 1 })

unfoldable pub load_scale : LoadForm → ℕ
load_scale f = if f.simd == 0 then f.size else (f.size or bit_and f.opc 1 <<< 2)

unfoldable pub load_op : ℕ → ℕ → ℕ → LoadForm → ℕ
unfolding load_scale
load_op rt rn off f =
    0x39000000
    or rt
    or rn <<< 5
    or (off >>> load_scale f) <<< 10
    or f.opc <<< 22
    or f.simd <<< 26
    or f.size <<< 30

-- `none` is the abort. `PLM_ADR` returns with nothing written.
unfoldable pub ldr_xi : ℕ → ℕ → ℕ → Bool → PcrelLoadMode → Option (List ℕ)
unfolding load_form load_op op32
ldr_xi rt rn off regsize_64 adr = some []
ldr_xi rt rn off regsize_64 mode = elim (load_form regsize_64 mode) [
  | none ↦ none
  | some f ↦ some (op32 (load_op rt rn off f))
]

-- `(dpc & ~0xfff) - (pc & ~0xfff)`
unfoldable pub page_diff : ℕ → ℕ → ℕ
page_diff pc dpc = sub64 (bit_and dpc (not64 0xfff)) (bit_and pc (not64 0xfff))

unfoldable pub adrp_op : ℕ → ℕ → ℕ
adrp_op reg diff = 0x90000000 or reg or bit_and diff 0x3000 <<< 17 or bit_and diff 0x1ffffc000 >>> 9

unfoldable pub add_op : ℕ → ℕ → ℕ
add_op reg lo = 0x91000000 or reg or reg <<< 5 or lo <<< 10

unfoldable pub adrp_add : ℕ → ℕ → ℕ → List ℕ
adrp_add reg pc dpc =
    let lo = u32 (bit_and dpc 0xfff) in
    op32 (adrp_op reg (page_diff pc dpc)) ++ (if lo == 0 then [] else op32 (add_op reg lo))

unfoldable pub br : ℕ → Bool → List ℕ
unfolding op32
br reg link = op32 (0xd61f0000 or reg <<< 5 or (if link then 1 else 0) <<< 21)

-- The offset is never negative here.
unfoldable pub bcc_rel : ℕ → ℕ → List ℕ
unfolding op32
bcc_rel cc offset = op32 (0x54000000 or (offset / 4) <<< 5 or cc)

-- `none` is the `__builtin_abort` when all of x9 to x17 may be written.
unfoldable pub get_unwritten_temp_reg : ℕ → Option ℕ
unfolding clz
get_unwritten_temp_reg regs_possibly_written =
    let avail = bit_and (not32 regs_possibly_written) ((1 <<< 18) - (1 <<< 9)) in
    if avail == 0 then none else some (31 - clz avail)
