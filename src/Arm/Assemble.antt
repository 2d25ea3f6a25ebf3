-- ===== src/Arm/Assemble.antt =====
-- lib/arm/assemble.h. Each function is the bytes that it writes; `none` is an assertion that fails.
-- A shifted `int` is its pattern of 32 bits.
pub mod MoveWide
use substitute.Common.{
  ℕ, ◌+◌, ◌-◌, ◌*◌, ◌/◌, ◌%◌, ◌^◌, List, [], ◌∷◌, ◌++◌, Bool, true, false, Option, none, some,
  if◌then◌else◌, ◌==◌, ltb, bit_and, ◌or◌, ◌<<<◌, ◌>>>◌, u16, u32,
}
use substitute.Dis.{PcrelLoadMode, op16, op32}

-- `struct assemble_ctx`; `at` is `*codep` before the call.
pub record AssembleCtx : Type 0 where
  pub at : ℕ
  pub code_base : ℕ
  pub pc_of_code_base : ℕ
  pub thumb : Bool
  pub cond : ℕ

unfoldable pub actx_pc : AssembleCtx → ℕ
actx_pc ctx = u32 (ctx.pc_of_code_base + (u32 ctx.at + 2 ^ 32 - u32 ctx.code_base))

abbrev pub cond_bits : AssembleCtx → ℕ
cond_bits ctx = u32 (ctx.cond <<< 28)

unfoldable pub push_one : AssembleCtx → ℕ → List ℕ
push_one ctx rt =
    if ctx.thumb
    then op32 (0x0d04f84d or u32 (rt <<< 28))
    else op32 (0x052d0004 or rt <<< 12 or cond_bits ctx)

unfoldable pub pop_one : AssembleCtx → ℕ → List ℕ
pop_one ctx rt =
    if ctx.thumb
    then op32 (0x0b04f85d or u32 (rt <<< 28))
    else op32 (0x049d0004 or rt <<< 12 or cond_bits ctx)

unfoldable pub pop_multi : AssembleCtx → ℕ → List ℕ
pop_multi ctx mask =
    if ctx.thumb
    then op32 (0x0000e8bd or u32 (u16 mask <<< 16))
    else op32 (0x08bd0000 or u16 mask or cond_bits ctx)

-- One of the two words, for a half of the value.
unfoldable pub mov_half : AssembleCtx → ℕ → ℕ → ℕ → ℕ → ℕ
mov_half ctx thumb_op arm_op rd half =
    if ctx.thumb
    then thumb_op
      or rd <<< 24
      or half >>> 12
      or bit_and (half >>> 11) 1 <<< 10
      or bit_and (half >>> 8) 7 <<< 28
      or bit_and half 0xff <<< 16
    else arm_op or rd <<< 12 or half >>> 12 <<< 16 or bit_and half 0xfff or cond_bits ctx

unfoldable pub movw_movt : AssembleCtx → ℕ → ℕ → List ℕ
movw_movt ctx rd val =
    let hi = u16 (u32 val >>> 16) in
    let lo = u16 val in
    op32 (mov_half ctx 0x0000f240 0x03000000 rd lo)
    ++ op32 (mov_half ctx 0x0000f2c0 0x03400000 rd hi)

unfoldable pub str_ri : AssembleCtx → ℕ → ℕ → ℕ → List ℕ
str_ri ctx rt rn off =
    if ctx.thumb
    then op32 (0x0000f8c0 or rn or u32 (rt <<< 28) or u32 (off <<< 16))
    else op32 (0x04800000 or rn <<< 16 or rt <<< 12 or off or cond_bits ctx)

unfoldable pub ldr_thumb : ℕ → ℕ → ℕ → ℕ → ℕ → List ℕ
ldr_thumb subop sign rt rn off =
    op32 (0x0000f890 or rn or u32 (rt <<< 28) or subop <<< 5 or sign <<< 8 or u32 (off <<< 16))

unfoldable pub ldr_type_1 : ℕ → ℕ → ℕ → List ℕ
ldr_type_1 rt rn off = op32 (0xe5900000 or rn <<< 16 or rt <<< 12 or off)

unfoldable pub ldr_type_2 : AssembleCtx → ℕ → ℕ → ℕ → ℕ → ℕ → List ℕ
ldr_type_2 ctx subop not_ldrd rt rn off = op32 (
    0x01c00000
    or rn <<< 16
    or rt <<< 12
    or subop <<< 4
    or bit_and off 0xf
    or bit_and off 0xf0 <<< 4
    or not_ldrd <<< 20
    or cond_bits ctx)

unfoldable pub ldr_xi : AssembleCtx → ℕ → ℕ → ℕ → PcrelLoadMode → Option (List ℕ)
ldr_xi ctx rt rn off mode =
    if ctx.thumb
    then (elim mode [
      | PcrelLoadMode.u8_load ↦ some (ldr_thumb 0 0 rt rn off)
      | PcrelLoadMode.s8_load ↦ some (ldr_thumb 0 1 rt rn off)
      | PcrelLoadMode.u16_load ↦ some (ldr_thumb 1 0 rt rn off)
      | PcrelLoadMode.s16_load ↦ some (ldr_thumb 1 1 rt rn off)
      | PcrelLoadMode.u32_load ↦ some (ldr_thumb 2 0 rt rn off)
      | _ ↦ none
    ])
    else (elim mode [
      | PcrelLoadMode.u8_load ↦ some (ldr_type_1 rt rn off)
      | PcrelLoadMode.s8_load ↦ some (ldr_type_2 ctx 13 1 rt rn off)
      | PcrelLoadMode.u16_load ↦ some (ldr_type_2 ctx 11 1 rt rn off)
      | PcrelLoadMode.s16_load ↦ some (ldr_type_2 ctx 15 1 rt rn off)
      | PcrelLoadMode.u32_load ↦ some (ldr_type_1 rt rn off)
      | PcrelLoadMode.u128_load ↦ some (ldr_type_2 ctx 13 0 rt rn off)
      | _ ↦ none
    ])

unfoldable pub blx_r : AssembleCtx → ℕ → List ℕ
blx_r ctx rm =
    if ctx.thumb then op16 (0x4780 or rm <<< 3) else op32 (0xe12fff30 or rm or cond_bits ctx)

-- A signed pattern of 32 bits, divided towards 0.
unfoldable pub divide_int : ℕ → ℕ → ℕ
divide_int x d = if ltb x (2 ^ 31) then x / d else u32 (2 ^ 32 - (2 ^ 32 - x) / d)

unfoldable pub bcc_rel : AssembleCtx → ℕ → List ℕ
bcc_rel ctx offset =
    if ctx.thumb
    then op16 (u16 (0xd000 or ctx.cond <<< 8 or divide_int (u32 (offset + 2 ^ 32 - 4)) 2))
    else op32 (0x0a000000 or divide_int (u32 (offset + 2 ^ 32 - 8)) 4 or cond_bits ctx)

unfoldable pub ldr_pc : AssembleCtx → ℕ → List ℕ
ldr_pc ctx dpc =
    (if bit_and (actx_pc ctx) 2 == 0 then [] else op16 0xbf00)
    ++ ((if ctx.thumb then op32 0xf000f8df else op32 (0x051ff004 or cond_bits ctx)) ++ op32 dpc)
