-- ===== src/Arm64/Tree.antt =====
-- generated/generic-dis-arm64.inc.h: the tree of switches by which `P(dis)` of
-- lib/arm64/dis-main.inc.h finds the handler of an instruction word.
pub mod Flat
use substitute.Common.{ℕ, ◌||◌, Bool, bit_and, ◌>>>◌, if◌then◌else◌, ◌==◌}

-- The handlers, with the bit slices that the tree passes to them left to `Decode`.
pub data Insn : Type 0 where
  adr adrp b bl bcc cbz tbz ldr_literal blr unidentified : Insn

abbrev pub masked : ℕ → ℕ → ℕ → Bool
masked op mask value = bit_and op mask == value

adr_or : ℕ → Insn
adr_or op = if masked op 0x9f000000 0x10000000 then adr else unidentified

adrp_or : ℕ → Insn
adrp_or op = if masked op 0x9f000000 0x90000000 then adrp else unidentified

cbz_or : ℕ → Insn
cbz_or op = if masked op 0x7e000000 0x34000000 then cbz else unidentified

tbz_or : ℕ → Insn
tbz_or op = if masked op 0x7e000000 0x36000000 then tbz else unidentified

ldr_or : ℕ → Insn
ldr_or op = if masked op 0xbb000000 0x18000000 then ldr_literal else unidentified

case_0 : ℕ → Insn
unfolding adr_or ldr_or
case_0 op =
    let s = bit_and (op >>> 26) 3 in
    if s == 0
    then adr_or op
    else if s == 1
    then (if masked op 0xfc000000 0x14000000 then b else unidentified)
    else ldr_or op

case_1 : ℕ → Insn
unfolding adr_or cbz_or tbz_or
case_1 op =
    let s = bit_and (op >>> 25) 3 in
    if s == 0
    then adr_or op
    else if s == 1
    then unidentified
    else if s == 2
    then cbz_or op
    else tbz_or op

case_2 : ℕ → Insn
unfolding adr_or ldr_or
case_2 op =
    let s = bit_and (op >>> 26) 3 in
    if s == 0
    then adr_or op
    else if s == 1
    then (if masked op 0xff000010 0x54000000 then bcc else unidentified)
    else ldr_or op

case_4 : ℕ → Insn
unfolding adrp_or
case_4 op =
    let s = bit_and (op >>> 26) 3 in
    if s == 0
    then adrp_or op
    else if s == 1
    then (if masked op 0xfc000000 0x94000000 then bl else unidentified)
    else if masked op 0xfb000000 0x98000000
    then ldr_literal
    else unidentified

case_5 : ℕ → Insn
unfolding adrp_or cbz_or tbz_or
case_5 op =
    let s = bit_and (op >>> 25) 3 in
    if s == 0
    then adrp_or op
    else if s == 1
    then unidentified
    else if s == 2
    then cbz_or op
    else tbz_or op

case_6 : ℕ → Insn
unfolding adrp_or
case_6 op =
    let s = bit_and (op >>> 22) 0xf in
    if s == 0 || s == 1 || s == 2 || s == 3
    then adrp_or op
    else if s == 8
    then (if masked op 0xfffffc1f 0xd63f0000 then blr else unidentified)
    else if s == 9
    then (if masked op 0xfffffc1f 0xd65f0000 || masked op 0xfffffbff 0xd65f0bff
        then blr
        else unidentified)
    else unidentified

unfoldable pub find_insn : ℕ → Insn
unfolding case_0 case_1 case_2 case_4 case_5 case_6 adr_or adrp_or
find_insn op =
    let s = bit_and (op >>> 29) 7 in
    if s == 0
    then case_0 op
    else if s == 1
    then case_1 op
    else if s == 2
    then case_2 op
    else if s == 3
    then adr_or op
    else if s == 4
    then case_4 op
    else if s == 5
    then case_5 op
    else if s == 6
    then case_6 op
    else adrp_or op
