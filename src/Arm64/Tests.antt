-- ===== src/Arm64/Tests.antt =====
-- The AArch64 assembler and disassembler on single words and addresses.
use substitute.Common.{
  ℕ, ◌+◌, ◌/◌, ◌%◌, ◌^◌, ◌<◌, ◌≤◌, ◌≡◌, ◌≢◌, ◌↔◌, refl, arith, List, [], ◌∷◌, false, none, some,
  length, u64,
}
use substitute.Dis.{sext, op32}
use substitute.Dis.Event.{branch, pcrel}
use substitute.Arm64.Machine.{Machine, signed_offset}
use substitute.Arm64.Assemble.{
  bit_length, clz, mov_i64, size_of_mov_i64, page_diff, adrp_op, add_op, adrp_add, br,
  get_unwritten_temp_reg,
}
use substitute.Arm64.Assemble.Register.{
  get_unwritten_temp_reg-some, get_unwritten_temp_reg-none_iff,
}
use substitute.Arm64.Assemble.MoveWide.{Loads, mov_i64-Loads}
use substitute.Arm64.Assemble.Sizes.{length-mov_i64}
use substitute.Arm64.JumpPatch.{in_range, jump_patch_size, make_jump_patch, max_jump_patch_size}
use substitute.Arm64.JumpPatch.Jumps.{Redirects, make_jump_patch-JumpsTo, length-make_jump_patch}
use substitute.Arm64.Tree.{Insn, find_insn}
use substitute.Arm64.Tree.Flat.{classify, find_insn-classify}
use substitute.Arm64.Decode.{Arm64Event, dis, cc_xbxz}
use substitute.Arm64.Decode.Targets.{sext-signed}
use substitute.Arm64.Decode.Pcrel.{pcrel_mode, dis-pcrel, dis-some}
use substitute.Arm64.Decode.Agrees.{branch_cc, dis-branch, dis-cbz_iff}

abbrev machine : Machine
machine = record { x = λ r. r; pc = 0x100001000 }

-- ADRP x17, ADD x17, BR x17.
abbrev near_patch : List ℕ
near_patch = 0x11 ∷ 0x00 ∷ 0x00 ∷ 0xb0 ∷ 0x31 ∷ 0x22 ∷ 0x00 ∷ 0x91 ∷ 0x20 ∷ 0x02 ∷ 0x1f ∷ 0xd6 ∷ []

near_patch_made : make_jump_patch 0x100001000 0x100002008 0 ≡ some near_patch
unfolding make_jump_patch in_range page_diff adrp_add adrp_op add_op br op32 get_unwritten_temp_reg
    clz bit_length
near_patch_made = refl

near_patch_sized : jump_patch_size 0x100001000 0x100002008 false ≡ some 12
unfolding jump_patch_size in_range page_diff
near_patch_sized = refl

make_jump_patch-JumpsTo_example : Redirects 0x100001000 0x100002008 0x20000 machine
make_jump_patch-JumpsTo_example =
    make_jump_patch-JumpsTo 0x100001000 0x100002008 0x20000 machine (omega arith) (omega arith)
      (omega arith) (omega arith) refl

get_unwritten_temp_reg-none_iff_example :
    (get_unwritten_temp_reg 0x3fe00 ≡ none) ↔ (0x3fe00 / 512 % 512 ≡ 511)
get_unwritten_temp_reg-none_iff_example = get_unwritten_temp_reg-none_iff 0x3fe00 (omega arith)

length-make_jump_patch_example : (length near_patch ≡ 12) × (12 ≤ max_jump_patch_size)
length-make_jump_patch_example =
    length-make_jump_patch 0x100001000 0x100002008 0 12 false near_patch (omega arith)
      near_patch_sized near_patch_made

mov_i64-Loads_example : Loads (mov_i64 9 0x123400005678) 9 0x123400005678 machine
mov_i64-Loads_example = mov_i64-Loads 9 0x123400005678 machine (omega arith) (omega arith)

length-mov_i64_example : length (mov_i64 9 0x123400005678) ≡ size_of_mov_i64 0x123400005678
length-mov_i64_example = length-mov_i64 9 0x123400005678 (omega arith)

picks_16 : get_unwritten_temp_reg 0x20000 ≡ some 16
unfolding get_unwritten_temp_reg clz bit_length
picks_16 = refl

get_unwritten_temp_reg-some_example : (9 ≤ 16) × (16 ≤ 17) × (0x20000 / 2 ^ 16 % 2 ≡ 0)
get_unwritten_temp_reg-some_example = get_unwritten_temp_reg-some 0x20000 16 (omega arith) picks_16

find_insn-classify_example : find_insn 0x54000040 ≡ classify 0x54000040
find_insn-classify_example = find_insn-classify 0x54000040 (omega arith)

bcc_classified : classify 0x54000040 ≡ Insn.bcc
unfolding classify
bcc_classified = refl

bcc-ne_cbz : classify 0x54000040 ≢ Insn.cbz
bcc-ne_cbz h = let h' = rw bcc_classified at h in cc

dis-branch_example :
    dis 0x1000 0x54000040
    ≡ some (branch (u64 (0x1000 + 8)) (branch_cc (classify 0x54000040) 0x54000040))
dis-branch_example =
    dis-branch 0x1000 0x54000040 8 (omega arith) bcc-ne_cbz (rw bcc_classified refl)

cbz_classified : classify 0x34100000 ≡ Insn.cbz
unfolding classify
cbz_classified = refl

-- `cbz w0`, 0x20000 bytes on.
dis-cbz_iff_example :
    (dis 0x1000 0x34100000 ≡ some (branch (u64 (0x1000 + 0x20000)) cc_xbxz))
    ↔ ((0x34100000 / 2 ^ 5 % 2 ^ 19 < 2 ^ 18) × (0x34100000 / 2 ^ 5 % 2 ^ 19 / 2 ^ 13 % 2 ≡ 0))
dis-cbz_iff_example =
    dis-cbz_iff 0x1000 0x34100000 0x20000 (omega arith) (omega arith) cbz_classified
      (rw cbz_classified refl)

ldr_classified : classify 0x58000049 ≡ Insn.ldr_literal
unfolding classify
ldr_classified = refl

-- `ldr x9`, from two instructions on.
dis-pcrel_example :
    dis 0x1000 0x58000049
    ≡ some (
        pcrel 0x1008 (record {
          reg = 0x58000049 % 32;
          load_mode = pcrel_mode (classify 0x58000049) 0x58000049;
        }))
dis-pcrel_example =
    dis-pcrel 0x1000 0x58000049 0x1008 (omega arith) (omega arith) (rw ldr_classified refl)

dis-some_example : (e : Arm64Event) × (dis 0x1000 0x58000049 ≡ some e)
dis-some_example = dis-some 0x1000 0x58000049 (omega arith)

sext-signed_example : sext 0x1fffff (20 + 1) ≡ signed_offset (20 + 1) 1 0x1fffff % 2 ^ 64
sext-signed_example = sext-signed 0x1fffff 20 (omega arith) (omega arith)
