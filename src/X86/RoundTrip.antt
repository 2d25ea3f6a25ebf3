-- ===== src/X86/RoundTrip.antt =====
-- What the disassembler reads of a jump that the jump patch writes.
use mathlib.Core.Path.{◌∙◌, ap}
use substitute.Common.{
  ℕ, ◌+◌, ◌/◌, ◌%◌, ◌^◌, ◌<◌, ◌≤◌, ◌≡◌, ◌⊎◌, inl, inr, refl, arith, List, [], ◌∷◌, Bool, true,
  false, some, u32, u64, sub64, get_or, drop, length, Bool-cases, le32, of_le32, of_le32-le32,
}
use substitute.Dis.{op8, op32, op64}
use substitute.Dis.Event.{branch, pcrel}
use substitute.X86.Onebyte.{onebyte_bits}
use substitute.X86.JumpPatch.{
  fits_32, jump_patch_size, make_jmp_or_call, make_jump_patch, max_jump_patch_size,
}
use substitute.X86.Decode.{
  Dis, plain, group_ff_bits, special, step, opcode_from, has_modrm, mod_of, rm_of, modrm_size,
  imm_off, imm_size, op_size, signed_32, jump_imm, jump_cc, is_pcrel, pcrel_event, events, dis,
}
use substitute.X86.Decode.Dis.{decoded}

abbrev pub reading : List ℕ → ℕ → ℕ
reading code off = get_or code off 0

-- `e9` and a 32-bit number.
abbrev near_bytes : ℕ → List ℕ
near_bytes v = 0xe9 ∷ le32 v

abbrev word_of : ℕ → ℕ
word_of v = of_le32 (v % 256) (v / 256 % 256) (v / 65536 % 256) (v / 16777216 % 256)

dis-near_bytes :
    (pc v : ℕ)
    → dis (reading (near_bytes v)) 1 pc
      ≡ decoded 5 (branch (u64 (pc + 5 + signed_32 (reading (near_bytes v)) (word_of v))) 0 ∷ [])
unfolding dis opcode_from step plain onebyte_bits events jump_imm jump_cc imm_off imm_size
    modrm_size has_modrm op_size
dis-near_bytes pc v = refl

signed_32-sign_extend_32 :
    (read : ℕ → ℕ) (diff : ℕ) → fits_32 diff ≡ true → signed_32 read (u32 diff) ≡ diff
unfolding signed_32 fits_32
signed_32-sign_extend_32 read diff h = ground arith

near-code :
    (pc dpc : ℕ)
    → fits_32 (sub64 dpc (u64 (pc + 5))) ≡ true
    → make_jmp_or_call pc dpc false ≡ near_bytes (u32 (sub64 dpc (u64 (pc + 5))))
unfolding make_jmp_or_call op8 op32
near-code pc dpc h = rw (h, make_jmp_or_call) refl

dis-near :
    (pc dpc : ℕ)
    → pc < 2 ^ 64
    → dpc < 2 ^ 64
    → fits_32 (sub64 dpc (u64 (pc + 5))) ≡ true
    → dis (reading (make_jump_patch pc dpc)) 1 pc ≡ decoded 5 (branch dpc 0 ∷ [])
dis-near pc dpc hp hd h =
    let diff = sub64 dpc (u64 (pc + 5)) in
    let read = reading (near_bytes (u32 diff)) in
    let word : word_of (u32 diff) ≡ u32 diff = of_le32-le32 (u32 diff) (omega arith) in
    let offset : signed_32 read (word_of (u32 diff)) ≡ diff =
      ap (signed_32 read) word ∙ signed_32-sign_extend_32 read diff h in
    let target : u64 (pc + 5 + diff) ≡ dpc = omega arith in
    rw (near-code pc dpc h, dis-near_bytes pc (u32 diff), offset, target) refl

-- `ff 25`, a displacement of 0 and the target.
far-code :
    (pc dpc : ℕ)
    → fits_32 (sub64 dpc (u64 (pc + 5))) ≡ false
    → make_jmp_or_call pc dpc false ≡ 0xff ∷ 0x25 ∷ 0 ∷ 0 ∷ 0 ∷ 0 ∷ op64 dpc
unfolding make_jmp_or_call op8 op32
far-code pc dpc h = rw (h, make_jmp_or_call) refl

dis-far_bytes :
    (pc : ℕ) (rest : List ℕ)
    → dis (reading (0xff ∷ 0x25 ∷ 0 ∷ 0 ∷ 0 ∷ 0 ∷ rest)) 1 pc
      ≡ decoded 6 (pcrel (u64 (pc + 6 + 0)) (record { reg = 4; is_jump = true }) ∷ [])
unfolding dis opcode_from step special plain group_ff_bits onebyte_bits events is_pcrel pcrel_event
    imm_off imm_size modrm_size mod_of rm_of signed_32 has_modrm op_size
dis-far_bytes pc rest = refl

-- What is read of a jump: its target, or the place of its target, where the code has the target.
pub Reads : ℕ → ℕ → Dis → List ℕ → Type 0
Reads pc dpc result code =
    (result ≡ decoded 5 (branch dpc 0 ∷ []))
    ⊎ ((result ≡ decoded 6 (pcrel (u64 (pc + 6)) (record { reg = 4; is_jump = true }) ∷ []))
        × (drop 6 code ≡ op64 dpc))

-- The disassembler reads a jump patch between two 64-bit addresses as a jump to the target: directly,
-- or through the eight bytes behind the instruction, which are the target.
pub dis-make_jump_patch :
    (pc dpc : ℕ)
    → pc < 2 ^ 64
    → dpc < 2 ^ 64
    → Reads pc dpc (dis (reading (make_jump_patch pc dpc)) 1 pc) (make_jump_patch pc dpc)
unfolding Reads
dis-make_jump_patch pc dpc hp hd = elim (Bool-cases (fits_32 (sub64 dpc (u64 (pc + 5))))) [
  | inl near ↦ inl (dis-near pc dpc hp hd near)
  | inr far ↦
      let here : pc + 6 + 0 ≡ pc + 6 = omega arith in
      rw (far-code pc dpc far) (inr (rw here at (dis-far_bytes pc (op64 dpc)), refl))
]

-- A patch or a call has exactly the length that is announced, if it is forced, and fits the buffer of
-- `MAX_JUMP_PATCH_SIZE` bytes.
pub length-make_jmp_or_call :
    (pc dpc n : ℕ) (call : Bool)
    → jump_patch_size pc dpc true ≡ some n
    → (length (make_jmp_or_call pc dpc call) ≡ n) × (n ≤ max_jump_patch_size)
unfolding jump_patch_size make_jmp_or_call op8 op32 op64
length-make_jmp_or_call pc dpc n call h = elim (Bool-cases (fits_32 (sub64 dpc (u64 (pc + 5))))) [
  | inl near ↦
      let h' = rw (near, jump_patch_size) at h in
      let five : n ≡ 5 = cc in rw (near, five) (refl, omega arith)
  | inr far ↦
      let h' = rw (far, jump_patch_size) at h in
      let long : n ≡ 14 = cc in rw (far, long) (refl, omega arith)
]
