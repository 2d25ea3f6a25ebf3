-- ===== src/Arm64/JumpPatch/Jumps.antt =====
-- What a jump patch does when it runs where it was made for, and how long it is.
use substitute.Common.{
  ℕ, ◌+◌, ◌*◌, ◌/◌, ◌%◌, ◌^◌, ◌<◌, ◌≤◌, ◌≡◌, refl, arith, ==_ne, true, false, inl, inr, Bool-cases,
  ◌==◌, ==_refl, if◌then◌else◌, List, [], ◌++◌, length, length-append, some, Bool, Option-cases,
  bit_and, u32, u64, ◌≢◌,
}
use mathlib.Core.List.{append-nil}
use substitute.Common.Bits.{bit_and_mask}
use substitute.Dis.{op32}
use substitute.Arm64.Assemble.{
  adrp_add, adrp_op, add_op, page_diff, mov_i64, br, get_unwritten_temp_reg, size_of_mov_i64,
}
use substitute.Arm64.Assemble.Execute.{execute-op32_jump, length-op32}
use substitute.Arm64.Assemble.MoveWide.{Loads, Loads-nil, Loads-cons, mov_i64-Loads}
use substitute.Arm64.Assemble.Register.{
  get_unwritten_temp_reg-some, get_unwritten_temp_reg-none_iff,
}
use substitute.Arm64.Assemble.Sizes.{length-mov_i64, size_of_mov_i64-le}
use substitute.Arm64.JumpPatch.Adrp.{
  step-adrp, adrp_op-lt, step-add, add_op-lt, step-br, br_op, br_op-lt, br-br_op,
}
use substitute.Arm64.JumpPatch.{in_range, jump_patch_size, make_jump_patch, max_jump_patch_size}
use substitute.Arm64.Machine.{Machine, write, jump, execute}

low_bits : (dpc : ℕ) → u32 (bit_and dpc 0xfff) ≡ dpc % 4096
low_bits dpc = omega (arith, bit_and_mask 12 dpc)

-- `ADRP_ADD` leaves the target in the register where it is within 4 GB of the code.
adrp_add-Loads :
    (reg pc dpc : ℕ) (m : Machine)
    → reg < 31
    → pc < 2 ^ 64
    → dpc < 2 ^ 64
    → m.pc ≡ pc
    → in_range (page_diff pc dpc) ≡ true
    → Loads (adrp_add reg pc dpc) reg dpc m
unfolding adrp_add
adrp_add-Loads reg pc dpc m h hp hd e r =
    let page = dpc / 4096 * 4096 in
    let lo = dpc % 4096 in
    let m' : Machine = record { x = write m.x reg page; pc = m.pc + 4 } in
    let whole : u64 (page + lo) ≡ dpc = omega arith in
    rw (low_bits dpc) (
      Loads-cons (adrp_op reg (page_diff pc dpc)) page reg dpc _ m (adrp_op-lt reg _ h)
        (step-adrp reg h pc dpc m hp hd e r)
        (elim (Bool-cases (lo == 0)) [
          | inl aligned ↦
              let same : page ≡ dpc = ground arith in
              rw aligned (Loads-nil reg dpc m' (rw (==_refl, same) refl))
          | inr low ↦
              rw (low, ← append-nil (op32 (add_op reg lo)))
                (Loads-cons (add_op reg lo) dpc reg dpc [] m' (add_op-lt reg h lo (omega arith))
                  (rw (==_refl, whole) at (step-add reg h lo m' (omega arith)))
                  (Loads-nil reg dpc _ (rw ==_refl refl)))
        ]))

-- `code` sends the machine to `dpc`, and may change the register `reg` on the way, and no other.
pub record JumpsTo (dpc reg : ℕ) (code : List ℕ) (m : Machine) : Type 0 where
  pub after : Machine
  pub jumps : execute code m ≡ jump after
  pub target : after.pc ≡ dpc
  pub keeps : (r : ℕ) → r ≢ reg → after.x r ≡ m.x r

pub Loads-br :
    (reg dpc : ℕ) (code : List ℕ) (m : Machine)
    → reg < 31
    → Loads code reg dpc m
    → JumpsTo dpc reg (code ++ br reg false) m
Loads-br reg dpc code m h l = record {
  after = record { x = l.after.x; pc = l.after.x reg };
  jumps =
      rw (br-br_op reg h, l.runs, ← append-nil (op32 (br_op reg h)))
        (execute-op32_jump (br_op reg h) [] l.after (br_op-lt reg h) (step-br reg h l.after));
  target = rw (l.value reg, ==_refl);
  keeps = λ r ne. rw (l.value r, ==_ne _ _ ne);
}

-- What `make_jump_patch` writes between its registers and its `br`.
target_code : ℕ → ℕ → ℕ → List ℕ
target_code pc dpc reg =
    if in_range (page_diff pc dpc) then adrp_add reg pc dpc else mov_i64 reg dpc

make_jump_patch-some :
    (pc dpc regs : ℕ) (code : List ℕ)
    → make_jump_patch pc dpc regs ≡ some code
    → (reg : ℕ) × (get_unwritten_temp_reg regs ≡ some reg)
      × (code ≡ target_code pc dpc reg ++ br reg false)
unfolding make_jump_patch target_code
make_jump_patch-some pc dpc regs code h = elim (Option-cases (get_unwritten_temp_reg regs)) [
  | inl e ↦ let h' = rw (e, make_jump_patch) at h in cc
  | inr (reg, e) ↦ (reg, e, let h' = rw (e, make_jump_patch) at h in cc)
]

target_code-Loads :
    (reg pc dpc : ℕ) (m : Machine)
    → reg < 31
    → pc < 2 ^ 64
    → dpc < 2 ^ 64
    → m.pc ≡ pc
    → Loads (target_code pc dpc reg) reg dpc m
unfolding target_code
target_code-Loads reg pc dpc m h hp hd e = elim (Bool-cases (in_range (page_diff pc dpc))) [
  | inl near ↦ rw near (adrp_add-Loads reg pc dpc m h hp hd e near)
  | inr far ↦ rw far (mov_i64-Loads reg dpc m h hd)
]

make_jump_patch-code :
    (pc dpc regs reg : ℕ)
    → get_unwritten_temp_reg regs ≡ some reg
    → make_jump_patch pc dpc regs ≡ some (target_code pc dpc reg ++ br reg false)
unfolding make_jump_patch target_code
make_jump_patch-code pc dpc regs reg h = rw (h, make_jump_patch) refl

-- The code that was made, the register it goes through, and what it does.
pub record Redirects (pc dpc regs : ℕ) (m : Machine) : Type 0 where
  pub code : List ℕ
  pub made : make_jump_patch pc dpc regs ≡ some code
  pub reg : ℕ
  pub low : 9 ≤ reg
  pub high : reg ≤ 17
  pub free : regs / 2 ^ reg % 2 ≡ 0
  pub jumps_to : JumpsTo dpc reg code m

-- Unless the mask of 32 bits has all of x9 to x17 there is a patch from `pc` to `dpc`, wherever in
-- the 64-bit address space these are. Run at `pc`, it jumps to `dpc` and changes one register,
-- which is one of x9 to x17 and not in the mask.
pub make_jump_patch-JumpsTo :
    (pc dpc regs : ℕ) (m : Machine)
    → pc < 2 ^ 64
    → dpc < 2 ^ 64
    → regs < 2 ^ 32
    → regs / 512 % 512 ≢ 511
    → m.pc ≡ pc
    → Redirects pc dpc regs m
make_jump_patch-JumpsTo pc dpc regs m hp hd hr some_free e =
    elim (Option-cases (get_unwritten_temp_reg regs)) [
      | inl none_free ↦ absurd (some_free ((get_unwritten_temp_reg-none_iff regs hr).0 none_free))
      | inr (reg, picked) ↦
          let (lo, hi, unused) = get_unwritten_temp_reg-some regs reg hr picked in
          let loads = target_code-Loads reg pc dpc m (omega arith) hp hd e in
          record {
            code = _;
            made = make_jump_patch-code pc dpc regs reg picked;
            reg = reg;
            low = lo;
            high = hi;
            free = unused;
            jumps_to = Loads-br reg dpc _ m (omega arith) loads;
          }
    ]

length-br : (reg : ℕ) → length (br reg false) ≡ 4
unfolding br
length-br reg = refl

length-adrp_add :
    (reg pc dpc : ℕ) → length (adrp_add reg pc dpc) ≡ (if dpc % 4096 == 0 then 4 else 8)
unfolding adrp_add
length-adrp_add reg pc dpc =
    rw (low_bits dpc, length-append, length-op32)
      (elim (Bool-cases (dpc % 4096 == 0)) [ inl e ↦ rw e refl | inr e ↦ rw (e, length-op32) refl ])

length-target_code :
    (reg pc dpc : ℕ)
    → dpc < 2 ^ 64
    → length (target_code pc dpc reg) ≡ (
        if in_range (page_diff pc dpc)
        then (if dpc % 4096 == 0 then 4 else 8)
        else size_of_mov_i64 dpc)
unfolding target_code
length-target_code reg pc dpc hd = elim (Bool-cases (in_range (page_diff pc dpc))) [
  | inl e ↦ rw e (length-adrp_add reg pc dpc)
  | inr e ↦ rw e (length-mov_i64 reg dpc hd)
]

jump_patch_size-cases :
    (pc dpc n : ℕ) (force : Bool)
    → jump_patch_size pc dpc force ≡ some n
    → n ≡ (
        if in_range (page_diff pc dpc)
        then (if dpc % 4096 == 0 then 8 else 12)
        else size_of_mov_i64 dpc + 4)
unfolding jump_patch_size
jump_patch_size-cases pc dpc n force h = ground (arith, bit_and_mask 12 dpc)

-- Where `jump_patch_size` announces a length, forced or not, and a patch to that 64-bit address is
-- made, the patch has exactly that length and fits the buffer of `MAX_JUMP_PATCH_SIZE` bytes.
pub length-make_jump_patch :
    (pc dpc regs n : ℕ) (force : Bool) (code : List ℕ)
    → dpc < 2 ^ 64
    → jump_patch_size pc dpc force ≡ some n
    → make_jump_patch pc dpc regs ≡ some code
    → (length code ≡ n) × (n ≤ max_jump_patch_size)
length-make_jump_patch pc dpc regs n force code hd size made =
    let (reg, _, is_code) = make_jump_patch-some pc dpc regs code made in
    rw (is_code, length-append, length-target_code reg pc dpc hd)
      (ground (
        arith,
        jump_patch_size-cases pc dpc n force size,
        length-br reg,
        size_of_mov_i64-le dpc hd,
      ))
