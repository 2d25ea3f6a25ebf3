-- ===== src/Darwin/Interpose.antt =====
-- `try_bind_section` of lib/darwin/interpose.c on a 64-bit system. The section is the list of its
-- bytes; memory is a word of 64 bits at an address, whose low half a relocation of 32 bits
-- exchanges. What <mach-o/loader.h> says of a byte is a parameter: its opcode, its immediate, and
-- the meaning of a relocation type.
pub mod Advances
pub mod Ends
use substitute.Common.{
  ℕ, zero, suc, ◌+◌, ◌-◌, ◌*◌, ◌/◌, ◌%◌, ◌^◌, List, [], ◌∷◌, Bool, true, false, not, ◌&&◌, ◌||◌,
  Option, none, some, if◌then◌else◌, ◌==◌, ltb, get_elem?, length, u32, u64, sub64,
}
use substitute.Darwin.Read.{read_leb128, read_cstring}

-- The opcodes that the switch names; `other` is any that it does not.
pub data BindOpcode : Type 0 where
  done set_dylib set_dylib_uleb set_symbol set_type set_addend set_segment : BindOpcode
  add_addr do_bind do_bind_add_addr do_bind_scaled do_bind_times other : BindOpcode

pub data BindType : Type 0 where
  pointer text_absolute_32 text_pcrel_32 unknown_type : BindType

-- `struct substitute_import_hook`; `old_ptr` is none where it is NULL.
pub record ImportHook : Type 0 where
  pub name : List ℕ
  pub replacement : ℕ
  pub old_ptr : Option ℕ

-- The variables of the loop, with the memory. `sym` and `segment` are none where they are NULL, and
-- `added_offset` where it has no value yet.
pub record Bind : Type 0 where
  pub sym : Option (List ℕ)
  pub type : ℕ
  pub addend : ℕ
  pub offset : ℕ
  pub added_offset : Option ℕ
  pub segment : Option ℕ
  pub memory : ℕ → ℕ

-- The next byte to read and the variables; a panic; or a variable that is used without a value.
pub data BindStep : Type 0 where
  goes : List ℕ → Bind → BindStep
  panics no_value : BindStep

pub data BindEnd : Type 0 where
  bound : Bind → BindEnd
  bind_panics bind_no_value bind_out_of_fuel : BindEnd

unfoldable pub store : (ℕ → ℕ) → ℕ → ℕ → ℕ → ℕ
store memory p v a = if a == p then v else memory a

-- `strcmp` of two strings without their terminators.
unfoldable pub same_name : List ℕ → List ℕ → Bool
same_name [] [] = true
same_name [] (y ∷ ys) = false
same_name (x ∷ xs) [] = false
same_name (x ∷ xs) (y ∷ ys) = (x == y) && same_name xs ys

unfoldable pub find_hook : List ImportHook → List ℕ → Option ImportHook
find_hook [] sym = none
find_hook (h ∷ hooks) sym = if same_name sym h.name then some h else find_hook hooks sym

unfoldable pub low_half : ℕ → ℕ → ℕ
low_half word v = word / 2 ^ 32 * 2 ^ 32 + v

-- The old value and the memory; none is a panic. A word belongs to one address: that the places a
-- section binds do not overlap is not looked at.
unfoldable pub exchange : BindType → (ℕ → ℕ) → ℕ → ℕ → Option (ℕ × (ℕ → ℕ))
exchange pointer memory p new = some (memory p, store memory p new)
exchange text_absolute_32 memory p new =
    if u32 new == new then some (u32 (memory p), store memory p (low_half (memory p) new)) else none
exchange text_pcrel_32 memory p new =
    let pc = u64 (p + 4) in
    let rel = sub64 new pc in
    if u32 rel == rel
    then some (u64 (u32 (memory p) + pc), store memory p (low_half (memory p) rel))
    else none
exchange unknown_type memory p new = none

unfoldable pub give_old : Option ℕ → (ℕ → ℕ) → ℕ → ℕ → ℕ
give_old none memory old = memory
give_old (some q) memory old = store memory q old

-- `while (count--)`: the offset and the memory.
unfoldable pub exchange_all :
    ImportHook → BindType → ℕ → ℕ → ℕ → ℕ → ℕ → (ℕ → ℕ) → Option (ℕ × (ℕ → ℕ))
exchange_all h type addend segment stride zero offset memory = some (offset, memory)
exchange_all h type addend segment stride (suc count) offset memory =
    elim (exchange type memory (u64 (segment + offset)) (u64 (h.replacement + addend))) [
      | none ↦ none
      | some (old, changed) ↦
          exchange_all h type addend segment stride count (u64 (offset + stride))
            (give_old h.old_ptr changed (sub64 old addend))
    ]

-- A number of the stream, or what the variable had.
unfoldable pub number_or : List ℕ → Bool → ℕ → ℕ × List ℕ
number_or bytes is_signed old = elim (read_leb128 bytes is_signed) [
  | none ↦ (old, bytes)
  | some (v, rest) ↦ (v, rest)
]

module _ (opcode_of : ℕ → BindOpcode) (immediate_of : ℕ → ℕ) (type_of : ℕ → BindType)
    (segments : List ℕ) (slide : ℕ) (hooks : List ImportHook) where
  -- The hook of the symbol, if there is a segment and a symbol.
  unfoldable pub hook_of : Bind → Option (ℕ × ImportHook)
  hook_of b = elim b.segment [
    | none ↦ none
    | some segment ↦ elim b.sym [
      | none ↦ none
      | some sym ↦ elim (find_hook hooks sym) [ none ↦ none | some h ↦ some (segment, h) ]
    ]
  ]

  -- From the label `bind` on; none is a panic.
  unfoldable pub bind : ℕ → ℕ → Bind → Option Bind
  bind count stride b = elim (hook_of b) [
    | none ↦ some (record b { offset = u64 (b.offset + u64 (count * stride)) })
    | some (segment, h) ↦
        elim (exchange_all h (type_of b.type) b.addend segment stride count b.offset b.memory) [
          | none ↦ none
          | some (offset, memory) ↦ some (record b { offset = offset; memory = memory })
        ]
  ]

  unfoldable pub bind_then : List ℕ → ℕ → ℕ → Bind → BindStep
  bind_then bytes count stride b = elim (bind count stride b) [
    | none ↦ panics
    | some next ↦ goes bytes next
  ]

  unfoldable pub segment_at : Option ℕ → Option ℕ → Option ℕ
  segment_at old none = old
  segment_at old (some vmaddr) = let s = u64 (vmaddr + slide) in if s == 0 then none else some s

  unfoldable pub set_segment_to : ℕ → Bind → ℕ × List ℕ → BindStep
  set_segment_to byte b (offset, left) = goes left (record b {
    segment = segment_at b.segment (get_elem? segments (immediate_of byte));
    offset = offset;
  })

  unfoldable pub add_to_offset : Bind → Option ℕ → List ℕ → BindStep
  add_to_offset b none left = no_value
  add_to_offset b (some added) left =
      goes left (record b { added_offset = some added; offset = u64 (b.offset + added) })

  unfoldable pub bind_strided : ℕ → Bind → Option (ℕ × List ℕ) → BindStep
  bind_strided count b none = no_value
  bind_strided count b (some (stride, left)) = bind_then left count (u64 (stride + 8)) b

  unfoldable pub bind_counted : Bind → Option (ℕ × List ℕ) → BindStep
  bind_counted b none = no_value
  bind_counted b (some (count, left)) = bind_strided count b (read_leb128 left false)

  unfoldable pub set_symbol_to : List ℕ → Bind → Option (List ℕ × List ℕ) → BindStep
  set_symbol_to rest b none = goes rest b
  set_symbol_to rest b (some (s, left)) = goes left (record b { sym = some s })

  unfoldable pub step : BindOpcode → ℕ → List ℕ → Bind → BindStep
  step done byte rest b = goes rest b
  step set_dylib byte rest b = goes rest b
  step other byte rest b = goes rest b
  step set_dylib_uleb byte rest b = goes (number_or rest false 0).1 b
  step set_symbol byte rest b = set_symbol_to rest b (read_cstring rest)
  step set_type byte rest b = goes rest (record b { type = immediate_of byte })
  step set_addend byte rest b =
      goes (number_or rest true b.addend).1 (record b { addend = (number_or rest true b.addend).0 })
  step set_segment byte rest b = set_segment_to byte b (number_or rest false b.offset)
  step add_addr byte rest b = elim (read_leb128 rest false) [
    | none ↦ add_to_offset b b.added_offset rest
    | some (added, left) ↦ add_to_offset b (some added) left
  ]
  step do_bind byte rest b = bind_then rest 1 8 b
  step do_bind_add_addr byte rest b = bind_strided 1 b (read_leb128 rest false)
  step do_bind_scaled byte rest b = bind_then rest 1 (immediate_of byte * 8 + 8) b
  step do_bind_times byte rest b = bind_counted b (read_leb128 rest false)

  -- Each round reads a byte at least, so there is a round for each byte.
  unfoldable pub bind_all : ℕ → List ℕ → Bind → BindEnd
  bind_all fuel [] b = bound b
  bind_all zero (byte ∷ rest) b = bind_out_of_fuel
  bind_all (suc fuel) (byte ∷ rest) b = elim (step (opcode_of byte) byte rest b) [
    | goes left next ↦ bind_all fuel left next
    | panics ↦ bind_panics
    | no_value ↦ bind_no_value
  ]

  -- `type_pointer` is BIND_TYPE_POINTER.
  unfoldable pub try_bind_section : ℕ → List ℕ → Bool → (ℕ → ℕ) → BindEnd
  try_bind_section type_pointer section lazy memory = bind_all (length section) section (record {
    sym = none;
    type = if lazy then type_pointer else 0;
    addend = 0;
    offset = 0;
    added_offset = none;
    segment = none;
    memory = memory;
  })
