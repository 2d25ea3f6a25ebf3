-- ===== src/Darwin/Tests.antt =====
-- A number of three digits, read back, and a section that binds a hooked symbol.
use substitute.Common.{
  ℕ, ◌/◌, ◌%◌, ◌≡◌, refl, arith, List, [], ◌∷◌, ◌++◌, false, none, some, if◌then◌else◌, ◌==◌,
}
use substitute.Darwin.Interpose.{BindOpcode, BindType, ImportHook, Bind, bind}
use substitute.Darwin.Interpose.BindOpcode.{set_symbol, set_type, set_segment, do_bind, other}
use substitute.Darwin.Interpose.BindType.{pointer, unknown_type}
use substitute.Darwin.Interpose.Advances.{bind-advances}
use substitute.Darwin.Read.{read_leb128}
use substitute.Darwin.Read.Uleb.{uleb, read_leb128-uleb}

read_leb128-uleb_example :
    read_leb128 (uleb 10 624485 ++ (0x70 ∷ [])) false ≡ some (624485, 0x70 ∷ [])
read_leb128-uleb_example = read_leb128-uleb 624485 (0x70 ∷ []) (omega arith)

-- Some of the opcodes of <mach-o/loader.h>.
abbrev opcode_of : ℕ → BindOpcode
opcode_of byte =
    if byte / 16 == 4
    then set_symbol
    else if byte / 16 == 5
    then set_type
    else if byte / 16 == 7
    then set_segment
    else if byte / 16 == 9
    then do_bind
    else other

abbrev immediate_of : ℕ → ℕ
immediate_of byte = byte % 16

abbrev type_of : ℕ → BindType
type_of n = if n == 1 then pointer else unknown_type

abbrev hooks : List ImportHook
hooks = record { name = 0x66 ∷ []; replacement = 0x5000; old_ptr = some 0x9000 } ∷ []

abbrev at_bind : Bind
at_bind = record {
  sym = some (0x66 ∷ []);
  type = 1;
  addend = 0;
  offset = 0x10;
  added_offset = none;
  segment = some 0x1000;
  memory = λ a. a;
}

bind-advances_example :
    (memory : ℕ → ℕ) × (bind opcode_of immediate_of type_of (0x1000 ∷ []) 0 hooks 3 16 at_bind
      ≡ some (record at_bind { offset = 0x40; memory = memory }))
bind-advances_example =
    bind-advances opcode_of immediate_of type_of (0x1000 ∷ []) 0 hooks 3 16 at_bind refl
      (omega arith)
