-- ===== src/Lib.antt =====
-- substitute, a library that hooks functions by writing a jump over their first instructions. This
-- is its verification library: the code that reads, writes, searches and rewrites AArch64, x86-64 and
-- ARM machine code, and the loop that hooks functions with it.
--
-- How the program works. A hook is a jump patch at the start of a function (lib/arm64/jump-patch.h,
-- written by lib/arm64/assemble.h). Before it is put there, lib/jump-dis.c looks through the
-- function for jumps back into the bytes that the patch covers, and lib/transform-dis.c rewrites
-- the instructions under it so that they can run elsewhere. Both passes read instructions by
-- lib/arm64/dis-main.inc.h, which includes the generated tree of switches
-- generated/generic-dis-arm64.inc.h and calls a function of the pass for each branch, PC-relative
-- access or return.
--
-- Which file models which part:
--   Common: the machine's words over the natural numbers, lists, and the bit laws.
--   Dis: lib/dis.h. A function that writes at `*codep` is the list of bytes that it writes.
--   Arm64/Assemble: lib/arm64/assemble.h and the registers of lib/arm64/arch-dis.h.
--   Arm64/JumpPatch: lib/arm64/jump-patch.h (`jump_patch_size`, `make_jump_patch`).
--   Arm64/Tree: generated/generic-dis-arm64.inc.h; `find_insn` is the switch from its top.
--   Arm64/Decode: lib/arm64/dis-main.inc.h. A call of the pass is the `Event` it hands over, and
--     `dis` is `P(dis)`.
--   Arm64/Machine: what the architecture says of the instructions written. It models no file.
--   JumpDis: lib/jump-dis.c; `Ctx` is `struct jump_dis_ctx`, and `handle` is the functions
--     `jump_dis_pcrel`, `jump_dis_branch`, `jump_dis_ret` and so on.
--   TransformDis: lib/transform-dis.c with lib/arm64/arch-transform-dis.inc.h; `Ctx` is `struct
--     transform_dis_ctx`, `on_event` is the functions `transform_dis_pcrel`, `transform_dis_branch`
--     and so on, and the buffer is the list of the bytes put out.
--   Hooks: of lib/hook-functions.c, `pc_callback` and `check_intro_trampoline`, with
--     `execmem_alloc_unsealed` and `execmem_free` of lib/darwin/execmem.c. `mmap`, `munmap` and the
--     size of a page are parameters, on a state of the system.
--   Hooks/Loop: `substitute_hook_functions` of lib/hook-functions.c on AArch64. Each stretch of its
--     first loop is a function that ends in the next one, in an error or in an abort; `commit` is the
--     second loop. The code of the functions is read through a function from addresses to words;
--     `execmem_foreign_write_with_pc_patch`, `execmem_seal`, `pthread_main_np` and `malloc` are
--     parameters.
--   X86: lib/x86 for x86-64. JumpPatch is jump-patch.h; Flags, Onebyte, Twobyte and Decode are
--     dis-main.inc.h, of which `step` is one pass from the label `restart` and `events` the calls of
--     the pass; Newop is the new instruction that it builds; Transform is lib/transform-dis.c with
--     arch-transform-dis.inc.h.
--   Arm: Assemble is lib/arm/assemble.h, whose context is `struct assemble_ctx`, and JumpPatch is
--     lib/arm/jump-patch.h. Context is lib/arm/arch-dis.h and the macros `data` and `r` of lib/dis.h.
--     Dis is lib/arm/dis-main.inc.h; its ArmMode, Thumb and Thumb2 are dis-arm.inc.h,
--     dis-thumb.inc.h and dis-thumb2.inc.h, where `handle` is what a leaf of the tree calls. The
--     trees themselves, generated/generic-dis-arm.inc.h and the two beside it, are data of the form
--     that Switch describes, with a definition for each larger part; `find` follows one for a word,
--     and Switch/Check has the way in which statements on a whole tree are computed. Transform is
--     lib/arm/arch-transform-dis.inc.h with the calls of lib/transform-dis.c: State is its context,
--     Data `transform_dis_data`, and `pre_dis` and `post_dis` frame an instruction.
--   Darwin/Read: lib/darwin/read.c and lib/darwin/read.h; what is left to read is a list of bytes.
--   Darwin/Interpose: `try_bind_section` of lib/darwin/interpose.c, whose `step` is one round of its
--     loop; what the system's headers say of the opcodes is a parameter.
--   Cbit/Vec: lib/cbit/vec.h and lib/cbit/vec.c. A block is the list of its cells, and an access
--     beyond them is an outcome.
--
-- Numbers. Every number is natural, and what a C type holds is written out: `u32` and `u64` cut a
-- result to its width, and a negative value of 64 bits is its pattern. `none` is an abort, or the
-- -1 of `jump_patch_size`.
--
-- Fuel. `mov_loop` has four rounds, for the four halfwords of 64 bits. `loop` has 513 rounds: each
-- round but the first is for an address that the mask of 512 indices has not let in before, and
-- `jump_dis_main-returns` shows that the fuel is never used up. `rewrite` has one round more than
-- the patch has bytes, and `transform_dis_main-Ends` shows the same of it. `bit_length` has the
-- width of its argument. On x86-64, `opcode_from` has a fuel for the prefixes of one instruction,
-- since the code follows them without end; where one of as many bytes is no prefix, `dis-decodes`
-- and `transform_dis_main-Rewrites` show that it is enough. `bind_all` has a round for each byte, and
-- each round reads one at least.
--
-- What is not modelled. The loop of the rewriting and the search for jumps on 32-bit ARM, 32-bit x86,
-- the search for jumps on x86-64, the hash table and the ring, and the parts that call the operating
-- system (writing to functions and moving threads, injection, the walk of an image's load commands,
-- symbol search, Objective-C).
pub mod Common
pub mod Dis
pub mod Cbit
pub mod Arm
pub mod Arm64
pub mod JumpDis
pub mod TransformDis
pub mod Hooks
pub mod X86
pub mod Darwin
