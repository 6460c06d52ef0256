-- ===== src/Lib.antt =====
-- The runtime under a recompiled game of a console: the interpreter of the SPU, the console's second
-- processor, and the scheduler that runs the SPU's kernel and workloads on it; the system calls with
-- the kernel objects that they hand out; the command processor of the graphics chip, which the guest's
-- memory writes drive; and the functions of the game that were lifted by hand.
--
-- spu_interp.h declares the state of one SPU (registers, a local store of 256 KB, the registers of its
-- DMA engine, mailboxes) and spu_interp.cpp interprets its instructions. `spu_run` calls `spu_step`,
-- which fetches a word from the local store, decodes it and executes it; the channel instructions
-- reach the mailboxes and, through `mfc_execute`, the main memory, which nothing else touches.
-- spu_spurs.cpp runs two such contexts: that of the kernel, and that of a workload, which it loads and
-- runs when the kernel stops at the address of a slot.
--
-- Common: tests, ranges, byte memories with `memcpy`, integers, machine words, bitwise operations.
-- Boot: `elf_load` of main.cpp, which puts the ELF64 file of the game into the guest's memory, where
--   `vm_init` has committed it; Boot/Tests: a small file.
-- Spu/Reg, Spu/Context: `spu_reg_t`, its accessors, `spu_ctx_t`, `spu_ctx_init`. A register is a
--   function from a byte's index to the byte; memories are functions from addresses.
-- Spu/LocalStore: `ls_read32`, `ls_write32`, `ls_read128`, `ls_write128`.
-- Spu/Mfc: `mfc_execute`. Spu/Channel: `wrch`, `rdch`, `rchcnt`.
-- Spu/Shuffle, Spu/Quad: `do_shufb`, `gen_controls`, `q_shl_bytes` and its relatives.
-- Spu/Isa: one definition for each `case` of `spu_step`, and one table for each `switch`, in the files
--   of its formats: Rrr, Ri16 (with RI18), Ri10, and Rr with its groups.
-- Spu/Elf: `spu_load_elf`, which puts an ELF32 file into the local store and sets the program counter.
-- Spu/Step: the rest of `spu_step`, and `spu_run`.
-- Spu/Invariant: the invariant of the context, instruction by instruction, then for a step and a run.
-- Spu/Meaning: what instructions compute, as arithmetic on the elements of registers.
-- Spu/Tests: concrete programs and contexts.
-- Spurs/State, Spurs/Vertices: the globals of spu_spurs.cpp; the stream descriptor and the spheres.
-- Spurs/Workload: `spurs_run_workload`: the load, the registers, the rounds with the service of stop
--   0x3FFF. Spurs/Kernel: `spurs_start` with its burst, `spurs_kernel_thread`, and
--   `spurs_test_edge_geometry`. Spurs/Steady, Spurs/Within: what steps keep, and where writes stay.
-- Ppu/Rotate: the rotations of extra_funcs.cpp. Ppu/State: the registers of `ppu_context`, and the forms
--   of statements of the lifted functions with their meaning. Ppu/Lifted, Ppu/Loops, Ppu/Walk,
--   Ppu/Small: the functions, straight, with loops, over a list, and the wrappers and stubs. Ppu/Dispatch: the second table and
--   `ps3_indirect_call`.
-- Guest: the guest's memory in runtime_glue.cpp, `vm_read32` and its relatives, big-endian.
-- Rsx/State, Rsx/Handle, Rsx/Fifo: the command processor: its variables, `rsx_handle`, `rsx_process_fifo`.
--   A picture that is shown is recorded as an event, with its colour or its vertices.
-- Rsx/Write: `vm_write32`, which runs the commands when the put register is written. Rsx/Control: the
--   block of control registers. Rsx/Texture: `load_a3t_entry` from the header on, with the Morton order.
-- Lv2/Pool: the pool of kernel objects, which the system calls share: `pool_alloc`, `pool_get`,
--   `pool_free`. Lv2/Evq: the ring buffer of an event queue. Lv2/Threads: stacks and table of the threads.
-- Lv2/System, Lv2/Host: the state that the calls share, and the calls of the operating system.
-- Lv2/Call: `lv2_syscall`, one definition for each `case`, in files by the kind of the object.
-- Rsx/Tests, Lv2/Tests, Spurs/Tests, Ppu/Tests: command buffers, textures, a pool in use, system calls,
--   a run of the kernel, lifted functions.
--
-- A system call is a function from the caller's registers and the shared state to the new r3 and state.
-- Calls of one thread run one after the other; where a call blocks, the host's function takes the whole
-- state to that in which the call goes on, so that other threads may have run meanwhile. Results of a call
-- other than returning are values (Common/Outcome): a thread that ends, a loop that is still running,
-- an access through a null pointer or to a union member that is not the one written last.
--
-- A `uint32_t` is a number below 2 ^ 32, with `% 2 ^ 32` where the code wraps. In Spu the result `none`,
-- and `undefined` of the loader, is an access that C leaves undefined: out of an array, or a
-- `memcpy` between regions that overlap. The loop of `spu_run` recurs on the instructions left
-- and that of `pool_alloc` on the rounds left, so they need no fuel. The two `while` loops of
-- `clz` and `cntb` have fuel 32 and 8, the numbers of bits that they shift out. The loop of
-- `spu_load_elf` recurs on the number of headers. The loop of `rsx_process_fifo` need not end, since a
-- jump may go back; it has fuel, and with none left the result is `unending`. Where no jump goes back,
-- one round more than there are bytes from the get pointer to the end of the buffer is enough.
-- The 20 rounds of a workload and the 200 of the burst are those of the code; the kernel's thread, and
-- the stubs that sleep, recur on the list of the values that they read of the exit flag. The loops of
-- the lifted functions and of the trampoline have the rounds of the environment as fuel, and are
-- `unending` without them: the loop that decrements a count need not end.
--
-- The host's floating point is the parameter `Floats`, and the coordinates of the vertices, which come
-- from it and from sine and cosine, are the parameter `Sphere`; nothing is assumed of either. The
-- recompiled functions are the parameter `Env`, or `Linked` for the dispatcher, with a shift of 64
-- bits by 64, which C leaves undefined. The calls of the operating system are the fields of the
-- parameter `Host`; what is assumed of them is the record `OthersKeep`, that other threads keep the
-- pool well-formed while a call blocks and destroy no queue that is waited for, and, where an event is
-- sent and received, that a semaphore that has been raised lets one through. Not modelled: the
-- messages that the code prints, with the flag `verbose` that guards them, and the traces that are
-- compiled out by default; the software rasteriser, which is arithmetic on floats; the start and the
-- end of a thread, which run recompiled functions; the reads of `load_a3t_entry` from its file, and
-- the overlays; in spu_spurs.cpp, the creation of the thread, and other writers of the main memory
-- between two rounds; pages of the 4 GB that are reserved without access, but in `elf_load`; in
-- extra_funcs.cpp, `lv2_gate`, which only calls `lv2_syscall`; the rest of main.cpp.
pub mod Boot
pub mod Common
pub mod Guest
pub mod Lv2
pub mod Ppu
pub mod Rsx
pub mod Spu
pub mod Spurs
