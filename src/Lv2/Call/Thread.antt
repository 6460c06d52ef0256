-- ===== src/Lv2/Call/Thread.antt =====
-- runtime_glue.cpp, `lv2_syscall`: threads.
use dbz_budokai_hd.Common.{ℕ, ◌+◌, ◌==◌, if◌then◌else◌}
use dbz_budokai_hd.Common.Words.{add32}
use dbz_budokai_hd.Common.Outcome.{Outcome, returned, exited, ◌>>=◌}
use dbz_budokai_hd.Guest.{vm_read32}
use dbz_budokai_hd.Rsx.Write.{vm_write32}
use dbz_budokai_hd.Lv2.System.{System, Caller, Left, failed, infinite, word}
use dbz_budokai_hd.Lv2.Host.{ThreadParam, Host}
use dbz_budokai_hd.Lv2.Call.Object.{write_out}
use dbz_budokai_hd.Lv2.Threads.{alloc_thread_stack, thread_table_add, thread_table_find}

-- What a new thread is given; the thread runs the function at the first word of the descriptor.
abbrev pub thread_param : {W : Type 0} → Caller → System W → ℕ → ThreadParam
thread_param c s stack_top = record {
  entry_addr = vm_read32 s.machine.mem (word c 4);
  toc = vm_read32 s.machine.mem (word c 4 + 4);
  arg = c.gpr 5;
  stack_top = stack_top;
  thread_id = s.threads.id_next;
}

abbrev pub next_thread : {W : Type 0} → System W → System W
next_thread s = record s { threads = record (s.threads) { id_next = add32 s.threads.id_next 1 } }

module _ {W : Type 0} (host : Host W) (fuel : ℕ) (c : Caller) (s : System W) where
  -- sys_ppu_thread_create (44), from the new stack on. `CreateThread` gets its parameters before the new
  -- thread runs; the identifier that goes into the table is read as it was.
  unfoldable pub start_thread : ℕ → System W → Outcome (Left W)
  unfolding vm_write32 thread_table_add
  start_thread stack_top t = do
    u ← write_out fuel (word c 3) t.threads.id_next (next_thread t)
    let (world, h) = host.create_thread (thread_param c s stack_top) u.world
    returned (
        if h == 0 then (failed, record u { world = world }) else (
          0,
          record u {
            world = world;
            threads = thread_table_add (thread_param c s stack_top).thread_id h u.threads;
          },
        ))

  unfoldable pub sys_ppu_thread_create : Outcome (Left W)
  unfolding start_thread alloc_thread_stack
  sys_ppu_thread_create =
      let (t, stack_top) = alloc_thread_stack host s in
      if stack_top == 0 then returned (failed, t) else start_thread stack_top t

  -- sys_ppu_thread_exit (41)
  unfoldable pub sys_ppu_thread_exit : Outcome (Left W)
  sys_ppu_thread_exit = exited (word c 3)

  -- sys_ppu_thread_yield (45)
  unfoldable pub sys_ppu_thread_yield : Outcome (Left W)
  sys_ppu_thread_yield = returned (0, record s { world = host.switch_to_thread s.world })

  -- sys_ppu_thread_join (43)
  unfoldable pub sys_ppu_thread_join : Outcome (Left W)
  unfolding vm_write32 thread_table_find
  sys_ppu_thread_join =
      let h = thread_table_find (word c 3) s.threads in
      if h == 0 then returned (0, s) else (do
        let (t, _) = host.wait_object h infinite s
        u ← write_out fuel (word c 4) (host.exit_code h t.world) t
        returned (0, u))

  -- sys_ppu_thread_get_id (48)
  unfoldable pub sys_ppu_thread_get_id : Outcome (Left W)
  sys_ppu_thread_get_id = returned (if c.thread_id == 0 then 0xFFFF0000 else c.thread_id, s)
