-- ===== src/Lv2/Call/Various.antt =====
-- runtime_glue.cpp, `lv2_syscall`: time, memory, the terminal, and the report of an abort. What is only
-- printed is left out.
use dbz_budokai_hd.Common.{ℕ, ◌==◌, if◌then◌else◌, true, ◌*◌}
use dbz_budokai_hd.Common.Words.{u64}
use dbz_budokai_hd.Common.Outcome.{Outcome, returned, ◌>>=◌}
use dbz_budokai_hd.Lv2.System.{System, Caller, Left, failed, word}
use dbz_budokai_hd.Lv2.Host.{Host}
use dbz_budokai_hd.Lv2.Call.Object.{write32}

module _ {W : Type 0} (host : Host W) (fuel : ℕ) (c : Caller) (s : System W) where
  -- sys_time_get_system_time (141)
  unfoldable pub sys_time_get_system_time : Outcome (Left W)
  sys_time_get_system_time = returned (u64 (host.tick_count s.world * 1000), s)

  -- sys_memory_allocate (348, 349)
  unfoldable pub sys_memory_allocate : Outcome (Left W)
  sys_memory_allocate = returned (failed, s)

  -- The terminal (403): the length comes back through r6, which is tested as 64 bits.
  unfoldable pub sys_tty_write : Outcome (Left W)
  sys_tty_write =
      if c.gpr 6 == 0
      then returned (0, s)
      else (do t ← write32 fuel (c.gpr 6) (word c 5) s; returned (0, t))

  -- 988; the walk over the frames of the stack only prints.
  unfoldable pub sys_988 : Outcome (Left W)
  sys_988 = returned (0, if c.gpr 3 == 4 then record s { abort_called = true } else s)
