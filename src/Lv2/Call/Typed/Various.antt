-- ===== src/Lv2/Call/Typed/Various.antt =====
-- runtime_glue.cpp, `lv2_syscall`: threads, the lightweight objects and the other calls keep the pool
-- well-formed.
use dbz_budokai_hd.Common.{ℕ, ◌==◌, sym, subst, if_keeps, Option, none, some}
use dbz_budokai_hd.Common.Outcome.{Outcome}
use dbz_budokai_hd.Common.Safe.{safe_returned, Safe->>=}
use dbz_budokai_hd.Lv2.Pool.Typed.{IsTyped}
use dbz_budokai_hd.Lv2.System.{System, Caller, Left, word, infinite, wait_ms}
use dbz_budokai_hd.Lv2.Host.{Host}
use dbz_budokai_hd.Lv2.Call.Typed.{
  IsSystem, KeepsPool, OthersKeep, write32-KeptBy, write_out-KeptBy, finish-KeepsPool,
}
use dbz_budokai_hd.Lv2.Threads.{alloc_thread_stack, thread_table_find}
use dbz_budokai_hd.Lv2.Call.Thread.{
  next_thread, thread_param, start_thread, sys_ppu_thread_create, sys_ppu_thread_join,
}
use dbz_budokai_hd.Lv2.Call.Lightweight.{
  sys_lwmutex_create, sys_lwmutex_destroy, sys_lwmutex_lock, sys_lwmutex_trylock,
  sys_lwmutex_unlock, sys_lwcond_create, sys_lwcond_destroy, sys_lwcond_wait, sys_lwcond_signal,
  sys_lwcond_signal_all,
}
use dbz_budokai_hd.Lv2.Call.Various.{sys_tty_write, sys_988}

module _ {W : Type 0} (host : Host W) (others : OthersKeep host) (fuel : ℕ) (c : Caller)
    (s : System W) (v : IsSystem s) where
  start_thread-KeepsPool :
      (stack_top : ℕ) (t : System W)
      → IsSystem t
      → KeepsPool (start_thread host fuel c s stack_top t)
  unfolding start_thread
  start_thread-KeepsPool stack_top t w =
      Safe->>= (write_out-KeptBy fuel (word c 3) t.threads.id_next (next_thread t)) (λ u d.
        let x = subst IsTyped (sym d) w in
        let (world, h) = host.create_thread (thread_param c s stack_top) u.world in
        safe_returned (if_keeps {A = Left W} (λ y. IsSystem y.1) (h == 0) x x))

  pub sys_ppu_thread_create-KeepsPool : KeepsPool (sys_ppu_thread_create host fuel c s)
  unfolding sys_ppu_thread_create alloc_thread_stack
  sys_ppu_thread_create-KeepsPool =
      let (t, stack_top) = alloc_thread_stack host s in
      if_keeps KeepsPool (stack_top == 0) (safe_returned v) (start_thread-KeepsPool stack_top t v)

  pub sys_ppu_thread_join-KeepsPool : KeepsPool (sys_ppu_thread_join host fuel c s)
  unfolding sys_ppu_thread_join
  sys_ppu_thread_join-KeepsPool =
      let h = thread_table_find (word c 3) s.threads in
      let (t, _) = host.wait_object h infinite s in
      if_keeps KeepsPool (h == 0) (safe_returned v) (
        finish-KeepsPool t 0 (others.while_waiting h infinite s v).0
          (write_out-KeptBy fuel (word c 4) (host.exit_code h t.world) t))

  pub sys_tty_write-KeepsPool : KeepsPool (sys_tty_write host fuel c s)
  unfolding sys_tty_write
  sys_tty_write-KeepsPool =
      if_keeps KeepsPool (c.gpr 6 == 0) (safe_returned v)
        (finish-KeepsPool s 0 v (write32-KeptBy fuel (c.gpr 6) (word c 5) s))

  pub sys_988-KeepsPool : KeepsPool (sys_988 host fuel c s)
  unfolding sys_988
  sys_988-KeepsPool = safe_returned (if_keeps IsSystem (c.gpr 3 == 4) v v)

  -- A lookup in a map, whatever it finds.
  found-KeepsPool :
      (o : Option ℕ) {absent : Outcome (Left W)} {there : ℕ → Outcome (Left W)}
      → KeepsPool absent
      → ((x : ℕ) → KeepsPool (there x))
      → KeepsPool (elim o [ none ↦ absent | some x ↦ there x ])
  found-KeepsPool none p q = p
  found-KeepsPool (some x) p q = q x

  pub sys_lwmutex_create-KeepsPool : KeepsPool (sys_lwmutex_create host c s)
  unfolding sys_lwmutex_create
  sys_lwmutex_create-KeepsPool =
      found-KeepsPool (s.lwmutex_map (word c 3)) (safe_returned v) (λ x. safe_returned v)

  pub sys_lwmutex_destroy-KeepsPool : KeepsPool (sys_lwmutex_destroy host c s)
  unfolding sys_lwmutex_destroy
  sys_lwmutex_destroy-KeepsPool =
      found-KeepsPool (s.lwmutex_map (word c 3)) (safe_returned v) (λ x. safe_returned v)

  pub sys_lwmutex_lock-KeepsPool : KeepsPool (sys_lwmutex_lock host c s)
  unfolding sys_lwmutex_lock
  sys_lwmutex_lock-KeepsPool =
      found-KeepsPool (s.lwmutex_map (word c 3)) (safe_returned v)
        (λ cs. safe_returned (others.while_entering cs s v))

  pub sys_lwmutex_trylock-KeepsPool : KeepsPool (sys_lwmutex_trylock host c s)
  unfolding sys_lwmutex_trylock
  sys_lwmutex_trylock-KeepsPool =
      found-KeepsPool (s.lwmutex_map (word c 3)) (safe_returned v) (λ x. safe_returned v)

  pub sys_lwmutex_unlock-KeepsPool : KeepsPool (sys_lwmutex_unlock host c s)
  unfolding sys_lwmutex_unlock
  sys_lwmutex_unlock-KeepsPool =
      found-KeepsPool (s.lwmutex_map (word c 3)) (safe_returned v) (λ x. safe_returned v)

  pub sys_lwcond_create-KeepsPool : KeepsPool (sys_lwcond_create host c s)
  unfolding sys_lwcond_create
  sys_lwcond_create-KeepsPool =
      found-KeepsPool (s.lwcond_map (word c 3)) (safe_returned v) (λ x. safe_returned v)

  pub sys_lwcond_destroy-KeepsPool : KeepsPool (sys_lwcond_destroy host c s)
  unfolding sys_lwcond_destroy
  sys_lwcond_destroy-KeepsPool =
      found-KeepsPool (s.lwcond_map (word c 3)) (safe_returned v) (λ x. safe_returned v)

  pub sys_lwcond_wait-KeepsPool : KeepsPool (sys_lwcond_wait host c s)
  unfolding sys_lwcond_wait
  sys_lwcond_wait-KeepsPool = found-KeepsPool (s.lwcond_map (word c 3)) (safe_returned v) (λ cv.
      found-KeepsPool (s.lwmutex_map (word c 4)) (safe_returned v)
        (λ cs. safe_returned (others.while_sleeping cv cs (wait_ms (c.gpr 5)) s v)))

  pub sys_lwcond_signal-KeepsPool : KeepsPool (sys_lwcond_signal host c s)
  unfolding sys_lwcond_signal
  sys_lwcond_signal-KeepsPool =
      found-KeepsPool (s.lwcond_map (word c 3)) (safe_returned v) (λ x. safe_returned v)

  pub sys_lwcond_signal_all-KeepsPool : KeepsPool (sys_lwcond_signal_all host c s)
  unfolding sys_lwcond_signal_all
  sys_lwcond_signal_all-KeepsPool =
      found-KeepsPool (s.lwcond_map (word c 3)) (safe_returned v) (λ x. safe_returned v)
