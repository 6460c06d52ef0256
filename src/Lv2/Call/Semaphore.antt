-- ===== src/Lv2/Call/Semaphore.antt =====
-- runtime_glue.cpp, `lv2_syscall`: semaphores.
use dbz_budokai_hd.Common.{ℕ, ◌==◌, ◌||◌, leb, if◌then◌else◌, ◌^◌}
use dbz_budokai_hd.Common.Outcome.{Outcome, returned}
use dbz_budokai_hd.Lv2.Pool.{pool_free, lv2_sem}
use dbz_budokai_hd.Lv2.System.{
  Body, sem, System, Caller, Left, failed, cell_etimedout, wait_ms, word,
}
use dbz_budokai_hd.Lv2.Host.{Host}
use dbz_budokai_hd.Lv2.Call.Object.{as_sem, on_object, create_object}

module _ {W : Type 0} (host : Host W) (fuel : ℕ) (c : Caller) (s : System W) where
  -- CreateSemaphoreA(NULL, ini, mx > 0 ? mx : 0x7FFFFFFF, NULL)
  abbrev pub make_semaphore : W → W × Body
  make_semaphore w =
      let mx = word c 6 in
      let (v, h) =
        host.create_semaphore (word c 5) (if mx == 0 || leb (2 ^ 31) mx then 0x7FFFFFFF else mx)
          w in
      (v, sem h)

  -- sys_semaphore_create (84)
  unfoldable pub sys_semaphore_create : Outcome (Left W)
  unfolding create_object
  sys_semaphore_create = create_object fuel lv2_sem make_semaphore (word c 3) s

  -- sys_semaphore_destroy (85)
  unfoldable pub sys_semaphore_destroy : Outcome (Left W)
  unfolding pool_free
  sys_semaphore_destroy = on_object lv2_sem as_sem s (word c 3) (returned (0, s)) (λ h.
      returned
        (0, record s { pool = pool_free s.pool (word c 3); world = host.close_handle h s.world }))

  -- sys_semaphore_wait (86)
  unfoldable pub sys_semaphore_wait : Outcome (Left W)
  sys_semaphore_wait = on_object lv2_sem as_sem s (word c 3) (returned (failed, s)) (λ h.
      let (t, timed_out) = host.wait_object h (wait_ms (c.gpr 4)) s in
      returned (if timed_out then cell_etimedout else 0, t))

  -- sys_semaphore_trywait (87)
  unfoldable pub sys_semaphore_trywait : Outcome (Left W)
  sys_semaphore_trywait = on_object lv2_sem as_sem s (word c 3) (returned (failed, s)) (λ h.
      let (world, got) = host.poll h s.world in
      returned (if got then 0 else cell_etimedout, record s { world = world }))

  -- sys_semaphore_post (88)
  unfoldable pub sys_semaphore_post : Outcome (Left W)
  sys_semaphore_post =
      let cnt = word c 4 in
      on_object lv2_sem as_sem s (word c 3) (returned (0, s)) (λ h.
        returned
          (0, record s { world = host.release_semaphore h (if cnt == 0 then 1 else cnt) s.world }))
