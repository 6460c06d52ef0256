-- ===== src/Lv2/Call/Typed/Objects.antt =====
-- runtime_glue.cpp, `lv2_syscall`: semaphores, mutexes and condition variables keep the pool well-formed.
use dbz_budokai_hd.Common.{ℕ}
use dbz_budokai_hd.Common.Safe.{safe_returned}
use dbz_budokai_hd.Lv2.Pool.{lv2_sem, lv2_mutex, lv2_cond}
use dbz_budokai_hd.Lv2.Pool.Typed.{of_sem, of_mutex, of_cond, pool_free-IsTyped}
use dbz_budokai_hd.Lv2.System.{System, Caller, word, wait_ms}
use dbz_budokai_hd.Lv2.Host.{Host}
use dbz_budokai_hd.Lv2.Call.Object.{as_sem, as_mutex, as_cond}
use dbz_budokai_hd.Lv2.Call.Typed.{
  IsSystem, KeepsPool, OthersKeep, on_object-KeepsPool, has_sem, has_mutex, has_cond,
  create_object-KeepsPool,
}
use dbz_budokai_hd.Lv2.Call.Semaphore.{
  sys_semaphore_create, sys_semaphore_destroy, sys_semaphore_wait, sys_semaphore_trywait,
  sys_semaphore_post, make_semaphore,
}
use dbz_budokai_hd.Lv2.Call.Mutex.{
  sys_mutex_create, sys_mutex_destroy, sys_mutex_lock, sys_mutex_trylock, sys_mutex_unlock,
  make_mutex,
}
use dbz_budokai_hd.Lv2.Call.Cond.{
  sys_cond_create, sys_cond_destroy, sys_cond_wait, sys_cond_signal, sys_cond_signal_all, make_cond,
}

module _ {W : Type 0} (host : Host W) (others : OthersKeep host) (fuel : ℕ) (c : Caller)
    (s : System W) (v : IsSystem s) where
  pub sys_semaphore_create-KeepsPool : KeepsPool (sys_semaphore_create host fuel c s)
  unfolding sys_semaphore_create
  sys_semaphore_create-KeepsPool =
      create_object-KeepsPool fuel lv2_sem (make_semaphore host fuel c s) (word c 3) s v
        (λ w. (of_sem _))

  pub sys_semaphore_destroy-KeepsPool : KeepsPool (sys_semaphore_destroy host fuel c s)
  unfolding sys_semaphore_destroy
  sys_semaphore_destroy-KeepsPool =
      on_object-KeepsPool lv2_sem as_sem s (word c 3) v has_sem (safe_returned v)
        (λ h k e. safe_returned (pool_free-IsTyped s.pool (word c 3) v))

  pub sys_semaphore_wait-KeepsPool : KeepsPool (sys_semaphore_wait host fuel c s)
  unfolding sys_semaphore_wait
  sys_semaphore_wait-KeepsPool =
      on_object-KeepsPool lv2_sem as_sem s (word c 3) v has_sem (safe_returned v)
        (λ h k e. safe_returned (others.while_waiting h (wait_ms (c.gpr 4)) s v).0)

  pub sys_semaphore_trywait-KeepsPool : KeepsPool (sys_semaphore_trywait host fuel c s)
  unfolding sys_semaphore_trywait
  sys_semaphore_trywait-KeepsPool =
      on_object-KeepsPool lv2_sem as_sem s (word c 3) v has_sem (safe_returned v)
        (λ h k e. safe_returned v)

  pub sys_semaphore_post-KeepsPool : KeepsPool (sys_semaphore_post host fuel c s)
  unfolding sys_semaphore_post
  sys_semaphore_post-KeepsPool =
      on_object-KeepsPool lv2_sem as_sem s (word c 3) v has_sem (safe_returned v)
        (λ h k e. safe_returned v)

  pub sys_mutex_create-KeepsPool : KeepsPool (sys_mutex_create host fuel c s)
  unfolding sys_mutex_create
  sys_mutex_create-KeepsPool =
      create_object-KeepsPool fuel lv2_mutex (make_mutex host fuel c s) (word c 3) s v
        (λ w. (of_mutex _))

  pub sys_mutex_destroy-KeepsPool : KeepsPool (sys_mutex_destroy host fuel c s)
  unfolding sys_mutex_destroy
  sys_mutex_destroy-KeepsPool =
      on_object-KeepsPool lv2_mutex as_mutex s (word c 3) v has_mutex (safe_returned v)
        (λ h k e. safe_returned (pool_free-IsTyped s.pool (word c 3) v))

  pub sys_mutex_lock-KeepsPool : KeepsPool (sys_mutex_lock host fuel c s)
  unfolding sys_mutex_lock
  sys_mutex_lock-KeepsPool =
      on_object-KeepsPool lv2_mutex as_mutex s (word c 3) v has_mutex (safe_returned v)
        (λ cs k e. safe_returned (others.while_entering cs s v))

  pub sys_mutex_trylock-KeepsPool : KeepsPool (sys_mutex_trylock host fuel c s)
  unfolding sys_mutex_trylock
  sys_mutex_trylock-KeepsPool =
      on_object-KeepsPool lv2_mutex as_mutex s (word c 3) v has_mutex (safe_returned v)
        (λ h k e. safe_returned v)

  pub sys_mutex_unlock-KeepsPool : KeepsPool (sys_mutex_unlock host fuel c s)
  unfolding sys_mutex_unlock
  sys_mutex_unlock-KeepsPool =
      on_object-KeepsPool lv2_mutex as_mutex s (word c 3) v has_mutex (safe_returned v)
        (λ h k e. safe_returned v)

  pub sys_cond_create-KeepsPool : KeepsPool (sys_cond_create host fuel c s)
  unfolding sys_cond_create
  sys_cond_create-KeepsPool =
      create_object-KeepsPool fuel lv2_cond (make_cond host fuel c s) (word c 3) s v
        (λ w. (of_cond _ _))

  pub sys_cond_destroy-KeepsPool : KeepsPool (sys_cond_destroy host fuel c s)
  unfolding sys_cond_destroy
  sys_cond_destroy-KeepsPool = safe_returned (pool_free-IsTyped s.pool (word c 3) v)

  pub sys_cond_wait-KeepsPool : KeepsPool (sys_cond_wait host fuel c s)
  unfolding sys_cond_wait
  sys_cond_wait-KeepsPool =
      on_object-KeepsPool lv2_cond as_cond s (word c 3) v has_cond (safe_returned v) (λ found k e.
        on_object-KeepsPool lv2_mutex as_mutex s found.1 v has_mutex (safe_returned v)
          (λ cs l f. safe_returned (others.while_sleeping found.0 cs (wait_ms (c.gpr 4)) s v)))

  pub sys_cond_signal-KeepsPool : KeepsPool (sys_cond_signal host fuel c s)
  unfolding sys_cond_signal
  sys_cond_signal-KeepsPool =
      on_object-KeepsPool lv2_cond as_cond s (word c 3) v has_cond (safe_returned v)
        (λ h k e. safe_returned v)

  pub sys_cond_signal_all-KeepsPool : KeepsPool (sys_cond_signal_all host fuel c s)
  unfolding sys_cond_signal_all
  sys_cond_signal_all-KeepsPool =
      on_object-KeepsPool lv2_cond as_cond s (word c 3) v has_cond (safe_returned v)
        (λ h k e. safe_returned v)
