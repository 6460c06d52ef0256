-- ===== src/Lv2/Call/Mutex.antt =====
-- runtime_glue.cpp, `lv2_syscall`: mutexes.
use dbz_budokai_hd.Common.{ℕ, if◌then◌else◌}
use dbz_budokai_hd.Common.Outcome.{Outcome, returned}
use dbz_budokai_hd.Lv2.Pool.{pool_free, lv2_mutex}
use dbz_budokai_hd.Lv2.System.{Body, mutex, System, Caller, Left, failed, cell_ebusy, word}
use dbz_budokai_hd.Lv2.Host.{Host}
use dbz_budokai_hd.Lv2.Call.Object.{as_mutex, on_object, create_object}

module _ {W : Type 0} (host : Host W) (fuel : ℕ) (c : Caller) (s : System W) where
  abbrev pub make_mutex : W → W × Body
  make_mutex w = let (v, cs) = host.create_section w in (v, mutex cs)

  -- sys_mutex_create (90)
  unfoldable pub sys_mutex_create : Outcome (Left W)
  unfolding create_object
  sys_mutex_create = create_object fuel lv2_mutex make_mutex (word c 3) s

  -- sys_mutex_destroy (91)
  unfoldable pub sys_mutex_destroy : Outcome (Left W)
  unfolding pool_free
  sys_mutex_destroy = on_object lv2_mutex as_mutex s (word c 3) (returned (0, s)) (λ cs.
      returned (
        0,
        record s { pool = pool_free s.pool (word c 3); world = host.delete_section cs s.world },
      ))

  -- sys_mutex_lock (92)
  unfoldable pub sys_mutex_lock : Outcome (Left W)
  sys_mutex_lock =
      on_object lv2_mutex as_mutex s (word c 3) (returned (failed, s))
        (λ cs. returned (0, host.enter cs s))

  -- sys_mutex_trylock (93)
  unfoldable pub sys_mutex_trylock : Outcome (Left W)
  sys_mutex_trylock = on_object lv2_mutex as_mutex s (word c 3) (returned (failed, s)) (λ cs.
      let (world, got) = host.try_enter cs s.world in
      returned (if got then 0 else cell_ebusy, record s { world = world }))

  -- sys_mutex_unlock (94)
  unfoldable pub sys_mutex_unlock : Outcome (Left W)
  sys_mutex_unlock =
      on_object lv2_mutex as_mutex s (word c 3) (returned (0, s))
        (λ cs. returned (0, record s { world = host.leave cs s.world }))
