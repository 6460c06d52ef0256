-- ===== src/Lv2/Call/Cond.antt =====
-- runtime_glue.cpp, `lv2_syscall`: condition variables.
use dbz_budokai_hd.Common.{ℕ, if◌then◌else◌}
use dbz_budokai_hd.Common.Outcome.{Outcome, returned}
use dbz_budokai_hd.Lv2.Pool.{pool_free, lv2_mutex, lv2_cond}
use dbz_budokai_hd.Lv2.System.{
  Body, cond, System, Caller, Left, failed, cell_etimedout, wait_ms, word,
}
use dbz_budokai_hd.Lv2.Host.{Host}
use dbz_budokai_hd.Lv2.Call.Object.{as_mutex, as_cond, on_object, create_object}

module _ {W : Type 0} (host : Host W) (fuel : ℕ) (c : Caller) (s : System W) where
  abbrev pub make_cond : W → W × Body
  make_cond w = let (v, cv) = host.create_condition w in (v, cond cv (word c 4))

  -- sys_cond_create (95)
  unfoldable pub sys_cond_create : Outcome (Left W)
  unfolding create_object
  sys_cond_create = create_object fuel lv2_cond make_cond (word c 3) s

  -- sys_cond_destroy (96), which asks for no kind
  unfoldable pub sys_cond_destroy : Outcome (Left W)
  unfolding pool_free
  sys_cond_destroy = returned (0, record s { pool = pool_free s.pool (word c 3) })

  -- sys_cond_wait (97)
  unfoldable pub sys_cond_wait : Outcome (Left W)
  sys_cond_wait = on_object lv2_cond as_cond s (word c 3) (returned (failed, s)) (λ found.
      let (cv, mutex_id) = found in
      on_object lv2_mutex as_mutex s mutex_id (returned (failed, s)) (λ cs.
        let (t, ok) = host.sleep_condition cv cs (wait_ms (c.gpr 4)) s in
        returned (if ok then 0 else cell_etimedout, t)))

  -- sys_cond_signal (98)
  unfoldable pub sys_cond_signal : Outcome (Left W)
  sys_cond_signal =
      on_object lv2_cond as_cond s (word c 3) (returned (0, s))
        (λ found. returned (0, record s { world = host.wake found.0 s.world }))

  -- sys_cond_signal_all (99)
  unfoldable pub sys_cond_signal_all : Outcome (Left W)
  sys_cond_signal_all =
      on_object lv2_cond as_cond s (word c 3) (returned (0, s))
        (λ found. returned (0, record s { world = host.wake_all found.0 s.world }))
