-- ===== src/Lv2/Call/Lightweight.antt =====
-- runtime_glue.cpp, `lv2_syscall`: the lightweight mutexes and condition variables, which the guest names
-- by the addresses of its own structures. The section around the two maps is left out.
use dbz_budokai_hd.Common.{if◌then◌else◌, none, some, update}
use dbz_budokai_hd.Common.Outcome.{Outcome, returned}
use dbz_budokai_hd.Lv2.System.{System, Caller, Left, cell_etimedout, cell_ebusy, wait_ms, word}
use dbz_budokai_hd.Lv2.Host.{Host}

module _ {W : Type 0} (host : Host W) (c : Caller) (s : System W) where
  -- sys_lwmutex_create (612)
  unfoldable pub sys_lwmutex_create : Outcome (Left W)
  sys_lwmutex_create = elim (s.lwmutex_map (word c 3)) [
    | some cs ↦ returned (0, s)
    | none ↦ (do
      let (world, cs) = host.create_section s.world
      returned
          (0, record s { lwmutex_map = update s.lwmutex_map (word c 3) (some cs); world = world }))
  ]

  -- sys_lwmutex_destroy (613)
  unfoldable pub sys_lwmutex_destroy : Outcome (Left W)
  sys_lwmutex_destroy = elim (s.lwmutex_map (word c 3)) [
    | some cs ↦ returned (
      0,
      record s {
        lwmutex_map = update s.lwmutex_map (word c 3) none;
        world = host.delete_section cs s.world;
      },
    )
    | none ↦ returned (0, s)
  ]

  -- sys_lwmutex_lock (614)
  unfoldable pub sys_lwmutex_lock : Outcome (Left W)
  sys_lwmutex_lock = elim (s.lwmutex_map (word c 3)) [
    | some cs ↦ returned (0, host.enter cs s)
    | none ↦ returned (0, s)
  ]

  -- sys_lwmutex_trylock (615)
  unfoldable pub sys_lwmutex_trylock : Outcome (Left W)
  sys_lwmutex_trylock = elim (s.lwmutex_map (word c 3)) [
    | some cs ↦ (do
      let (world, got) = host.try_enter cs s.world
      returned (if got then 0 else cell_ebusy, record s { world = world }))
    | none ↦ returned (cell_ebusy, s)
  ]

  -- sys_lwmutex_unlock (616)
  unfoldable pub sys_lwmutex_unlock : Outcome (Left W)
  sys_lwmutex_unlock = elim (s.lwmutex_map (word c 3)) [
    | some cs ↦ returned (0, record s { world = host.leave cs s.world })
    | none ↦ returned (0, s)
  ]

  -- sys_lwcond_create (620)
  unfoldable pub sys_lwcond_create : Outcome (Left W)
  sys_lwcond_create = elim (s.lwcond_map (word c 3)) [
    | some cv ↦ returned (0, s)
    | none ↦ (do
      let (world, cv) = host.create_condition s.world
      returned
          (0, record s { lwcond_map = update s.lwcond_map (word c 3) (some cv); world = world }))
  ]

  -- sys_lwcond_destroy (621)
  unfoldable pub sys_lwcond_destroy : Outcome (Left W)
  sys_lwcond_destroy = elim (s.lwcond_map (word c 3)) [
    | some cv ↦ returned (0, record s { lwcond_map = update s.lwcond_map (word c 3) none })
    | none ↦ returned (0, s)
  ]

  -- sys_lwcond_wait (622)
  unfoldable pub sys_lwcond_wait : Outcome (Left W)
  sys_lwcond_wait = elim (s.lwcond_map (word c 3)) [
    | some cv ↦ elim (s.lwmutex_map (word c 4)) [
      | some cs ↦ (do
        let (t, ok) = host.sleep_condition cv cs (wait_ms (c.gpr 5)) s
        returned (if ok then 0 else cell_etimedout, t))
      | none ↦ returned (0, s)
    ]
    | none ↦ returned (0, s)
  ]

  -- sys_lwcond_signal (623)
  unfoldable pub sys_lwcond_signal : Outcome (Left W)
  sys_lwcond_signal = elim (s.lwcond_map (word c 3)) [
    | some cv ↦ returned (0, record s { world = host.wake cv s.world })
    | none ↦ returned (0, s)
  ]

  -- sys_lwcond_signal_all (624) and sys_lwcond_signal_to (625)
  unfoldable pub sys_lwcond_signal_all : Outcome (Left W)
  sys_lwcond_signal_all = elim (s.lwcond_map (word c 3)) [
    | some cv ↦ returned (0, record s { world = host.wake_all cv s.world })
    | none ↦ returned (0, s)
  ]
