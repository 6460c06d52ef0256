-- ===== src/Lv2/Call/Typed/Every.antt =====
-- runtime_glue.cpp, `lv2_syscall`: every call keeps the pool well-formed.
use dbz_budokai_hd.Common.{ℕ}
use dbz_budokai_hd.Common.Safe.{safe_returned, safe_exited}
use dbz_budokai_hd.Lv2.System.{System, Caller, word}
use dbz_budokai_hd.Lv2.Host.{Host}
use dbz_budokai_hd.Lv2.Call.Number.{
  Call, call_of, ppu_thread_create, ppu_thread_exit, ppu_thread_yield, ppu_thread_join,
  ppu_thread_get_id, semaphore_create, semaphore_destroy, semaphore_wait, semaphore_trywait,
  semaphore_post, mutex_create, mutex_destroy, mutex_lock, mutex_trylock, mutex_unlock, cond_create,
  cond_destroy, cond_wait, cond_signal, cond_signal_all, lwmutex_create, lwmutex_destroy,
  lwmutex_lock, lwmutex_trylock, lwmutex_unlock, lwcond_create, lwcond_destroy, lwcond_wait,
  lwcond_signal, lwcond_signal_all, lwcond_signal_to, event_queue_create, event_queue_destroy,
  event_queue_receive, event_queue_tryreceive, event_port_create, event_port_destroy,
  event_port_connect_local, event_port_send, time_get_system_time, time_get_timebase_frequency,
  memory_allocate, memory_allocate_from_container, tty_write, call_988, other,
}
use dbz_budokai_hd.Lv2.Call.{run_call, lv2_syscall}
use dbz_budokai_hd.Lv2.Call.Typed.{IsSystem, KeepsPool, OthersKeep}
use dbz_budokai_hd.Lv2.Call.Thread.{
  sys_ppu_thread_exit, sys_ppu_thread_yield, sys_ppu_thread_get_id,
}
use dbz_budokai_hd.Lv2.Call.Various.{sys_time_get_system_time, sys_memory_allocate}
use dbz_budokai_hd.Lv2.Call.Typed.Various.{
  sys_ppu_thread_create-KeepsPool, sys_ppu_thread_join-KeepsPool, sys_lwmutex_create-KeepsPool,
  sys_lwmutex_destroy-KeepsPool, sys_lwmutex_lock-KeepsPool, sys_lwmutex_trylock-KeepsPool,
  sys_lwmutex_unlock-KeepsPool, sys_lwcond_create-KeepsPool, sys_lwcond_destroy-KeepsPool,
  sys_lwcond_wait-KeepsPool, sys_lwcond_signal-KeepsPool, sys_lwcond_signal_all-KeepsPool,
  sys_tty_write-KeepsPool, sys_988-KeepsPool,
}
use dbz_budokai_hd.Lv2.Call.Typed.Objects.{
  sys_semaphore_create-KeepsPool, sys_semaphore_destroy-KeepsPool, sys_semaphore_wait-KeepsPool,
  sys_semaphore_trywait-KeepsPool, sys_semaphore_post-KeepsPool, sys_mutex_create-KeepsPool,
  sys_mutex_destroy-KeepsPool, sys_mutex_lock-KeepsPool, sys_mutex_trylock-KeepsPool,
  sys_mutex_unlock-KeepsPool, sys_cond_create-KeepsPool, sys_cond_destroy-KeepsPool,
  sys_cond_wait-KeepsPool, sys_cond_signal-KeepsPool, sys_cond_signal_all-KeepsPool,
}
use dbz_budokai_hd.Lv2.Call.Typed.Events.{
  sys_event_queue_create-KeepsPool, sys_event_port_create-KeepsPool,
  sys_event_port_destroy-KeepsPool, sys_event_port_connect_local-KeepsPool,
  sys_event_port_send-KeepsPool,
}
use dbz_budokai_hd.Lv2.Call.Typed.Receive.{
  sys_event_queue_destroy-KeepsPool, sys_event_queue_receive-KeepsPool,
  sys_event_queue_tryreceive-KeepsPool,
}

module _ {W : Type 0} (host : Host W) (others : OthersKeep host) (fuel : ℕ) (c : Caller)
    (s : System W) (v : IsSystem s) where
  run_call-KeepsPool : (call : Call) → KeepsPool (run_call host fuel c s call)
  unfolding run_call sys_ppu_thread_exit sys_ppu_thread_yield sys_ppu_thread_get_id
      sys_time_get_system_time sys_memory_allocate
  run_call-KeepsPool ppu_thread_create = sys_ppu_thread_create-KeepsPool host others fuel c s v
  run_call-KeepsPool ppu_thread_exit = safe_exited (word c 3)
  run_call-KeepsPool ppu_thread_yield = safe_returned v
  run_call-KeepsPool ppu_thread_join = sys_ppu_thread_join-KeepsPool host others fuel c s v
  run_call-KeepsPool ppu_thread_get_id = safe_returned v
  run_call-KeepsPool semaphore_create = sys_semaphore_create-KeepsPool host others fuel c s v
  run_call-KeepsPool semaphore_destroy = sys_semaphore_destroy-KeepsPool host others fuel c s v
  run_call-KeepsPool semaphore_wait = sys_semaphore_wait-KeepsPool host others fuel c s v
  run_call-KeepsPool semaphore_trywait = sys_semaphore_trywait-KeepsPool host others fuel c s v
  run_call-KeepsPool semaphore_post = sys_semaphore_post-KeepsPool host others fuel c s v
  run_call-KeepsPool mutex_create = sys_mutex_create-KeepsPool host others fuel c s v
  run_call-KeepsPool mutex_destroy = sys_mutex_destroy-KeepsPool host others fuel c s v
  run_call-KeepsPool mutex_lock = sys_mutex_lock-KeepsPool host others fuel c s v
  run_call-KeepsPool mutex_trylock = sys_mutex_trylock-KeepsPool host others fuel c s v
  run_call-KeepsPool mutex_unlock = sys_mutex_unlock-KeepsPool host others fuel c s v
  run_call-KeepsPool cond_create = sys_cond_create-KeepsPool host others fuel c s v
  run_call-KeepsPool cond_destroy = sys_cond_destroy-KeepsPool host others fuel c s v
  run_call-KeepsPool cond_wait = sys_cond_wait-KeepsPool host others fuel c s v
  run_call-KeepsPool cond_signal = sys_cond_signal-KeepsPool host others fuel c s v
  run_call-KeepsPool cond_signal_all = sys_cond_signal_all-KeepsPool host others fuel c s v
  run_call-KeepsPool lwmutex_create = sys_lwmutex_create-KeepsPool host others fuel c s v
  run_call-KeepsPool lwmutex_destroy = sys_lwmutex_destroy-KeepsPool host others fuel c s v
  run_call-KeepsPool lwmutex_lock = sys_lwmutex_lock-KeepsPool host others fuel c s v
  run_call-KeepsPool lwmutex_trylock = sys_lwmutex_trylock-KeepsPool host others fuel c s v
  run_call-KeepsPool lwmutex_unlock = sys_lwmutex_unlock-KeepsPool host others fuel c s v
  run_call-KeepsPool lwcond_create = sys_lwcond_create-KeepsPool host others fuel c s v
  run_call-KeepsPool lwcond_destroy = sys_lwcond_destroy-KeepsPool host others fuel c s v
  run_call-KeepsPool lwcond_wait = sys_lwcond_wait-KeepsPool host others fuel c s v
  run_call-KeepsPool lwcond_signal = sys_lwcond_signal-KeepsPool host others fuel c s v
  run_call-KeepsPool lwcond_signal_all = sys_lwcond_signal_all-KeepsPool host others fuel c s v
  run_call-KeepsPool lwcond_signal_to = sys_lwcond_signal_all-KeepsPool host others fuel c s v
  run_call-KeepsPool event_queue_create = sys_event_queue_create-KeepsPool host others fuel c s v
  run_call-KeepsPool event_queue_destroy = sys_event_queue_destroy-KeepsPool host others fuel c s v
  run_call-KeepsPool event_queue_receive = sys_event_queue_receive-KeepsPool host others fuel c s v
  run_call-KeepsPool event_queue_tryreceive =
      sys_event_queue_tryreceive-KeepsPool host others fuel c s v
  run_call-KeepsPool event_port_create = sys_event_port_create-KeepsPool host others fuel c s v
  run_call-KeepsPool event_port_destroy = sys_event_port_destroy-KeepsPool host others fuel c s v
  run_call-KeepsPool event_port_connect_local =
      sys_event_port_connect_local-KeepsPool host others fuel c s v
  run_call-KeepsPool event_port_send = sys_event_port_send-KeepsPool host others fuel c s v
  run_call-KeepsPool time_get_system_time = safe_returned v
  run_call-KeepsPool time_get_timebase_frequency = safe_returned v
  run_call-KeepsPool memory_allocate = safe_returned v
  run_call-KeepsPool memory_allocate_from_container = safe_returned v
  run_call-KeepsPool tty_write = sys_tty_write-KeepsPool host others fuel c s v
  run_call-KeepsPool call_988 = sys_988-KeepsPool host others fuel c s v
  run_call-KeepsPool other = safe_returned v

  -- From a state whose pool is well-formed, with a host under which other threads keep the pool
  -- well-formed while a call blocks and destroy no queue that is waited for, every system call,
  -- whatever its number and its registers, reads no null pointer and no union member other than
  -- the one of the kind of the object, and leaves a well-formed pool when it returns.
  pub lv2_syscall-KeepsPool : KeepsPool (lv2_syscall host fuel c s)
  unfolding lv2_syscall
  lv2_syscall-KeepsPool = run_call-KeepsPool (call_of (word c 11))
