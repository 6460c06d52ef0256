-- ===== src/Lv2/Call.antt =====
-- runtime_glue.cpp: `lv2_syscall`, by the number in r11.
pub mod Object
pub mod Thread
pub mod Semaphore
pub mod Mutex
pub mod Cond
pub mod Lightweight
pub mod Queue
pub mod Port
pub mod Various
pub mod Number
pub mod Laws
pub mod Typed
use dbz_budokai_hd.Common.{ℕ}
use dbz_budokai_hd.Common.Outcome.{Outcome, returned}
use dbz_budokai_hd.Lv2.System.{System, Caller, Left, word}
use dbz_budokai_hd.Lv2.Host.{Host}
use dbz_budokai_hd.Lv2.Call.Number.{
  Call, call_of, ppu_thread_create, ppu_thread_exit, ppu_thread_yield, ppu_thread_join,
  ppu_thread_get_id, semaphore_create, semaphore_destroy, semaphore_wait, semaphore_trywait,
  semaphore_post, mutex_create, mutex_destroy, mutex_lock, mutex_trylock, mutex_unlock, cond_create,
  cond_destroy, cond_wait, cond_signal, cond_signal_all, lwmutex_create, lwmutex_destroy,
  lwmutex_lock, lwmutex_trylock, lwmutex_unlock, lwcond_create, lwcond_destroy, lwcond_wait,
  lwcond_signal, lwcond_signal_all, lwcond_signal_to, event_queue_create, event_queue_destroy,
  event_queue_receive, event_queue_tryreceive, event_port_create, event_port_destroy,
  event_port_connect_local, event_port_send, time_get_system_time, time_get_timebase_frequency,
  memory_allocate, memory_allocate_from_container, tty_write, call_988, other,
}
use dbz_budokai_hd.Lv2.Call.Thread.{
  sys_ppu_thread_create, sys_ppu_thread_exit, sys_ppu_thread_yield, sys_ppu_thread_join,
  sys_ppu_thread_get_id,
}
use dbz_budokai_hd.Lv2.Call.Semaphore.{
  sys_semaphore_create, sys_semaphore_destroy, sys_semaphore_wait, sys_semaphore_trywait,
  sys_semaphore_post,
}
use dbz_budokai_hd.Lv2.Call.Mutex.{
  sys_mutex_create, sys_mutex_destroy, sys_mutex_lock, sys_mutex_trylock, sys_mutex_unlock,
}
use dbz_budokai_hd.Lv2.Call.Cond.{
  sys_cond_create, sys_cond_destroy, sys_cond_wait, sys_cond_signal, sys_cond_signal_all,
}
use dbz_budokai_hd.Lv2.Call.Lightweight.{
  sys_lwmutex_create, sys_lwmutex_destroy, sys_lwmutex_lock, sys_lwmutex_trylock,
  sys_lwmutex_unlock, sys_lwcond_create, sys_lwcond_destroy, sys_lwcond_wait, sys_lwcond_signal,
  sys_lwcond_signal_all,
}
use dbz_budokai_hd.Lv2.Call.Queue.{
  sys_event_queue_create, sys_event_queue_destroy, sys_event_queue_receive,
  sys_event_queue_tryreceive,
}
use dbz_budokai_hd.Lv2.Call.Port.{
  sys_event_port_create, sys_event_port_destroy, sys_event_port_connect_local, sys_event_port_send,
}
use dbz_budokai_hd.Lv2.Call.Various.{
  sys_time_get_system_time, sys_memory_allocate, sys_tty_write, sys_988,
}

module _ {W : Type 0} (host : Host W) (fuel : ℕ) (c : Caller) (s : System W) where
  -- One case of the switch. `other` is every case that only prints and returns 0.
  unfoldable pub run_call : Call → Outcome (Left W)
  unfolding sys_988 sys_cond_create sys_cond_destroy sys_cond_signal sys_cond_signal_all
      sys_cond_wait sys_event_port_connect_local sys_event_port_create sys_event_port_destroy
      sys_event_port_send sys_event_queue_create sys_event_queue_destroy sys_event_queue_receive
      sys_event_queue_tryreceive sys_lwcond_create sys_lwcond_destroy sys_lwcond_signal
      sys_lwcond_signal_all sys_lwcond_wait sys_lwmutex_create sys_lwmutex_destroy sys_lwmutex_lock
      sys_lwmutex_trylock sys_lwmutex_unlock sys_memory_allocate sys_mutex_create sys_mutex_destroy
      sys_mutex_lock sys_mutex_trylock sys_mutex_unlock sys_ppu_thread_create sys_ppu_thread_exit
      sys_ppu_thread_get_id sys_ppu_thread_join sys_ppu_thread_yield sys_semaphore_create
      sys_semaphore_destroy sys_semaphore_post sys_semaphore_trywait sys_semaphore_wait
      sys_time_get_system_time sys_tty_write
  run_call ppu_thread_create = sys_ppu_thread_create host fuel c s
  run_call ppu_thread_exit = sys_ppu_thread_exit host fuel c s
  run_call ppu_thread_yield = sys_ppu_thread_yield host fuel c s
  run_call ppu_thread_join = sys_ppu_thread_join host fuel c s
  run_call ppu_thread_get_id = sys_ppu_thread_get_id host fuel c s
  run_call semaphore_create = sys_semaphore_create host fuel c s
  run_call semaphore_destroy = sys_semaphore_destroy host fuel c s
  run_call semaphore_wait = sys_semaphore_wait host fuel c s
  run_call semaphore_trywait = sys_semaphore_trywait host fuel c s
  run_call semaphore_post = sys_semaphore_post host fuel c s
  run_call mutex_create = sys_mutex_create host fuel c s
  run_call mutex_destroy = sys_mutex_destroy host fuel c s
  run_call mutex_lock = sys_mutex_lock host fuel c s
  run_call mutex_trylock = sys_mutex_trylock host fuel c s
  run_call mutex_unlock = sys_mutex_unlock host fuel c s
  run_call cond_create = sys_cond_create host fuel c s
  run_call cond_destroy = sys_cond_destroy host fuel c s
  run_call cond_wait = sys_cond_wait host fuel c s
  run_call cond_signal = sys_cond_signal host fuel c s
  run_call cond_signal_all = sys_cond_signal_all host fuel c s
  run_call lwmutex_create = sys_lwmutex_create host c s
  run_call lwmutex_destroy = sys_lwmutex_destroy host c s
  run_call lwmutex_lock = sys_lwmutex_lock host c s
  run_call lwmutex_trylock = sys_lwmutex_trylock host c s
  run_call lwmutex_unlock = sys_lwmutex_unlock host c s
  run_call lwcond_create = sys_lwcond_create host c s
  run_call lwcond_destroy = sys_lwcond_destroy host c s
  run_call lwcond_wait = sys_lwcond_wait host c s
  run_call lwcond_signal = sys_lwcond_signal host c s
  run_call lwcond_signal_all = sys_lwcond_signal_all host c s
  run_call lwcond_signal_to = sys_lwcond_signal_all host c s
  run_call event_queue_create = sys_event_queue_create host fuel c s
  run_call event_queue_destroy = sys_event_queue_destroy host fuel c s
  run_call event_queue_receive = sys_event_queue_receive host fuel c s
  run_call event_queue_tryreceive = sys_event_queue_tryreceive host fuel c s
  run_call event_port_create = sys_event_port_create host fuel c s
  run_call event_port_destroy = sys_event_port_destroy host fuel c s
  run_call event_port_connect_local = sys_event_port_connect_local host fuel c s
  run_call event_port_send = sys_event_port_send host fuel c s
  run_call time_get_system_time = sys_time_get_system_time host fuel c s
  run_call time_get_timebase_frequency = returned (79800000, s)
  run_call memory_allocate = sys_memory_allocate host fuel c s
  run_call memory_allocate_from_container = sys_memory_allocate host fuel c s
  run_call tty_write = sys_tty_write host fuel c s
  run_call call_988 = sys_988 host fuel c s
  run_call other = returned (0, s)

  unfoldable pub lv2_syscall : Outcome (Left W)
  unfolding run_call
  lv2_syscall = run_call (call_of (word c 11))
