-- ===== src/Lv2/Call/Number.antt =====
-- runtime_glue.cpp, `lv2_syscall`: the cases of the switch.
use dbz_budokai_hd.Common.{ℕ, ◌==◌, if◌then◌else◌}

pub data Call : Type 0 where
  ppu_thread_create : Call
  ppu_thread_exit : Call
  ppu_thread_yield : Call
  ppu_thread_join : Call
  ppu_thread_get_id : Call
  semaphore_create : Call
  semaphore_destroy : Call
  semaphore_wait : Call
  semaphore_trywait : Call
  semaphore_post : Call
  mutex_create : Call
  mutex_destroy : Call
  mutex_lock : Call
  mutex_trylock : Call
  mutex_unlock : Call
  cond_create : Call
  cond_destroy : Call
  cond_wait : Call
  cond_signal : Call
  cond_signal_all : Call
  lwmutex_create : Call
  lwmutex_destroy : Call
  lwmutex_lock : Call
  lwmutex_trylock : Call
  lwmutex_unlock : Call
  lwcond_create : Call
  lwcond_destroy : Call
  lwcond_wait : Call
  lwcond_signal : Call
  lwcond_signal_all : Call
  lwcond_signal_to : Call
  event_queue_create : Call
  event_queue_destroy : Call
  event_queue_receive : Call
  event_queue_tryreceive : Call
  event_port_create : Call
  event_port_destroy : Call
  event_port_connect_local : Call
  event_port_send : Call
  time_get_system_time : Call
  time_get_timebase_frequency : Call
  memory_allocate : Call
  memory_allocate_from_container : Call
  tty_write : Call
  call_988 : Call
  other : Call

-- The case that a number selects.
abbrev pub call_of : ℕ → Call
call_of n =
    if n == 44
    then ppu_thread_create
    else if n == 41
    then ppu_thread_exit
    else if n == 45
    then ppu_thread_yield
    else if n == 43
    then ppu_thread_join
    else if n == 48
    then ppu_thread_get_id
    else if n == 84
    then semaphore_create
    else if n == 85
    then semaphore_destroy
    else if n == 86
    then semaphore_wait
    else if n == 87
    then semaphore_trywait
    else if n == 88
    then semaphore_post
    else if n == 90
    then mutex_create
    else if n == 91
    then mutex_destroy
    else if n == 92
    then mutex_lock
    else if n == 93
    then mutex_trylock
    else if n == 94
    then mutex_unlock
    else if n == 95
    then cond_create
    else if n == 96
    then cond_destroy
    else if n == 97
    then cond_wait
    else if n == 98
    then cond_signal
    else if n == 99
    then cond_signal_all
    else if n == 612
    then lwmutex_create
    else if n == 613
    then lwmutex_destroy
    else if n == 614
    then lwmutex_lock
    else if n == 615
    then lwmutex_trylock
    else if n == 616
    then lwmutex_unlock
    else if n == 620
    then lwcond_create
    else if n == 621
    then lwcond_destroy
    else if n == 622
    then lwcond_wait
    else if n == 623
    then lwcond_signal
    else if n == 624
    then lwcond_signal_all
    else if n == 625
    then lwcond_signal_to
    else if n == 125
    then event_queue_create
    else if n == 126
    then event_queue_destroy
    else if n == 127
    then event_queue_receive
    else if n == 128
    then event_queue_tryreceive
    else if n == 130
    then event_port_create
    else if n == 131
    then event_port_destroy
    else if n == 132
    then event_port_connect_local
    else if n == 134
    then event_port_send
    else if n == 141
    then time_get_system_time
    else if n == 145
    then time_get_timebase_frequency
    else if n == 348
    then memory_allocate
    else if n == 349
    then memory_allocate_from_container
    else if n == 403
    then tty_write
    else if n == 988
    then call_988
    else other
