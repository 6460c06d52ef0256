-- ===== src/Lv2/Call/Laws/Missing.antt =====
-- runtime_glue.cpp, `lv2_syscall`: calls with an identifier that names no object of the kind asked for.
use dbz_budokai_hd.Common.{ℕ, ◌≡◌, refl, none, ◌≢◌, arith}
use dbz_budokai_hd.Common.Outcome.{returned}
use dbz_budokai_hd.Lv2.Pool.{
  Kind, lv2_sem, lv2_mutex, lv2_cond, lv2_evq, lv2_evport, number, pool_get, pool_free,
}
use dbz_budokai_hd.Lv2.Pool.Laws.{pool_get-pool_free}
use dbz_budokai_hd.Lv2.System.{System, Caller, failed, word}
use dbz_budokai_hd.Lv2.Host.{Host}
use dbz_budokai_hd.Lv2.Call.Number.{
  Call, semaphore_destroy, semaphore_wait, semaphore_trywait, semaphore_post, mutex_destroy,
  mutex_lock, mutex_trylock, mutex_unlock, cond_destroy, cond_wait, cond_signal, cond_signal_all,
  event_queue_receive, event_port_connect_local, event_port_destroy, event_port_send,
}
use dbz_budokai_hd.Lv2.Call.{run_call}
use dbz_budokai_hd.Lv2.Call.Semaphore.{
  sys_semaphore_destroy, sys_semaphore_wait, sys_semaphore_trywait, sys_semaphore_post,
}
use dbz_budokai_hd.Lv2.Call.Mutex.{
  sys_mutex_destroy, sys_mutex_lock, sys_mutex_trylock, sys_mutex_unlock,
}
use dbz_budokai_hd.Lv2.Call.Cond.{
  sys_cond_destroy, sys_cond_wait, sys_cond_signal, sys_cond_signal_all,
}
use dbz_budokai_hd.Lv2.Call.Queue.{sys_event_queue_receive}
use dbz_budokai_hd.Lv2.Call.Port.{
  sys_event_port_destroy, sys_event_port_connect_local, sys_event_port_send,
}

-- The calls that look up the object in r3 and do nothing without it: the kind that each asks for, and the
-- result that it then has.
pub data Needs : Call → Kind → ℕ → Type 0 where
  needs_semaphore_destroy : Needs semaphore_destroy lv2_sem 0
  needs_semaphore_wait : Needs semaphore_wait lv2_sem failed
  needs_semaphore_trywait : Needs semaphore_trywait lv2_sem failed
  needs_semaphore_post : Needs semaphore_post lv2_sem 0
  needs_mutex_destroy : Needs mutex_destroy lv2_mutex 0
  needs_mutex_lock : Needs mutex_lock lv2_mutex failed
  needs_mutex_trylock : Needs mutex_trylock lv2_mutex failed
  needs_mutex_unlock : Needs mutex_unlock lv2_mutex 0
  needs_cond_wait : Needs cond_wait lv2_cond failed
  needs_cond_signal : Needs cond_signal lv2_cond 0
  needs_cond_signal_all : Needs cond_signal_all lv2_cond 0
  needs_event_queue_receive : Needs event_queue_receive lv2_evq failed
  needs_event_port_connect_local : Needs event_port_connect_local lv2_evport 0
  needs_event_port_send : Needs event_port_send lv2_evport 0

-- When the identifier in r3 names no object of the kind that the call asks for, each of fourteen
-- calls returns with the result that the table says, -1 or 0, and changes nothing.
pub run_call_missing :
    {W : Type 0} (host : Host W) (fuel : ℕ) (c : Caller) (s : System W) (call : Call) (k : Kind)
    (r : ℕ)
    → Needs call k r
    → pool_get s.pool (word c 3) k ≡ none
    → run_call host fuel c s call ≡ returned (r, s)
unfolding run_call sys_semaphore_destroy sys_semaphore_wait sys_semaphore_trywait sys_semaphore_post
    sys_mutex_destroy sys_mutex_lock sys_mutex_trylock sys_mutex_unlock sys_cond_wait
    sys_cond_signal sys_cond_signal_all sys_event_queue_receive sys_event_port_connect_local
    sys_event_port_send
run_call_missing host fuel c s call k r needs_semaphore_destroy e = rw e refl
run_call_missing host fuel c s call k r needs_semaphore_wait e = rw e refl
run_call_missing host fuel c s call k r needs_semaphore_trywait e = rw e refl
run_call_missing host fuel c s call k r needs_semaphore_post e = rw e refl
run_call_missing host fuel c s call k r needs_mutex_destroy e = rw e refl
run_call_missing host fuel c s call k r needs_mutex_lock e = rw e refl
run_call_missing host fuel c s call k r needs_mutex_trylock e = rw e refl
run_call_missing host fuel c s call k r needs_mutex_unlock e = rw e refl
run_call_missing host fuel c s call k r needs_cond_wait e = rw e refl
run_call_missing host fuel c s call k r needs_cond_signal e = rw e refl
run_call_missing host fuel c s call k r needs_cond_signal_all e = rw e refl
run_call_missing host fuel c s call k r needs_event_queue_receive e = rw e refl
run_call_missing host fuel c s call k r needs_event_port_connect_local e = rw e refl
run_call_missing host fuel c s call k r needs_event_port_send e = rw e refl

-- The calls that free the entry in r3 without a look at its kind.
pub data Frees : Call → Type 0 where
  frees_cond : Frees cond_destroy
  frees_event_port : Frees event_port_destroy

by_Frees :
    {W : Type 0} (host : Host W) (fuel : ℕ) (c : Caller) (s : System W) (free : Call)
    → Frees free
    → run_call host fuel c s free ≡ returned (0, record s { pool = pool_free s.pool (word c 3) })
unfolding run_call sys_cond_destroy sys_event_port_destroy
by_Frees host fuel c s free frees_cond = refl
by_Frees host fuel c s free frees_event_port = refl

-- After sys_cond_destroy or sys_event_port_destroy with any identifier in r3, which may be that
-- of an object of another kind, each of the fourteen calls on that identifier, for a kind other
-- than the free one, returns as when it names no object and changes nothing; the world of the
-- host is as before, so that a handle or a section of the object is not given back.
pub run_call_freed :
    {W : Type 0} (host : Host W) (fuel : ℕ) (c d : Caller) (s : System W) (free call : Call)
    (k : Kind) (r : ℕ)
    → Frees free
    → Needs call k r
    → number k ≢ 0
    → word d 3 ≡ word c 3
    → (t : System W) × (run_call host fuel c s free ≡ returned (0, t))
      × (run_call host fuel d t call ≡ returned (r, t))
      × (t.world ≡ s.world)
run_call_freed host fuel c d s free call k r f n used same =
    let t = record s { pool = pool_free s.pool (word c 3) } in
    let gone : pool_get t.pool (word d 3) k ≡ none =
      ground (arith, pool_get-pool_free s.pool (word c 3) (word d 3) k used, same) in
    (t, by_Frees host fuel c s free f, run_call_missing host fuel d t call k r n gone, refl)
