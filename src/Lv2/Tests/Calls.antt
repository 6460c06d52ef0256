-- ===== src/Lv2/Tests/Calls.antt =====
-- System calls on a system with a semaphore, under a host that counts the names it gives out, and where
-- nothing else runs.
use dbz_budokai_hd.Common.{
  ℕ, ◌+◌, ◌==◌, ◌≡◌, ◌≢◌, ◌&&◌, ltb, refl, if◌then◌else◌, true, false, ◌*◌, some, List, [], ◌∷◌,
  arith, inl, inr, Bool-cases,
}
use dbz_budokai_hd.Common.Outcome.{returned}
use dbz_budokai_hd.Rsx.State.{rsx_start}
use dbz_budokai_hd.Rsx.Write.{Machine}
use dbz_budokai_hd.Lv2.Pool.{lv2_evq, lv2_evport, lv2_free, lv2_sem, number, Pool}
use dbz_budokai_hd.Lv2.Pool.Typed.{of_free, of_sem, IsTyped}
use dbz_budokai_hd.Lv2.Evq.{Event, evq_start}
use dbz_budokai_hd.Lv2.Evq.Fifo.{
  Use, send, receive, Agree, evq_run, list_run, contents, evq_run_lem,
}
use dbz_budokai_hd.Lv2.System.{
  port, evq, Body, zeroed, sem, System, Threads, Caller, failed, system_start,
}
use dbz_budokai_hd.Lv2.Host.{Host}
use dbz_budokai_hd.Lv2.Threads.{max_threads, thread_table_add, thread_table_find}
use dbz_budokai_hd.Lv2.Threads.Laws.{thread_table_find-thread_table_add}
use dbz_budokai_hd.Lv2.Call.Number.{semaphore_wait, cond_destroy}
use dbz_budokai_hd.Lv2.Call.{run_call, lv2_syscall}
use dbz_budokai_hd.Lv2.Call.Laws.Missing.{needs_semaphore_wait, frees_cond, run_call_freed}
use dbz_budokai_hd.Lv2.Call.Typed.{KeepsPool, OthersKeep}
use dbz_budokai_hd.Lv2.Call.Typed.Every.{lv2_syscall-KeepsPool}
use dbz_budokai_hd.Guest.{vm_read32}
use dbz_budokai_hd.Lv2.Call.Queue.{sys_event_queue_tryreceive}
use dbz_budokai_hd.Lv2.Call.Port.{sent_event, sys_event_port_send}
use dbz_budokai_hd.Lv2.Call.Laws.Delivery.{read_event, event_port_send-tryreceive}

-- Events with a number each.
abbrev event : ℕ → Event
event n = record { source = n; data1 = n; data2 = n; data3 = n }

abbrev uses : List Use
uses = send (event 1) ∷ send (event 2) ∷ receive ∷ receive ∷ receive ∷ []

evq_run_lem_example :
    Agree (evq_run uses (evq_start 1 2)) (list_run uses (contents (evq_start 1 2)))
evq_run_lem_example = evq_run_lem uses (evq_start 1 2) (omega arith, omega arith, refl)

abbrev host : Host ℕ
host = record {
  commit_stack = λ base w. (w, true);
  create_thread = λ t w. (w + 1, w + 1);
  switch_to_thread = λ w. w;
  exit_code = λ h w. 0;
  create_semaphore = λ initial max w. (w + 1, w + 1);
  close_handle = λ h w. w;
  release_semaphore = λ h n w. w;
  poll = λ h w. (w, true);
  create_section = λ w. (w + 1, w + 1);
  delete_section = λ h w. w;
  try_enter = λ h w. (w, true);
  leave = λ h w. w;
  create_condition = λ w. (w + 1, w + 1);
  wake = λ cv w. w;
  wake_all = λ cv w. w;
  tick_count = λ w. w;
  wait_object = λ h ms s. (s, false);
  enter = λ cs s. s;
  sleep_condition = λ cv cs ms s. (s, true);
}

alone : OthersKeep host
alone = record {
  while_waiting = λ h ms s v. (v, λ id q k b e. (q, b));
  while_entering = λ cs s v. v;
  while_sleeping = λ cv cs ms s v. v;
}

abbrev idle : Machine
idle = record { mem = λ a. 0; rsx = rsx_start true }

-- A semaphore at 1, and the cursor behind it.
abbrev with_semaphore : Pool Body
with_semaphore = record {
  slot = λ id.
      if id == 1
      then record { kind = lv2_sem; body = sem 7 }
      else record { kind = lv2_free; body = zeroed };
  cursor = 2;
}

abbrev system : System ℕ
system = record (system_start idle 100) { pool = with_semaphore }

-- The caller of call n on object 1.
abbrev calls : ℕ → Caller
calls n = record { gpr = λ r. if r == 11 then n else if r == 3 then 1 else 0; thread_id = 0 }

used : number lv2_sem ≢ 0
unfolding number
used e = absurd (omega (arith, e))

run_call_freed_example :
    (t : System ℕ) × (run_call host 0 (calls 96) system cond_destroy ≡ returned (0, t))
    × (run_call host 0 (calls 86) t semaphore_wait ≡ returned (failed, t))
    × (t.world ≡ system.world)
run_call_freed_example =
    run_call_freed host 0 (calls 96) (calls 86) system cond_destroy semaphore_wait lv2_sem failed
      frees_cond needs_semaphore_wait used refl

system-IsTyped : IsTyped system.pool
unfolding system_start
system-IsTyped = (
  (omega arith, omega arith),
  λ id. elim (Bool-cases (id == 1)) [ inl e ↦ rw e (of_sem 7) | inr e ↦ rw e (of_free zeroed) ],
)

lv2_syscall-KeepsPool_example : KeepsPool (lv2_syscall host 1000 (calls 125) system)
lv2_syscall-KeepsPool_example =
    lv2_syscall-KeepsPool host alone 1000 (calls 125) system system-IsTyped

abbrev two_threads : Threads
two_threads = record {
  stack_cursor = 0xCFDF0000;
  id_next = 3;
  handles = λ i. i + 40;
  ids = λ i. i + 1;
  count = 2;
}

thread_table_find-thread_table_add_example :
    thread_table_find 3 (thread_table_add 3 50 two_threads)
    ≡ (if ltb 2 max_threads && 3 == 3 then 50 else thread_table_find 3 two_threads)
thread_table_find-thread_table_add_example =
    thread_table_find-thread_table_add 3 50 3 two_threads (λ i h e. absurd (omega (arith, h, e)))

-- A port at 1, named 9, that is connected to an empty queue at 2.
abbrev connected : System ℕ
connected = record (system_start idle 100) {
  pool = record {
    slot = λ id.
        if id == 1
        then record { kind = lv2_evport; body = port 2 9 }
        else if id == 2
        then record { kind = lv2_evq; body = evq (some (evq_start 1 2)) }
        else record { kind = lv2_free; body = zeroed };
    cursor = 3;
  };
}

-- The registers of the two callers.
abbrev sender : Caller
sender = record { gpr = λ r. if r == 3 then 1 else r * 100; thread_id = 0 }

abbrev receiver : Caller
receiver = record {
  gpr = λ r. if r == 3 then 2 else if r == 4 then 0x1000 else if r == 6 then 0x2000 else 0;
  thread_id = 5;
}

event_port_send-tryreceive_example :
    (t u : System ℕ) × (sys_event_port_send host 0 sender connected ≡ returned (0, t))
    × (sys_event_queue_tryreceive host 0 receiver t ≡ returned (0, u))
    × (read_event u.machine.mem 0x1000 ≡ sent_event host 0 sender connected 9)
    × (vm_read32 u.machine.mem 0x2000 ≡ 1)
unfolding system_start
event_port_send-tryreceive_example =
    event_port_send-tryreceive host 0 sender receiver connected 9 (evq_start 1 2)
      (omega arith, omega arith, refl) (omega arith, omega arith, refl)
      (omega arith, omega arith, refl) refl (λ w. refl)
      (omega arith, omega arith, omega arith, omega arith) (inl (omega arith, omega arith))
      (inl (omega arith, omega arith)) (inr (omega arith))
