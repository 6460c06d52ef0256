-- ===== src/Lv2/Call/Typed/Events.antt =====
-- runtime_glue.cpp, `lv2_syscall`: event queues and ports keep the pool well-formed.
use dbz_budokai_hd.Common.{ℕ, ◌≡◌, if_keeps, Option, none, some}
use dbz_budokai_hd.Common.Outcome.{returned}
use dbz_budokai_hd.Common.Safe.{safe_returned}
use dbz_budokai_hd.Lv2.Pool.{lv2_evq, lv2_evport}
use dbz_budokai_hd.Lv2.Pool.Typed.{of_evq, of_evport, pool_free-IsTyped}
use dbz_budokai_hd.Lv2.Evq.{Event, Evq, has_room}
use dbz_budokai_hd.Lv2.System.{System, Caller, word}
use dbz_budokai_hd.Lv2.Host.{Host}
use dbz_budokai_hd.Lv2.Call.Object.{as_evq, as_port}
use dbz_budokai_hd.Lv2.Call.Typed.{
  IsSystem, KeepsPool, OthersKeep, on_object-KeepsPool, has_evq, has_port, set_body-IsTyped,
  create_object-KeepsPool,
}
use dbz_budokai_hd.Lv2.Call.Queue.{sys_event_queue_create, make_queue}
use dbz_budokai_hd.Lv2.Call.Port.{
  sys_event_port_create, sys_event_port_destroy, sys_event_port_connect_local, deliver,
  sys_event_port_send, make_port, sent_event,
}

module _ {W : Type 0} (host : Host W) (others : OthersKeep host) (fuel : ℕ) (c : Caller)
    (s : System W) (v : IsSystem s) where
  pub sys_event_queue_create-KeepsPool : KeepsPool (sys_event_queue_create host fuel c s)
  unfolding sys_event_queue_create
  sys_event_queue_create-KeepsPool =
      create_object-KeepsPool fuel lv2_evq (make_queue host fuel c s) (word c 3) s v
        (λ w. (of_evq _))

  pub sys_event_port_create-KeepsPool : KeepsPool (sys_event_port_create host fuel c s)
  unfolding sys_event_port_create
  sys_event_port_create-KeepsPool =
      create_object-KeepsPool fuel lv2_evport (make_port host fuel c s) (word c 3) s v
        (λ w. (of_evport _ _))

  pub sys_event_port_destroy-KeepsPool : KeepsPool (sys_event_port_destroy host fuel c s)
  unfolding sys_event_port_destroy
  sys_event_port_destroy-KeepsPool = safe_returned (pool_free-IsTyped s.pool (word c 3) v)

  pub sys_event_port_connect_local-KeepsPool :
      KeepsPool (sys_event_port_connect_local host fuel c s)
  unfolding sys_event_port_connect_local
  sys_event_port_connect_local-KeepsPool =
      on_object-KeepsPool lv2_evport as_port s (word c 3) v has_port (safe_returned v)
        (λ found k e. safe_returned (set_body-IsTyped s.pool (word c 3) _ v (rw k (of_evport _ _))))

  delivered :
      (id : ℕ) (ev : Event)
      → (s.pool.slot id).kind ≡ lv2_evq
      → (o : Option Evq)
      → KeepsPool
          (elim o [ none ↦ returned (0, s) | some q ↦ returned (0, deliver host fuel c s id ev q) ])
  unfolding deliver
  delivered id ev k none = safe_returned v
  delivered id ev k (some q) =
      safe_returned
        (if_keeps IsSystem (has_room q) (set_body-IsTyped s.pool id _ v (rw k (of_evq _))) v)

  pub sys_event_port_send-KeepsPool : KeepsPool (sys_event_port_send host fuel c s)
  unfolding sys_event_port_send deliver
  sys_event_port_send-KeepsPool =
      on_object-KeepsPool lv2_evport as_port s (word c 3) v has_port (safe_returned v) (λ found k e.
        on_object-KeepsPool lv2_evq as_evq s found.0 v has_evq (safe_returned v)
          (λ o l f. delivered found.0 (sent_event host fuel c s found.1) l o))
