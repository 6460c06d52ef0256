-- ===== src/Lv2/Call/Port.antt =====
-- runtime_glue.cpp, `lv2_syscall`: event ports.
use dbz_budokai_hd.Common.{ℕ, if◌then◌else◌, none, some}
use dbz_budokai_hd.Common.Outcome.{Outcome, returned}
use dbz_budokai_hd.Lv2.Pool.{pool_free, lv2_evq, lv2_evport}
use dbz_budokai_hd.Lv2.System.{Body, evq, port, System, Caller, Left, word}
use dbz_budokai_hd.Lv2.Host.{Host}
use dbz_budokai_hd.Lv2.Evq.{Event, Evq, has_room, evq_push}
use dbz_budokai_hd.Lv2.Call.Object.{as_evq, as_port, on_object, create_object, set_body}

module _ {W : Type 0} (host : Host W) (fuel : ℕ) (c : Caller) (s : System W) where
  abbrev pub make_port : W → W × Body
  make_port w = (w, port 0 (c.gpr 5))

  -- sys_event_port_create (130)
  unfoldable pub sys_event_port_create : Outcome (Left W)
  unfolding create_object
  sys_event_port_create = create_object fuel lv2_evport make_port (word c 3) s

  -- sys_event_port_destroy (131), which asks for no kind
  unfoldable pub sys_event_port_destroy : Outcome (Left W)
  unfolding pool_free
  sys_event_port_destroy = returned (0, record s { pool = pool_free s.pool (word c 3) })

  -- sys_event_port_connect_local (132)
  unfoldable pub sys_event_port_connect_local : Outcome (Left W)
  sys_event_port_connect_local =
      on_object lv2_evport as_port s (word c 3) (returned (0, s)) (λ found.
        returned (0, record s { pool = set_body s.pool (word c 3) (port (word c 4) found.1) }))

  abbrev pub sent_event : ℕ → Event
  sent_event name = record { source = name; data1 = c.gpr 4; data2 = c.gpr 5; data3 = c.gpr 6 }

  -- The event goes in and the semaphore is raised, or, when the queue is full, nothing happens.
  unfoldable pub deliver : ℕ → Event → Evq → System W
  unfolding evq_push
  deliver id ev q =
      if has_room q
      then record s {
        pool = set_body s.pool id (evq (some (evq_push ev q)));
        world = host.release_semaphore q.avail 1 s.world;
      }
      else s

  -- sys_event_port_send (134)
  unfoldable pub sys_event_port_send : Outcome (Left W)
  unfolding deliver
  sys_event_port_send = on_object lv2_evport as_port s (word c 3) (returned (0, s)) (λ found.
      let (queue_id, name) = found in
      on_object lv2_evq as_evq s queue_id (returned (0, s)) (λ o. elim o [
        | none ↦ returned (0, s)
        | some q ↦ returned (0, deliver queue_id (sent_event name) q)
      ]))
