-- ===== src/Lv2/Call/Queue.antt =====
-- runtime_glue.cpp, `lv2_syscall`: event queues.
use dbz_budokai_hd.Common.{ℕ, ◌==◌, if◌then◌else◌, Option, none, some, ◌+◌}
use dbz_budokai_hd.Common.Words.{u32}
use dbz_budokai_hd.Common.Outcome.{Outcome, returned, undefined, ◌>>=◌}
use dbz_budokai_hd.Lv2.Pool.{pool_free, lv2_evq}
use dbz_budokai_hd.Lv2.System.{
  Body, evq, System, Caller, Left, failed, cell_etimedout, wait_ms, word,
}
use dbz_budokai_hd.Lv2.Host.{Host}
use dbz_budokai_hd.Lv2.Evq.{Event, Evq, evq_start, evq_pop}
use dbz_budokai_hd.Lv2.Call.Object.{write_out, write64, as_evq, on_object, create_object, set_body}

module _ {W : Type 0} (host : Host W) (fuel : ℕ) (c : Caller) (s : System W) where
  -- CreateSemaphoreA(NULL, 0, EVQ_CAP * 4, NULL)
  abbrev pub make_queue : W → W × Body
  make_queue w =
      let (with_section, section) = host.create_section w in
      let (v, avail) = host.create_semaphore 0 512 with_section in
      (v, evq (some (evq_start section avail)))

  -- sys_event_queue_create (125)
  unfoldable pub sys_event_queue_create : Outcome (Left W)
  unfolding create_object
  sys_event_queue_create = create_object fuel lv2_evq make_queue (word c 3) s

  -- The semaphore and the section of a queue that is destroyed.
  abbrev closed : Evq → W
  closed q = host.delete_section q.section (host.close_handle q.avail s.world)

  -- The end of a queue: the entry is freed whatever its kind is.
  abbrev pub ended : Option Evq → Outcome (Left W)
  ended none = returned (0, record s { pool = pool_free s.pool (word c 3) })
  ended (some q) = returned (
    0,
    record s {
      pool = pool_free (set_body s.pool (word c 3) (evq none)) (word c 3);
      world = closed q;
    },
  )

  -- sys_event_queue_destroy (126)
  unfoldable pub sys_event_queue_destroy : Outcome (Left W)
  unfolding pool_free
  sys_event_queue_destroy = on_object lv2_evq as_evq s (word c 3) (ended none) ended

  -- if (evp), the four words of an event
  unfoldable pub write_event : ℕ → Event → System W → Outcome (System W)
  write_event evp ev t = if evp == 0 then returned t else (do
    a ← write64 fuel evp ev.source t
    b ← write64 fuel (u32 (evp + 8)) ev.data1 a
    d ← write64 fuel (u32 (evp + 16)) ev.data2 b
    write64 fuel (u32 (evp + 24)) ev.data3 d)

  -- What follows a wait that did not time out: the entry is read again, and its kind is not.
  unfoldable pub take_event :
      ℕ → System W → (System W → Event → Outcome (Left W)) → Outcome (Left W)
  unfolding evq_pop
  take_event id t next = do
    o ← as_evq (t.pool.slot id).body
    elim o [
      | none ↦ undefined
      | some q ↦ (do
        let (r, ev) = evq_pop q
        next (record t { pool = set_body t.pool id (evq (some r)) }) ev)
    ]

  -- With the queue that was looked up, or the null pointer.
  unfoldable pub received : Option Evq → Outcome (Left W)
  unfolding take_event write_event
  received none = returned (failed, s)
  received (some q) =
      let (t, timed_out) = host.wait_object q.avail (wait_ms (c.gpr 5)) s in
      if timed_out
      then returned (cell_etimedout, t)
      else take_event (word c 3) t (λ u ev. write_event (word c 4) ev u >>= λ x. returned (0, x))

  -- sys_event_queue_receive (127)
  unfoldable pub sys_event_queue_receive : Outcome (Left W)
  unfolding received
  sys_event_queue_receive = on_object lv2_evq as_evq s (word c 3) (returned (failed, s)) received

  -- Nothing is received: the count is 0.
  abbrev pub none_received : System W → Outcome (Left W)
  none_received t = write_out fuel (word c 6) 0 t >>= λ u. returned (0, u)

  unfoldable pub try_received : Option Evq → Outcome (Left W)
  unfolding take_event write_event
  try_received none = none_received s
  try_received (some q) =
      let (world, got) = host.poll q.avail s.world in
      let t = record s { world = world } in
      if got
      then take_event (word c 3) t (λ u ev. do
        x ← write_event (word c 4) ev u
        y ← write_out fuel (word c 6) 1 x
        returned (0, y))
      else none_received t

  -- sys_event_queue_tryreceive (128)
  unfoldable pub sys_event_queue_tryreceive : Outcome (Left W)
  unfolding try_received
  sys_event_queue_tryreceive = on_object lv2_evq as_evq s (word c 3) (none_received s) try_received
