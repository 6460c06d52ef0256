-- ===== src/Lv2/Call/Typed/Receive.antt =====
-- runtime_glue.cpp, `lv2_syscall`: what takes an event from a queue, or ends the queue, keeps the pool
-- well-formed.
use dbz_budokai_hd.Common.{
  ℕ, ◌≡◌, ◌==◌, refl, sym, ap, ◌∙◌, subst, if_keeps, Option, none, some, false, ◌||◌, leb, inl, inr,
  Bool-cases,
}
use dbz_budokai_hd.Common.Outcome.{Outcome, returned}
use dbz_budokai_hd.Common.Safe.{safe_returned, safe_exited, safe_unending, Safe->>=}
use dbz_budokai_hd.Lv2.Pool.{Kind, max_lv2_obj, lv2_evq}
use dbz_budokai_hd.Lv2.Pool.Typed.{
  HasBody, of_free, pool_free-update, pool_get_out, of_evq, IsTyped, pool_free-IsTyped,
}
use dbz_budokai_hd.Lv2.Evq.{Event, Evq, evq_pop}
use dbz_budokai_hd.Lv2.System.{Body, evq, System, Caller, Left, word, wait_ms}
use dbz_budokai_hd.Lv2.Host.{Host}
use dbz_budokai_hd.Lv2.Call.Object.{member_of, as_evq, set_body}
use dbz_budokai_hd.Lv2.Call.Typed.{
  IsSystem, KeepsPool, HasQueue, OthersKeep, on_object-KeepsPool, has_evq, KeptBy, write64-KeptBy,
  write_out-KeptBy, finish-KeepsPool, set_body-IsTyped,
}
use dbz_budokai_hd.Lv2.Call.Queue.{
  sys_event_queue_destroy, write_event, take_event, sys_event_queue_receive,
  sys_event_queue_tryreceive, none_received, received, try_received, ended,
}

queue_of : (b : Body) → HasBody lv2_evq b → HasQueue b
queue_of _ (of_evq q) = (q, refl)

value_of : Evq → Outcome (Option Evq) → Evq
value_of d (returned (some q)) = q
value_of d _ = d

-- The queue that a lookup gives is the body of the entry.
looked_up : (b : Body) (q : Evq) → HasQueue b → as_evq b ≡ returned (some q) → b ≡ evq (some q)
unfolding value_of
looked_up b q (r, e) f =
    let same : r ≡ q = ap (value_of r) (sym (ap as_evq e) ∙ f) in e ∙ ap (λ x. evq (some x)) same

still_of : (k : Kind) (q r : Evq) → HasBody k (evq (some q)) → HasBody k (evq (some r))
still_of k q r (of_free _) = of_free _
still_of k q r (of_evq _) = of_evq r

KeptBy-trans :
    {W : Type 0} (s t : System W) (o : Outcome (System W))
    → t.pool ≡ s.pool
    → KeptBy t o
    → KeptBy s o
KeptBy-trans s t _ e (safe_returned d) = safe_returned (d ∙ e)
KeptBy-trans s t _ e safe_unending = safe_unending
KeptBy-trans s t _ e (safe_exited code) = safe_exited code

module _ {W : Type 0} (host : Host W) (others : OthersKeep host) (fuel : ℕ) (c : Caller)
    (s : System W) (v : IsSystem s) where
  write_event-KeptBy :
      (evp : ℕ) (ev : Event) (t : System W) → KeptBy t (write_event host fuel c s evp ev t)
  unfolding write_event
  write_event-KeptBy evp ev t = if_keeps (KeptBy t) (evp == 0) (safe_returned refl) (
      Safe->>= (write64-KeptBy fuel evp ev.source t) (λ a d.
        Safe->>= (KeptBy-trans t a _ d (write64-KeptBy fuel _ ev.data1 a)) (λ b e.
          Safe->>= (KeptBy-trans t b _ e (write64-KeptBy fuel _ ev.data2 b))
            (λ g f. KeptBy-trans t g _ f (write64-KeptBy fuel _ ev.data3 g)))))

  take_event-KeepsPool :
      (id : ℕ) (t : System W) (next : System W → Event → Outcome (Left W))
      → IsSystem t
      → HasQueue (t.pool.slot id).body
      → ((u : System W) (ev : Event) → IsSystem u → KeepsPool (next u ev))
      → KeepsPool (take_event host fuel c s id t next)
  unfolding take_event
  take_event-KeepsPool id t next w (q, e) after =
      let (r, ev) = evq_pop q in
      let typed : HasBody (t.pool.slot id).kind (evq (some q)) =
        subst (HasBody (t.pool.slot id).kind) e (w.1 id) in
      rw (e, as_evq)
        (after (record t { pool = set_body t.pool id (evq (some r)) }) ev
          (set_body-IsTyped t.pool id (evq (some r)) w (still_of _ q r typed)))

  ended-KeepsPool :
      (word c 3 == 0 || leb max_lv2_obj (word c 3)) ≡ false
      → (o : Option Evq) → KeepsPool (ended host fuel c s o)
  ended-KeepsPool within none = safe_returned (pool_free-IsTyped s.pool (word c 3) v)
  ended-KeepsPool within (some q) = safe_returned (pool_free-update s.pool (word c 3) _ within v)

  pub sys_event_queue_destroy-KeepsPool : KeepsPool (sys_event_queue_destroy host fuel c s)
  unfolding sys_event_queue_destroy
  sys_event_queue_destroy-KeepsPool =
      let id = word c 3 in
      let freed = safe_returned (pool_free-IsTyped s.pool id v) in
      elim (Bool-cases (id == 0 || leb max_lv2_obj id)) [
        | inl out ↦ rw (pool_get_out s.pool id lv2_evq out, member_of) freed
        | inr within ↦
            on_object-KeepsPool lv2_evq as_evq s id v has_evq freed
              (λ o k e. ended-KeepsPool within o)
      ]

  -- The queue waited for is there after the wait.
  waited :
      (o : Option Evq)
      → (s.pool.slot (word c 3)).kind ≡ lv2_evq
      → as_evq (s.pool.slot (word c 3)).body ≡ returned o
      → KeepsPool (received host fuel c s o)
  unfolding received
  waited none k e = safe_returned v
  waited (some q) k e =
      let here =
        queue_of (s.pool.slot (word c 3)).body
          (subst (λ l. HasBody l (s.pool.slot (word c 3)).body) k (v.1 (word c 3))) in
      let is_q = looked_up (s.pool.slot (word c 3)).body q here e in
      let (w, there) = others.while_waiting q.avail (wait_ms (c.gpr 5)) s v in
      let (t, timed_out) = host.wait_object q.avail (wait_ms (c.gpr 5)) s in
      if_keeps KeepsPool timed_out (safe_returned w) (
        take_event-KeepsPool (word c 3) t _ w (there (word c 3) q k is_q refl)
          (λ u ev x. finish-KeepsPool u 0 x (write_event-KeptBy (word c 4) ev u)))

  pub sys_event_queue_receive-KeepsPool : KeepsPool (sys_event_queue_receive host fuel c s)
  unfolding sys_event_queue_receive
  sys_event_queue_receive-KeepsPool =
      on_object-KeepsPool lv2_evq as_evq s (word c 3) v has_evq (safe_returned v) waited

  none_received-KeepsPool : (t : System W) → IsSystem t → KeepsPool (none_received host fuel c s t)
  none_received-KeepsPool t w = finish-KeepsPool t 0 w (write_out-KeptBy fuel (word c 6) 0 t)

  polled :
      (o : Option Evq)
      → (s.pool.slot (word c 3)).kind ≡ lv2_evq
      → as_evq (s.pool.slot (word c 3)).body ≡ returned o
      → KeepsPool (try_received host fuel c s o)
  unfolding try_received
  polled none k e = none_received-KeepsPool s v
  polled (some q) k e =
      let here =
        queue_of (s.pool.slot (word c 3)).body
          (subst (λ l. HasBody l (s.pool.slot (word c 3)).body) k (v.1 (word c 3))) in
      let (world, got) = host.poll q.avail s.world in
      let t = record s { world = world } in
      if_keeps KeepsPool got
        (take_event-KeepsPool (word c 3) t _ v here (λ u ev x.
          Safe->>= (write_event-KeptBy (word c 4) ev u) (λ a d.
            finish-KeepsPool a 0 (subst IsTyped (sym d) x) (write_out-KeptBy fuel (word c 6) 1 a))))
        (none_received-KeepsPool t v)

  pub sys_event_queue_tryreceive-KeepsPool : KeepsPool (sys_event_queue_tryreceive host fuel c s)
  unfolding sys_event_queue_tryreceive
  sys_event_queue_tryreceive-KeepsPool =
      on_object-KeepsPool lv2_evq as_evq s (word c 3) v has_evq (none_received-KeepsPool s v) polled
