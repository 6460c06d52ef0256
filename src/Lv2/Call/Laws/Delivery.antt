-- ===== src/Lv2/Call/Laws/Delivery.antt =====
-- runtime_glue.cpp, `lv2_syscall`: an event that is sent through a port and then received.
use dbz_budokai_hd.Common.{
  ℕ, ◌+◌, ◌*◌, ◌^◌, ◌<◌, ◌≤◌, ◌≡◌, ◌⊎◌, inl, true, false, refl, ap, ap₂, ◌∙◌, ◌||◌, ◌==◌, leb, some,
  arith, Memory,
}
use dbz_budokai_hd.Common.Words.{u32}
use dbz_budokai_hd.Common.Outcome.{Outcome, returned, ◌>>=◌}
use dbz_budokai_hd.Guest.{vm_read32, vm_read64, store32}
use dbz_budokai_hd.Guest.Laws.{vm_read32-store32_self, vm_read32-store32_ne}
use dbz_budokai_hd.Rsx.Write.Plain.{
  IsPlain, vm_write32_plain, store64, vm_write64_plain, vm_read64-store64_self,
  vm_read64-store64_ne,
}
use dbz_budokai_hd.Lv2.Pool.{Kind, lv2_evq, lv2_evport, max_lv2_obj, number, Obj, Pool, pool_get}
use dbz_budokai_hd.Lv2.Evq.{Event, Evq, has_room, evq_push, evq_pop}
use dbz_budokai_hd.Lv2.Evq.Fifo.{IsEvq}
use dbz_budokai_hd.Lv2.System.{Body, evq, port, System, Caller, Left, word}
use dbz_budokai_hd.Lv2.Host.{Host}
use dbz_budokai_hd.Lv2.Call.Object.{set_body, write_out, write64}
use dbz_budokai_hd.Lv2.Call.Queue.{
  write_event, take_event, try_received, sys_event_queue_tryreceive,
}
use dbz_budokai_hd.Lv2.Call.Port.{deliver, sent_event, sys_event_port_send}

-- An event in the guest's memory, as a list of its words' places.
abbrev pub store_event : Memory → ℕ → Event → Memory
store_event m a ev =
    store64 (store64 (store64 (store64 m a ev.source) (a + 8) ev.data1) (a + 16) ev.data2) (a + 24)
      ev.data3

abbrev pub read_event : Memory → ℕ → Event
read_event m a = record {
  source = vm_read64 m a;
  data1 = vm_read64 m (a + 8);
  data2 = vm_read64 m (a + 16);
  data3 = vm_read64 m (a + 24);
}

-- The four words have 64 bits.
abbrev pub IsEvent : Event → Type 0
IsEvent ev = (ev.source < 2 ^ 64) × (ev.data1 < 2 ^ 64) × (ev.data2 < 2 ^ 64) × (ev.data3 < 2 ^ 64)

same_event :
    (x y : Event)
    → x.source ≡ y.source
    → x.data1 ≡ y.data1
    → x.data2 ≡ y.data2
    → x.data3 ≡ y.data3
    → x ≡ y
same_event x y p q r s i = record { source = p i; data1 = q i; data2 = r i; data3 = s i }

read_event-store_event :
    (m : Memory) (a : ℕ) (ev : Event)
    → a + 32 ≤ 2 ^ 32
    → IsEvent ev
    → read_event (store_event m a ev) a ≡ ev
read_event-store_event m a ev h (p, q, r, s) =
    let m1 = store64 m a ev.source in
    let m2 = store64 m1 (a + 8) ev.data1 in
    let m3 = store64 m2 (a + 16) ev.data2 in
    same_event (read_event (store_event m a ev) a) ev
      (vm_read64-store64_ne m3 (a + 24) a ev.data3 (omega arith) (omega arith) (inl (omega arith))
        ∙ vm_read64-store64_ne m2 (a + 16) a ev.data2 (omega arith) (omega arith)
            (inl (omega arith))
        ∙ vm_read64-store64_ne m1 (a + 8) a ev.data1 (omega arith) (omega arith) (inl (omega arith))
        ∙ vm_read64-store64_self m a ev.source (omega arith) p)
      (vm_read64-store64_ne m3 (a + 24) (a + 8) ev.data3 (omega arith) (omega arith)
          (inl (omega arith))
        ∙ vm_read64-store64_ne m2 (a + 16) (a + 8) ev.data2 (omega arith) (omega arith)
            (inl (omega arith))
        ∙ vm_read64-store64_self m1 (a + 8) ev.data1 (omega arith) q)
      (vm_read64-store64_ne m3 (a + 24) (a + 16) ev.data3 (omega arith) (omega arith)
          (inl (omega arith))
        ∙ vm_read64-store64_self m2 (a + 16) ev.data2 (omega arith) r)
      (vm_read64-store64_self m3 (a + 24) ev.data3 (omega arith) s)

-- The state with another memory.
abbrev with_mem : {W : Type 0} → System W → Memory → System W
with_mem s m = record s { machine = record (s.machine) { mem = m } }

write64_plain :
    {W : Type 0} (fuel a v : ℕ) (s : System W)
    → IsPlain a 8
    → write64 fuel a v s ≡ returned (with_mem s (store64 s.machine.mem a v))
write64_plain fuel a v s p = rw (vm_write64_plain fuel a v s.machine p) refl

module _ {W : Type 0} (host : Host W) (fuel : ℕ) where
  write_event_plain :
      (c : Caller) (s t : System W) (a : ℕ) (ev : Event)
      → IsPlain a 32
      → write_event host fuel c s a ev t ≡ returned (with_mem t (store_event t.machine.mem a ev))
  unfolding write_event
  write_event_plain c s t a ev p =
      let m1 = store64 t.machine.mem a ev.source in
      let m2 = store64 m1 (a + 8) ev.data1 in
      let m3 = store64 m2 (a + 16) ev.data2 in
      let there : (a == 0) ≡ false = ground arith in
      let at8 : u32 (a + 8) ≡ a + 8 = ground arith in
      let at16 : u32 (a + 16) ≡ a + 16 = ground arith in
      let at24 : u32 (a + 24) ≡ a + 24 = ground arith in
      rw
        (
          there,
          write64_plain fuel a ev.source t (ground arith),
          at8,
          write64_plain fuel (a + 8) ev.data1 (with_mem t m1) (ground arith),
          at16,
          write64_plain fuel (a + 16) ev.data2 (with_mem t m2) (ground arith),
          at24,
          write64_plain fuel (a + 24) ev.data3 (with_mem t m3) (ground arith),
        )
        refl

  -- A send into a queue that has room.
  send_delivers :
      (c : Caller) (s : System W) (qid name : ℕ) (q : Evq)
      → pool_get s.pool (word c 3) lv2_evport
        ≡ some (record { kind = lv2_evport; body = port qid name })
      → pool_get s.pool qid lv2_evq ≡ some (record { kind = lv2_evq; body = evq (some q) })
      → sys_event_port_send host fuel c s
        ≡ returned (0, deliver host fuel c s qid (sent_event host fuel c s name) q)
  unfolding sys_event_port_send
  send_delivers c s qid name q there here = rw (there, here) refl

  -- A try to receive from a queue whose semaphore lets it through.
  try_takes :
      (d : Caller) (s : System W) (r : Evq)
      → pool_get s.pool (word d 3) lv2_evq ≡ some (record { kind = lv2_evq; body = evq (some r) })
      → (s.pool.slot (word d 3)).body ≡ evq (some r)
      → (host.poll r.avail s.world).1 ≡ true
      → (u : System W) × (u.machine.mem ≡ s.machine.mem)
        × (sys_event_queue_tryreceive host fuel d s ≡ (
            write_event host fuel d s (word d 4) (evq_pop r).1 u >>= λ x.
            write_out fuel (word d 6) 1 x >>= λ y. returned (0, y)))
  unfolding sys_event_queue_tryreceive try_received take_event
  try_takes d s r there body got =
      let (world, _) = host.poll r.avail s.world in
      (
        record s { pool = set_body s.pool (word d 3) (evq (some (evq_pop r).0)); world = world },
        refl,
        rw (there, got, body) refl,
      )

abbrev finished : {W : Type 0} → System W → Outcome (Left W)
finished z = returned (0, z)

-- The event and the count, written.
event_and_count :
    {W : Type 0} (host : Host W) (fuel : ℕ) (d : Caller) (s x : System W) (a cp : ℕ) (ev : Event)
    → IsPlain a 32
    → IsPlain cp 4
    → (write_event host fuel d s a ev x >>= λ y. write_out fuel cp 1 y >>= finished)
      ≡ returned (0, with_mem x (store32 (store_event x.machine.mem a ev) cp 1))
event_and_count host fuel d s x a cp ev p q =
    let y = with_mem x (store_event x.machine.mem a ev) in
    let there : (cp == 0) ≡ false = ground arith in
    rw (write_event_plain host fuel d s x a ev p, there, vm_write32_plain fuel cp 1 y.machine q)
      refl

read_event-store32 :
    (m : Memory) (a cp v : ℕ)
    → a + 32 ≤ 2 ^ 32
    → cp + 4 ≤ 2 ^ 32
    → (cp + 4 ≤ a) ⊎ (a + 32 ≤ cp)
    → read_event (store32 m cp v) a ≡ read_event m a
unfolding vm_read64
read_event-store32 m a cp v h k apart =
    let same : (b : ℕ) → a ≤ b → b + 4 ≤ a + 32 → vm_read32 (store32 m cp v) b ≡ vm_read32 m b =
      λ b p q. vm_read32-store32_ne m cp b v k (omega arith) (ground arith) in
    let pair : (b : ℕ) → a ≤ b → b + 8 ≤ a + 32 → vm_read64 (store32 m cp v) b ≡ vm_read64 m b =
      λ b p q.
        ap₂ (λ x y. x * 2 ^ 32 + y) (same b p (omega arith))
          (same (b + 4) (omega arith) (omega arith)) in
    same_event (read_event (store32 m cp v) a) (read_event m a) (pair a (omega arith) (omega arith))
      (pair (a + 8) (omega arith) (omega arith)) (pair (a + 16) (omega arith) (omega arith))
      (pair (a + 24) (omega arith) (omega arith))

-- An object of the pool.
abbrev pub IsAt : Pool Body → ℕ → Kind → Body → Type 0
IsAt p id k b = (0 < id) × (id < 512) × (p.slot id ≡ record { kind = k; body = b })

pool_get_at :
    (p : Pool Body) (id : ℕ) (k : Kind) (b : Body)
    → IsAt p id k b
    → pool_get p id k ≡ some (record { kind = k; body = b })
unfolding pool_get
pool_get_at p id k b (low, high, e) =
    let within : (id == 0 || leb max_lv2_obj id) ≡ false = ground arith in
    let self : (number k == number k) ≡ true = ground arith in rw (within, e, self) refl

set_body-IsAt :
    (p : Pool Body) (id : ℕ) (k : Kind) (b d : Body) → IsAt p id k b → IsAt (set_body p id d) id k d
set_body-IsAt p id k b d (low, high, e) =
    let self : (id == id) ≡ true = ground arith in (low, high, rw (self, e) refl)

-- The event that a send puts into an empty queue is the one taken out.
evq_pop-evq_push : (ev : Event) (q : Evq) → IsEvq q → q.cnt ≡ 0 → (evq_pop (evq_push ev q)).1 ≡ ev
unfolding evq_pop evq_push
evq_pop-evq_push ev q (h, c, t) empty =
    let at_tail : (q.head == q.tail) ≡ true = ground arith in rw at_tail refl

-- After an event has been sent through a port to an empty, well-formed queue, whose semaphore
-- lets one through when it has been raised, a try to receive from the queue returns 0; the memory
-- of the guest then holds, at the place asked for, the name of the port and the three data words
-- of the sender, and the count 1. The places of the event and of the count lie apart, away from
-- the registers of the command processor and the pointers that vm_write32 guards, and the four
-- words have 64 bits.
pub event_port_send-tryreceive :
    {W : Type 0} (host : Host W) (fuel : ℕ) (c d : Caller) (s : System W) (name : ℕ) (q : Evq)
    → IsAt s.pool (word c 3) lv2_evport (port (word d 3) name)
    → IsAt s.pool (word d 3) lv2_evq (evq (some q))
    → IsEvq q
    → q.cnt ≡ 0
    → ((w : W) → (host.poll q.avail (host.release_semaphore q.avail 1 w)).1 ≡ true)
    → IsEvent (sent_event host fuel c s name)
    → IsPlain (word d 4) 32
    → IsPlain (word d 6) 4
    → (word d 6 + 4 ≤ word d 4) ⊎ (word d 4 + 32 ≤ word d 6)
    → (t u : System W) × (sys_event_port_send host fuel c s ≡ returned (0, t))
      × (sys_event_queue_tryreceive host fuel d t ≡ returned (0, u))
      × (read_event u.machine.mem (word d 4) ≡ sent_event host fuel c s name)
      × (vm_read32 u.machine.mem (word d 6) ≡ 1)
unfolding deliver
event_port_send-tryreceive host fuel c d s name q at_port at_queue v empty raised words event_at
      count_at apart =
    let id = word d 3 in
    let ev = sent_event host fuel c s name in
    let r = evq_push ev q in
    let t = record s {
      pool = set_body s.pool id (evq (some r));
      world = host.release_semaphore q.avail 1 s.world;
    } in
    let room : has_room q ≡ true = ground arith in
    let sent : sys_event_port_send host fuel c s ≡ returned (0, t) =
      send_delivers host fuel c s id name q (pool_get_at s.pool (word c 3) lv2_evport _ at_port)
        (pool_get_at s.pool id lv2_evq _ at_queue)
      ∙ (rw room refl) in
    let then_at : IsAt t.pool id lv2_evq (evq (some r)) =
      set_body-IsAt s.pool id lv2_evq (evq (some q)) (evq (some r)) at_queue in
    let (x, same, taken) =
      try_takes host fuel d t r (pool_get_at t.pool id lv2_evq _ then_at)
        (ap (λ (o : Obj Body). o.body) then_at.2) (raised s.world) in
    let m = x.machine.mem in
    let a = word d 4 in
    (
      t,
      with_mem x (store32 (store_event m a ev) (word d 6) 1),
      sent,
      taken
          ∙ ap
              (λ e.
                write_event host fuel d t a e x >>= λ y. write_out fuel (word d 6) 1 y >>= finished)
              (evq_pop-evq_push ev q v empty)
          ∙ event_and_count host fuel d t x a (word d 6) ev event_at count_at,
      read_event-store32 (store_event m a ev) a (word d 6) 1 (ground arith) (ground arith) apart
          ∙ read_event-store_event m a ev (ground arith) words,
      vm_read32-store32_self (store_event m a ev) (word d 6) 1 (ground arith) (omega arith),
    )
