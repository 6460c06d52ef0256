-- ===== src/Lv2/Evq.antt =====
-- runtime_glue.cpp: `Lv2Event` and the ring buffer of `Lv2Evq`, with the code of
-- `sys_event_port_send` and `sys_event_queue_receive` that runs inside its critical section.
pub mod Fifo
use dbz_budokai_hd.Common.{ℕ, Bool, ◌||◌, ◌+◌, ◌%◌, ◌^◌, leb, ltb, update}
use dbz_budokai_hd.Common.Words.{add32, sub32}

-- `Lv2Event`
pub record Event : Type 0 where
  pub source : ℕ
  pub data1 : ℕ
  pub data2 : ℕ
  pub data3 : ℕ

abbrev pub evq_cap : ℕ
evq_cap = 128

-- `Lv2Evq`; `avail` is the handle of its semaphore, `section` its critical section, and `cnt` the
-- 32-bit pattern of an `int`.
pub record Evq : Type 0 where
  pub section : ℕ
  pub avail : ℕ
  pub buf : ℕ → Event
  pub head : ℕ
  pub tail : ℕ
  pub cnt : ℕ

-- calloc, with the two handles put in
abbrev pub evq_start : ℕ → ℕ → Evq
evq_start section avail = record {
  section = section;
  avail = avail;
  buf = λ i. record { source = 0; data1 = 0; data2 = 0; data3 = 0 };
  head = 0;
  tail = 0;
  cnt = 0;
}

-- q->cnt < EVQ_CAP, of signed numbers
abbrev pub has_room : Evq → Bool
has_room q = ltb q.cnt evq_cap || leb (2 ^ 31) q.cnt

-- What a send does when there is room.
unfoldable pub evq_push : Event → Evq → Evq
evq_push ev q = record q {
  buf = update q.buf q.tail ev;
  tail = (q.tail + 1) % evq_cap;
  cnt = add32 q.cnt 1;
}

-- What a receive does.
unfoldable pub evq_pop : Evq → Evq × Event
evq_pop q = (record q { head = (q.head + 1) % evq_cap; cnt = sub32 q.cnt 1 }, q.buf q.head)
