-- ===== src/Lv2/Evq/Fifo.antt =====
-- runtime_glue.cpp: the ring buffer of `Lv2Evq` as the list of its events, the oldest first.
use dbz_budokai_hd.Common.{
  ℕ, zero, suc, true, false, ◌+◌, ◌-◌, ◌%◌, ◌^◌, ◌<◌, ◌≤◌, ◌≡◌, ◌≢◌, refl, sym, ap, ap₂, ◌∙◌, ◌==◌,
  if◌then◌else◌, List, [], ◌∷◌, ◌++◌, arith, ltb, Bool-cases, ltb→lt, inl, inr, update,
}
use dbz_budokai_hd.Lv2.Evq.{Event, Evq, evq_cap, has_room, evq_push, evq_pop}

-- `count` events from place `first` on.
unfoldable pub events_from : (ℕ → Event) → ℕ → ℕ → List Event
events_from buf first zero = []
events_from buf first (suc count) =
    buf (first % evq_cap) ∷ events_from buf ((first + 1) % evq_cap) count

-- The events that wait.
abbrev pub contents : Evq → List Event
contents q = events_from q.buf q.head q.cnt

-- The places are in range, and the tail is `cnt` places after the head.
abbrev pub IsEvq : Evq → Type 0
IsEvq q = (q.head < evq_cap) × (q.cnt ≤ evq_cap) × (q.tail ≡ (q.head + q.cnt) % evq_cap)

-- One more event at the end.
events_from-suc :
    (buf : ℕ → Event) (first count : ℕ)
    → events_from buf first (suc count)
      ≡ events_from buf first count ++ (buf ((first + count) % evq_cap) ∷ [])
unfolding events_from
events_from-suc buf first zero = ap (λ i. buf i ∷ []) (omega arith)
events_from-suc buf first (suc count) =
    let next = (first + 1) % evq_cap in
    let same : (next + count) % evq_cap ≡ (first + suc count) % evq_cap = omega arith in
    ap (λ l. buf (first % evq_cap) ∷ l)
      (events_from-suc buf next count ∙ ap (λ i. events_from buf next count ++ (buf i ∷ [])) same)

-- An event written at a place outside of the run.
events_from-update :
    (buf : ℕ → Event) (ev : Event) (place first count : ℕ)
    → ((i : ℕ) → i < count → (first + i) % evq_cap ≢ place)
    → events_from (update buf place ev) first count ≡ events_from buf first count
unfolding events_from
events_from-update buf ev place first zero out = refl
events_from-update buf ev place first (suc count) out =
    let here : first % evq_cap ≢ place = λ e. out 0 (omega arith) (omega (arith, e)) in
    let unchanged : update buf place ev (first % evq_cap) ≡ buf (first % evq_cap) = ground arith in
    ap₂ (λ e l. e ∷ l) unchanged
      (events_from-update buf ev place ((first + 1) % evq_cap) count
        (λ i h e. out (i + 1) (omega arith) (omega (arith, e))))

-- A well-formed queue with fewer than 128 events has room, and after a send it is well-formed and holds the
-- events that it held with the new one behind them.
pub evq_push_lem :
    (ev : Event) (q : Evq)
    → IsEvq q
    → q.cnt < evq_cap
    → (has_room q ≡ true)
      × IsEvq (evq_push ev q)
      × (contents (evq_push ev q) ≡ contents q ++ (ev ∷ []))
unfolding evq_push
evq_push_lem ev q (h, c, t) room = (
  ground arith,
  (h, omega arith, omega arith),
  ap (events_from (update q.buf q.tail ev) q.head) {x = (q.cnt + 1) % 2 ^ 32} {y = suc q.cnt}
        (omega arith)
      ∙ events_from-suc (update q.buf q.tail ev) q.head q.cnt
      ∙ ap₂ (λ l e. l ++ (e ∷ []))
          (events_from-update q.buf ev q.tail q.head q.cnt (λ i less e. omega arith))
          (ground arith),
)

-- A well-formed queue that holds events gives the first of them to a receive, and is then well-formed and
-- holds the others.
pub evq_pop_lem :
    (q : Evq)
    → IsEvq q
    → 0 < q.cnt
    → let (r, ev) = evq_pop q in IsEvq r × (contents q ≡ ev ∷ contents r)
unfolding evq_pop events_from
evq_pop_lem q (h, c, t) some_event = (
  (omega arith, omega arith, omega arith),
  ap (events_from q.buf q.head) {x = q.cnt} {y = suc (q.cnt - 1)} (omega arith)
      ∙ ap₂ (λ e l. e ∷ l) (ap q.buf (omega arith))
          (ap (events_from q.buf ((q.head + 1) % evq_cap)) (omega arith)),
)

-- What threads do with a queue: a send, which is given up when there is no room, and a receive, which
-- the semaphore lets through only when there is an event.
pub data Use : Type 0 where
  send : Event → Use
  receive : Use

-- What one use makes of the queue, and the event received.
unfoldable pub evq_use : Use → Evq → Evq × List Event
unfolding evq_push evq_pop
evq_use (send ev) q = (if has_room q then evq_push ev q else q, [])
evq_use receive q =
    let (r, ev) = evq_pop q in (if q.cnt == 0 then q else r, if q.cnt == 0 then [] else ev ∷ [])

unfoldable pub evq_run : List Use → Evq → Evq × List Event
unfolding evq_use
evq_run [] q = (q, [])
evq_run (u ∷ uses) q =
    let (r, got) = evq_use u q in let (last, more) = evq_run uses r in (last, got ++ more)

abbrev size : List Event → ℕ
size [] = 0
size (ev ∷ l) = suc (size l)

-- The same of a list that holds at most 128 events, the oldest first.
unfoldable pub list_use : Use → List Event → List Event × List Event
list_use (send ev) l = (if ltb (size l) 128 then l ++ (ev ∷ []) else l, [])
list_use receive [] = ([], [])
list_use receive (ev ∷ l) = (l, ev ∷ [])

unfoldable pub list_run : List Use → List Event → List Event × List Event
unfolding list_use
list_run [] l = (l, [])
list_run (u ∷ uses) l =
    let (r, got) = list_use u l in let (last, more) = list_run uses r in (last, got ++ more)

size-events_from : (buf : ℕ → Event) (first count : ℕ) → size (events_from buf first count) ≡ count
unfolding events_from
size-events_from buf first zero = refl
size-events_from buf first (suc count) = ap suc (size-events_from buf ((first + 1) % evq_cap) count)

no_events : (q : Evq) → q.cnt ≡ 0 → contents q ≡ []
unfolding events_from
no_events q e = ap (events_from q.buf q.head) e

-- A queue and a list after the same uses.
abbrev pub Agree : Evq × List Event → List Event × List Event → Type 0
Agree (q, got) x = IsEvq q × (x ≡ (contents q, got))

evq_use-Agree : (u : Use) (q : Evq) → IsEvq q → Agree (evq_use u q) (list_use u (contents q))
unfolding evq_use list_use
evq_use-Agree (send ev) q v = elim (Bool-cases (ltb q.cnt evq_cap)) [
  | inl room ↦
      let (_, w, held) = evq_push_lem ev q v (ltb→lt q.cnt evq_cap room) in
      rw (size-events_from q.buf q.head q.cnt, room) (w, ap (λ l. (l, [])) (sym held))
  | inr full ↦
      let none : has_room q ≡ false = ground arith in
      rw (none, size-events_from q.buf q.head q.cnt, full) (v, refl)
]
evq_use-Agree receive q v = elim (Bool-cases (q.cnt == 0)) [
  | inl empty ↦ rw (empty, no_events q (ground arith)) (v, refl)
  | inr held ↦ let (w, front) = evq_pop_lem q v (ground arith) in rw (held, front) (w, refl)
]

-- On a well-formed queue, any run of sends and receives, where a send into a full queue is given
-- up and a receive from an empty one is not let through, gives the same events in the same order
-- as that run on the list of the events that wait, which holds at most 128, and ends in a well-
-- formed queue that holds what the list then holds.
pub evq_run_lem :
    (uses : List Use) (q : Evq) → IsEvq q → Agree (evq_run uses q) (list_run uses (contents q))
unfolding evq_run list_run
evq_run_lem [] q v = (v, refl)
evq_run_lem (u ∷ uses) q v =
    let (w, same) = evq_use-Agree u q v in
    let (r, got) = evq_use u q in
    let (z, rest) = evq_run_lem uses r w in rw same (z, ap (λ x. (x.0, got ++ x.1)) rest)
