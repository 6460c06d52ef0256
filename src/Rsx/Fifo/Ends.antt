-- ===== src/Rsx/Fifo/Ends.antt =====
-- runtime_glue.cpp: whether the loop of `rsx_process_fifo` comes to an end.
use dbz_budokai_hd.Common.{
  ℕ, Bool, zero, suc, true, false, ◌&&◌, ◌+◌, ◌<◌, ◌≤◌, ◌≡◌, refl, sym, ◌∙◌, ap, ◌⊎◌, inl, inr, leb,
  ltb, arith, Memory, Bool-cases,
}
use dbz_budokai_hd.Common.Words.{add32}
use dbz_budokai_hd.Common.Outcome.{Outcome, returned, unending}
use dbz_budokai_hd.Guest.{vm_read32}
use dbz_budokai_hd.Rsx.State.{Rsx, rsx_io_to_ea}
use dbz_budokai_hd.Rsx.Fifo.{
  cmd_buf_end, is_jump, jump_target, Round, break_off, go, fifo_round, fifo_loop, rsx_process_fifo,
}

-- Every jump within the buffer goes to a later place, or leaves the buffer.
abbrev pub JumpsForward : Memory → Type 0
JumpsForward m =
    (p : ℕ)
    → p < cmd_buf_end
    → is_jump (vm_read32 m p) ≡ true
    → (p < jump_target (vm_read32 m p))
      ⊎ (cmd_buf_end ≤ jump_target (vm_read32 m p))
      ⊎ (jump_target (vm_read32 m p) < 0xD0100000)

-- Where a round goes on.
abbrev next_of : Round → ℕ
next_of break_off = 0
next_of (go next t) = next

fifo_round_forward :
    (m : Memory) (ptr : ℕ) (s : Rsx)
    → JumpsForward m
    → ptr < cmd_buf_end
    → (fifo_round m ptr s ≡ break_off) ⊎ (ptr < next_of (fifo_round m ptr s))
unfolding fifo_round
fifo_round_forward m ptr s f h = ground (arith, f ptr h)

Round-cases : (r : Round) → (r ≡ break_off) ⊎ ((next : ℕ) × (t : Rsx) × (r ≡ go next t))
Round-cases break_off = inl refl
Round-cases (go next t) = inr (next, t, refl)

fifo_round_go :
    (m : Memory) (ptr next : ℕ) (s t : Rsx)
    → JumpsForward m
    → ptr < cmd_buf_end
    → fifo_round m ptr s ≡ go next t
    → ptr < next
fifo_round_go m ptr next s t f below e = elim (fifo_round_forward m ptr s f below) [
  | inl ended ↦ absurd (ground (arith, sym ended ∙ e))
  | inr h ↦ omega (arith, h, ap next_of e)
]

-- The test of the loop.
abbrev goes_on : ℕ → ℕ → Bool
goes_on put_ea ptr = leb (add32 ptr 4) put_ea && ltb ptr cmd_buf_end

fifo_loop_done :
    (fuel : ℕ) (m : Memory) (put_ea ptr : ℕ) (s : Rsx)
    → goes_on put_ea ptr ≡ false
    → fifo_loop (suc fuel) m put_ea ptr s ≡ returned s
unfolding fifo_loop
fifo_loop_done fuel m put_ea ptr s off = rw (off, fifo_loop) refl

fifo_loop_stop :
    (fuel : ℕ) (m : Memory) (put_ea ptr : ℕ) (s : Rsx)
    → goes_on put_ea ptr ≡ true
    → fifo_round m ptr s ≡ break_off
    → fifo_loop (suc fuel) m put_ea ptr s ≡ returned s
unfolding fifo_loop
fifo_loop_stop fuel m put_ea ptr s on e = rw (on, e, fifo_loop) refl

fifo_loop_go :
    (fuel : ℕ) (m : Memory) (put_ea ptr next : ℕ) (s t : Rsx)
    → goes_on put_ea ptr ≡ true
    → fifo_round m ptr s ≡ go next t
    → fifo_loop (suc fuel) m put_ea ptr s ≡ fifo_loop fuel m put_ea next t
unfolding fifo_loop
fifo_loop_go fuel m put_ea ptr next s t on e = rw (on, e, fifo_loop) refl

abbrev Returns : Outcome Rsx → Type 0
Returns o = (t : Rsx) × (o ≡ returned t)

fifo_loop-Returns :
    (fuel : ℕ) (m : Memory) (put_ea ptr : ℕ) (s : Rsx)
    → JumpsForward m
    → cmd_buf_end ≤ ptr + fuel
    → Returns (fifo_loop (suc fuel) m put_ea ptr s)
fifo_loop-Returns zero m put_ea ptr s f enough = (s, fifo_loop_done 0 m put_ea ptr s (ground arith))
fifo_loop-Returns (suc fuel) m put_ea ptr s f enough = elim (Bool-cases (goes_on put_ea ptr)) [
  | inl on ↦ elim (Round-cases (fifo_round m ptr s)) [
    | inl e ↦ (s, fifo_loop_stop (suc fuel) m put_ea ptr s on e)
    | inr (next, t, e) ↦
        let below : ptr < cmd_buf_end = ground arith in
        let farther : ptr < next = fifo_round_go m ptr next s t f below e in
        let (u, r) = fifo_loop-Returns fuel m put_ea next t f (omega arith) in
        (u, fifo_loop_go (suc fuel) m put_ea ptr next s t on e ∙ r)
  ]
  | inr off ↦ (s, fifo_loop_done (suc fuel) m put_ea ptr s off)
]

-- When every jump within the buffer goes forward or leaves it, and the rounds allowed are more
-- than the bytes from the get pointer to the end of the buffer, the commands are run to an end,
-- and the get pointer is then the put value.
pub rsx_process_fifo-Returns :
    (fuel : ℕ) (m : Memory) (put_val : ℕ) (s : Rsx)
    → JumpsForward m
    → cmd_buf_end ≤ rsx_io_to_ea s.get_ea + fuel
    → (t : Rsx) × (rsx_process_fifo (suc fuel) m put_val s ≡ returned t) × (t.get_ea ≡ put_val)
unfolding rsx_process_fifo
rsx_process_fifo-Returns fuel m put_val s f enough =
    let (t, e) =
      fifo_loop-Returns fuel m (rsx_io_to_ea put_val) (rsx_io_to_ea s.get_ea) s f enough in
    elim (Bool-cases (leb (rsx_io_to_ea put_val) (rsx_io_to_ea s.get_ea))) [
      | inl none_new ↦ (record s { get_ea = put_val }, rw (none_new) refl, refl)
      | inr some_new ↦ (record t { get_ea = put_val }, rw (some_new, e) refl, refl)
    ]

-- A word that jumps to itself.
abbrev pub JumpsToItself : Memory → ℕ → Type 0
JumpsToItself m p =
    (is_jump (vm_read32 m p) ≡ true)
    × (jump_target (vm_read32 m p) ≡ p)
    × (0xD0100000 ≤ p)
    × (p < cmd_buf_end)

fifo_round_itself : (m : Memory) (p : ℕ) (s : Rsx) → JumpsToItself m p → fifo_round m p s ≡ go p s
unfolding fifo_round
fifo_round_itself m p s (jumps, same, low, high) = ground arith

fifo_loop_itself :
    (fuel : ℕ) (m : Memory) (put_ea p : ℕ) (s : Rsx)
    → goes_on put_ea p ≡ true
    → JumpsToItself m p
    → fifo_loop fuel m put_ea p s ≡ unending
unfolding fifo_loop
fifo_loop_itself zero m put_ea p s on j = refl
fifo_loop_itself (suc fuel) m put_ea p s on j =
    fifo_loop_go fuel m put_ea p p s s on (fifo_round_itself m p s j)
    ∙ fifo_loop_itself fuel m put_ea p s on j

-- When the word at the get pointer lies within the buffer and jumps to itself, and the put
-- pointer is at least four bytes behind it, no number of rounds brings the run of the commands to
-- an end.
pub rsx_process_fifo_endless :
    (fuel : ℕ) (m : Memory) (put_val : ℕ) (s : Rsx)
    → JumpsToItself m (rsx_io_to_ea s.get_ea)
    → rsx_io_to_ea s.get_ea + 4 ≤ rsx_io_to_ea put_val
    → rsx_process_fifo fuel m put_val s ≡ unending
unfolding rsx_process_fifo
rsx_process_fifo_endless fuel m put_val s j behind =
    let new : leb (rsx_io_to_ea put_val) (rsx_io_to_ea s.get_ea) ≡ false = ground arith in
    let on : goes_on (rsx_io_to_ea put_val) (rsx_io_to_ea s.get_ea) ≡ true = ground arith in
    rw (new, fifo_loop_itself fuel m (rsx_io_to_ea put_val) (rsx_io_to_ea s.get_ea) s on j) refl
