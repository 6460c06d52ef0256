-- ===== src/Rsx/Write/Defined.antt =====
-- runtime_glue.cpp: the run of the commands, and a write to the guest's memory, touch no dangling pointer.
use dbz_budokai_hd.Common.{
  ℕ, zero, suc, ◌+◌, ◌&&◌, ◌==◌, leb, ltb, Bool-cases, inl, inr, Memory, if_keeps,
}
use dbz_budokai_hd.Common.Words.{u32, add32, ◌>>>◌}
use dbz_budokai_hd.Common.Outcome.{Outcome, returned}
use dbz_budokai_hd.Common.Safe.{Safe, safe_returned, safe_unending, Safe->>=}
use dbz_budokai_hd.Rsx.State.{Rsx, rsx_io_to_ea}
use dbz_budokai_hd.Rsx.Fifo.{
  cmd_buf_end, Round, break_off, go, fifo_round, fifo_loop, rsx_process_fifo,
}
use dbz_budokai_hd.Rsx.Write.{Machine, kept_chain, put_written, vm_write32, vm_write64}

-- Any result at all.
abbrev pub Any : {A : Type 0} → A → Type 0
Any a = Unit {0}

abbrev pub IsDefined : {A : Type 0} → Outcome A → Type 0
IsDefined o = Safe Any o

round-IsDefined :
    (s : Rsx) (r : Round) (next : ℕ → Rsx → Outcome Rsx)
    → ((ptr : ℕ) (t : Rsx) → IsDefined (next ptr t))
    → IsDefined (elim r [ break_off ↦ returned s | go ptr t ↦ next ptr t ])
round-IsDefined s break_off next d = safe_returned tt
round-IsDefined s (go ptr t) next d = d ptr t

fifo_loop-IsDefined :
    (fuel : ℕ) (m : Memory) (put_ea ptr : ℕ) (s : Rsx) → IsDefined (fifo_loop fuel m put_ea ptr s)
unfolding fifo_loop
fifo_loop-IsDefined zero m put_ea ptr s = safe_unending
fifo_loop-IsDefined (suc fuel) m put_ea ptr s =
    elim (Bool-cases (leb (add32 ptr 4) put_ea && ltb ptr cmd_buf_end)) [
      | inl on ↦
          rw (on, fifo_loop)
            (round-IsDefined s (fifo_round m ptr s) (fifo_loop fuel m put_ea)
              (fifo_loop-IsDefined fuel m put_ea))
      | inr off ↦ rw (off, fifo_loop) (safe_returned tt)
    ]

pub rsx_process_fifo-IsDefined :
    (fuel : ℕ) (m : Memory) (put_val : ℕ) (s : Rsx) → IsDefined (rsx_process_fifo fuel m put_val s)
unfolding rsx_process_fifo
rsx_process_fifo-IsDefined fuel m put_val s =
    if_keeps IsDefined (leb (rsx_io_to_ea put_val) (rsx_io_to_ea s.get_ea)) (safe_returned tt) (
      Safe->>= (fifo_loop-IsDefined fuel m (rsx_io_to_ea put_val) (rsx_io_to_ea s.get_ea) s)
        (λ t d. safe_returned tt))

put_written-IsDefined : (fuel val : ℕ) (s : Machine) → IsDefined (put_written fuel val s)
unfolding put_written
put_written-IsDefined fuel val s =
    Safe->>= (rsx_process_fifo-IsDefined fuel s.mem val s.rsx) (λ t d. safe_returned tt)

pub vm_write32-IsDefined :
    (fuel addr val : ℕ) (s : Machine) → IsDefined (vm_write32 fuel addr val s)
unfolding vm_write32
vm_write32-IsDefined fuel addr val s =
    let a = u32 addr in
    let v = kept_chain a val in
    if_keeps IsDefined (a == 0x279B08 && v == 0) (safe_returned tt) (
      if_keeps IsDefined (a == 0x10) (put_written-IsDefined fuel v s)
        (if_keeps IsDefined (a == 0x4) (safe_returned tt) (safe_returned tt)))

pub vm_write64-IsDefined :
    (fuel addr val : ℕ) (s : Machine) → IsDefined (vm_write64 fuel addr val s)
unfolding vm_write64
vm_write64-IsDefined fuel addr val s =
    Safe->>= (vm_write32-IsDefined fuel addr (u32 (val >>> 32)) s)
      (λ t d. vm_write32-IsDefined fuel (addr + 4) (u32 val) t)
