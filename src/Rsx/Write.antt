-- ===== src/Rsx/Write.antt =====
-- runtime_glue.cpp: `vm_write32` with the addresses that it treats in a way of their own, and
-- `vm_write64`. Reports and traces are left out.
pub mod Laws
pub mod Defined
pub mod Plain
use dbz_budokai_hd.Common.{ℕ, Bool, ◌&&◌, ◌+◌, ◌==◌, if◌then◌else◌, Memory}
use dbz_budokai_hd.Common.Words.{u32, ◌>>>◌}
use dbz_budokai_hd.Common.Outcome.{Outcome, returned, ◌>>=◌}
use dbz_budokai_hd.Guest.{store32}
use dbz_budokai_hd.Rsx.State.{Rsx}
use dbz_budokai_hd.Rsx.Fifo.{rsx_process_fifo}

-- The guest's memory with the command processor that reads it.
pub record Machine : Type 0 where
  pub mem : Memory
  pub rsx : Rsx

-- A zero for one of the two list heads is replaced by the chain that the runtime has built.
abbrev pub kept_chain : ℕ → ℕ → ℕ
kept_chain a val =
    if a == 0x27F81C && val == 0
    then 0x70A000
    else if a == 0x27F814 && val == 0
    then 0x70B000
    else val

-- The put register at 0x10: the commands run, and the get register at 0 follows.
unfoldable pub put_written : ℕ → ℕ → Machine → Outcome Machine
unfolding rsx_process_fifo store32
put_written fuel val s = do
  rsx ← rsx_process_fifo fuel s.mem val s.rsx
  returned (record { mem = store32 (store32 s.mem 0 val) 0x10 val; rsx = rsx })

unfoldable pub vm_write32 : ℕ → ℕ → ℕ → Machine → Outcome Machine
unfolding put_written store32
vm_write32 fuel addr val s =
    let a = u32 addr in
    let v = kept_chain a val in
    if a == 0x279B08 && v == 0
    then returned s
    else if a == 0x10
    then put_written fuel v s
    else if a == 0x4
    then returned s
    else returned (record s { mem = store32 s.mem a v })

unfoldable pub vm_write64 : ℕ → ℕ → ℕ → Machine → Outcome Machine
unfolding vm_write32
vm_write64 fuel addr val s = do
  t ← vm_write32 fuel addr (u32 (val >>> 32)) s
  vm_write32 fuel (addr + 4) (u32 val) t
