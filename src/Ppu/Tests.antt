-- ===== src/Ppu/Tests.antt =====
-- The hand-lifted functions on a small machine.
use dbz_budokai_hd.Common.{
  ℕ, true, ◌+◌, ◌*◌, ◌<◌, ◌≤◌, ◌≡◌, ◌⊎◌, ◌==◌, refl, arith, if◌then◌else◌, ◌↔◌, none, some, Memory,
}
use dbz_budokai_hd.Common.Outcome.{returned, unending}
use dbz_budokai_hd.Common.Safe.{Safe, safe_returned}
use dbz_budokai_hd.Guest.{vm_read32}
use dbz_budokai_hd.Rsx.State.{rsx_start}
use dbz_budokai_hd.Ppu.State.{Ppu, Env, run}
use dbz_budokai_hd.Ppu.Rotate.{ppc_rldicl}
use dbz_budokai_hd.Ppu.Rotate.Laws.{ppc_rldicl_lem}
use dbz_budokai_hd.Ppu.Lifted.{func_0002761c}
use dbz_budokai_hd.Ppu.Lifted.Laws.{word_of_object, func_0002761c_lem}
use dbz_budokai_hd.Ppu.Loops.{decrement}
use dbz_budokai_hd.Ppu.Loops.Laws.{decrement_endless}
use dbz_budokai_hd.Ppu.Dispatch.{extra_table, ppu_resolve_extra, Log, Linked, ps3_indirect_call}
use dbz_budokai_hd.Ppu.Dispatch.Laws.{
  IsLog, has_entry, ppu_resolve_extra_iff, ps3_indirect_call-IsLog,
}

-- Recompiled functions that return at once, and a processor that shifts by the low six bits.
abbrev idle : Env
idle = record {
  lifted = λ f c. returned c;
  dispatcher = λ c. returned c;
  rounds = 20;
  wide = λ v. v;
}

-- A count of 9 at 0x1000, and one of 1 eight bytes behind it.
abbrev counts : Memory
counts a = if a == 0x1003 then 9 else if a == 0x100B then 1 else 0

abbrev thread : Ppu
thread = record {
  gpr = λ r. if r == 4 then 0x1000 else if r == 30 then 0xFFFFFFFF else 0;
  cr = 0;
  lr = 0;
  ctr = 0x1234;
  reserve_addr = 0;
  reserve_value = 0;
  trampoline = none;
  machine = record { mem = counts; rsx = rsx_start true };
}

func_0002761c_lem_example :
    (d : Ppu) × (run idle func_0002761c thread ≡ returned d)
    × ((k : ℕ) → k < 14 → vm_read32 d.machine.mem (0x27F7F4 + k * 4) ≡ word_of_object k)
    × ((a : ℕ) → (a < 0x27F7F4) ⊎ (0x27F82C ≤ a) → d.machine.mem a ≡ thread.machine.mem a)
func_0002761c_lem_example = func_0002761c_lem idle thread

decrement_endless_example : decrement idle 30 3 4 1000 thread ≡ unending
unfolding vm_read32
decrement_endless_example =
    decrement_endless idle 1000 0 8 thread (omega arith) (omega arith) (omega arith) refl refl refl
      refl

abbrev empty_log : Log
empty_log = record { logged = λ i. 0; nlogged = 0 }

empty_log-IsLog : IsLog empty_log
empty_log-IsLog = record { room = omega arith; once = λ i j p q. absurd (omega arith) }

abbrev linked : Linked
linked = record { ppu_resolve_addr = λ a. none; function = λ f s. returned s }

ps3_indirect_call-IsLog_example :
    Safe (λ p. IsLog p.0) (ps3_indirect_call linked (empty_log, thread))
ps3_indirect_call-IsLog_example =
    ps3_indirect_call-IsLog linked empty_log thread empty_log-IsLog (λ f k d v. safe_returned v)

ppc_rldicl_lem_example :
    (ppc_rldicl (λ v. v) 0xFFFFFFFF12345678 0 32 ≡ 0x12345678)
    × (ppc_rldicl (λ v. v) 0xFFFFFFFF12345678 0 48 ≡ 0x5678)
ppc_rldicl_lem_example = ppc_rldicl_lem (λ v. v) 0xFFFFFFFF12345678 (omega arith) refl

ppu_resolve_extra_iff_example :
    (ppu_resolve_extra 0x33A50 ≡ some 0x33A54) ↔ (has_entry 0x33A50 0x33A54 extra_table ≡ true)
ppu_resolve_extra_iff_example = ppu_resolve_extra_iff 0x33A50 0x33A54
