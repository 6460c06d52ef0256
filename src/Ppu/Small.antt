-- ===== src/Ppu/Small.antt =====
-- extra_funcs.cpp: the wrappers that perform a prologue, the stubs, and the accessors. What they print
-- is left out.
use dbz_budokai_hd.Common.{
  ℕ, Bool, true, false, ◌+◌, ◌&&◌, ◌==◌, ltb, not, if◌then◌else◌, List, [], ◌∷◌,
}
use dbz_budokai_hd.Common.Words.{u32, add32, sub32}
use dbz_budokai_hd.Common.Outcome.{Outcome, returned, unending, ◌>>=◌}
use dbz_budokai_hd.Guest.{vm_read32}
use dbz_budokai_hd.Rsx.Write.{vm_write32}
use dbz_budokai_hd.Ppu.State.{
  Ppu, Env, Op, stdu, call, minus, sext32, set_gpr, on_machine, drain, run,
}

abbrev pub func_00063880 : List Op
func_00063880 = stdu (minus 0x80) ∷ call 0x63884 ∷ []

abbrev pub func_0002baf8 : List Op
func_0002baf8 = stdu (minus 0x70) ∷ call 0x2BAFC ∷ []

abbrev pub func_0002e6a0 : List Op
func_0002e6a0 = stdu (minus 0x130) ∷ call 0x2E6A4 ∷ []

abbrev pub func_00031364 : List Op
func_00031364 = stdu (minus 0x70) ∷ call 0x31368 ∷ []

abbrev pub func_000313ac : List Op
func_000313ac = stdu (minus 0x80) ∷ call 0x313B0 ∷ []

abbrev pub func_000eb2e0 : List Op
func_000eb2e0 = stdu (minus 0x70) ∷ call 0xEB2E4 ∷ []

-- gpr[r] = vm_read32(a), with an address in `uint32_t`
abbrev pub load_word : ℕ → ℕ → Ppu → Ppu
load_word r a c = set_gpr r (vm_read32 c.machine.mem (u32 a)) c

-- What the four workers do besides printing.
abbrev pub worker_stub : Ppu → Outcome Ppu
worker_stub c = returned (set_gpr 3 0 c)

unfoldable pub func_000edcdc : Ppu → Outcome Ppu
func_000edcdc c = returned (set_gpr 3 1 c)

unfoldable pub func_0005aa3c : Ppu → Outcome Ppu
unfolding vm_read32
func_0005aa3c c = returned (load_word 3 (sub32 (c.gpr 2) 0x79C0) c)

unfoldable pub func_000eb214 : Ppu → Outcome Ppu
unfolding vm_read32
func_000eb214 c =
    let obj = u32 (c.gpr 3) in
    let cap = vm_read32 c.machine.mem (add32 obj 0x1C) in
    let d = set_gpr 4 cap c in
    returned
      (set_gpr 3 (if ltb cap 0x10 then add32 obj 8 else vm_read32 c.machine.mem (add32 obj 8)) d)

module _ (E : Env) where
  -- The two wrappers that do not drain the trampoline.
  unfoldable pub func_000efd18 : Ppu → Outcome Ppu
  unfolding run
  func_000efd18 c = do d ← run E (stdu (minus 0xB0) ∷ []) c; E.lifted 0xEFD1C d

  unfoldable pub func_000efacc : Ppu → Outcome Ppu
  unfolding run
  func_000efacc c = do d ← run E (stdu (minus 0xC0) ∷ []) c; E.lifted 0xEFAD0 d

  -- gpr[1] = (int64_t)(int32_t)(gpr[1] + k); gpr[3] = 0
  abbrev pub leave_stub : ℕ → Ppu → Ppu
  leave_stub k c = set_gpr 3 0 (set_gpr 1 (sext32 (c.gpr 1 + k)) c)

  -- Both branches end alike.
  unfoldable pub func_000efec0 : Ppu → Outcome Ppu
  unfolding run vm_read32
  func_000efec0 c = do
    d ← run E (stdu (minus 0x80) ∷ []) c
    let e = load_word 31 (add32 (d.gpr 3) 0xC) d
    if u32 (e.gpr 31) == 0
        then returned (leave_stub 0x80 e)
        else returned (leave_stub 0x80 (set_gpr 3 (e.gpr 31) e))

  unfoldable pub func_000eb354 : Ppu → Outcome Ppu
  unfolding run
  func_000eb354 c = do
    d ← run E (stdu (minus 0x70) ∷ []) c
    if u32 (d.gpr 3) == 0 then returned (leave_stub 0x70 d) else returned (leave_stub 0x70 d)

  -- vm_write32(a, v), with an address in `uint32_t`
  abbrev pub store_word : ℕ → ℕ → Ppu → Outcome Ppu
  store_word a v = on_machine (vm_write32 E.rounds (u32 a) (u32 v))

  unfoldable pub func_0005aa4c : Ppu → Outcome Ppu
  unfolding vm_read32 vm_write32
  func_0005aa4c c = do
    let r9 = vm_read32 c.machine.mem (sub32 (c.gpr 2) 0x79BC)
    d ← store_word (r9 + 0x408) (c.gpr 4) c
    store_word (r9 + 0x404) (d.gpr 3) d

  unfoldable pub func_00059ff8 : Ppu → Outcome Ppu
  unfolding vm_read32 vm_write32
  func_00059ff8 c = do
    let toc = u32 (c.gpr 2)
    let place = vm_read32 c.machine.mem (sub32 toc 0x7A04)
    d ← store_word place (vm_read32 c.machine.mem (sub32 toc 0x7A00)) c
    returned (load_word 3 (sub32 toc 0x79FC) d)

  unfoldable pub func_0005a0cc : Ppu → Outcome Ppu
  unfolding vm_read32 vm_write32
  func_0005a0cc c = do
    let r9 = vm_read32 c.machine.mem (sub32 (c.gpr 2) 0x7A04)
    d ← store_word (r9 + 0x8) (c.gpr 4) c
    store_word (r9 + 0x4) (d.gpr 3) d

  -- With the static flag `s_main_called`.
  unfoldable pub func_000f205c : Bool → Ppu → Outcome (Bool × Ppu)
  unfolding run
  func_000f205c s_main_called c =
      if s_main_called
      then returned (true, set_gpr 3 0 c)
      else do d ← run E (stdu (minus 0xF0) ∷ call 0x12420 ∷ []) c; returned (true, d)

  -- With the thread's static `s_active_obj`; `body` is `func_0004B94C`, which may call this function
  -- again and takes and returns that value too.
  unfoldable pub func_00051204 : (ℕ → Ppu → Outcome (ℕ × Ppu)) → ℕ → Ppu → Outcome (ℕ × Ppu)
  unfolding drain
  func_00051204 body s_active_obj c =
      let obj = u32 (c.gpr 4) in
      if not (obj == 0) && obj == s_active_obj then returned (s_active_obj, set_gpr 3 0 c) else do
        (active, d) ← body obj (set_gpr 3 (c.gpr 4) c)
        e ← drain E E.rounds d
        returned (s_active_obj, e)

  -- The two stubs that sleep until `g_threads_should_exit`, with the values that they read of it.
  unfoldable pub sleep_until_exit : List Bool → Ppu → Outcome Ppu
  sleep_until_exit [] c = unending
  sleep_until_exit (should_exit ∷ flags) c = elim should_exit [
    | true ↦ returned (set_gpr 3 0 c)
    | false ↦ sleep_until_exit flags c
  ]

  unfoldable pub func_000d3020 : List Bool → Ppu → Outcome Ppu
  unfolding sleep_until_exit
  func_000d3020 flags c = sleep_until_exit flags c

  unfoldable pub func_00047f70 : List Bool → Ppu → Outcome Ppu
  unfolding vm_write32 sleep_until_exit
  func_00047f70 flags c = do d ← store_word (u32 (c.gpr 3) + 0x90) 1 c; sleep_until_exit flags d
