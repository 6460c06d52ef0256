-- ===== src/Spurs/Workload.antt =====
-- spu_spurs.cpp: `spurs_run_workload`. A result of `none` is an undefined access: a null `vm_base`, one
-- that the loader or the interpreter makes, or the write of a task descriptor outside of the local
-- store. The flag `verbose`, which only the log reads, is left out.
pub mod Prepare
pub mod Keeps
pub mod Return
pub mod Budget
pub mod Descriptor
pub mod Service
use dbz_budokai_hd.Common.{
  ℕ, zero, suc, Bool, true, false, ◌+◌, ◌&&◌, ◌==◌, leb, ltb, not, if◌then◌else◌, Option, some,
  none, List, [], ◌∷◌, Memory, update,
}
use dbz_budokai_hd.Common.Words.{u8, u32, add32, ◌>>>◌}
use dbz_budokai_hd.Spu.Context.{Ctx, ls_size, spu_ctx_init}
use dbz_budokai_hd.Spu.Mfc.{◌>>=◌}
use dbz_budokai_hd.Spu.Reg.{get_w}
use dbz_budokai_hd.Spu.Isa.Floats.{Floats}
use dbz_budokai_hd.Spu.Elf.{File, Loaded, rejected, loaded, undefined, has_magic, spu_load_elf}
use dbz_budokai_hd.Spurs.State.{
  Spurs, elf_at, set_word, put_bytes, place_sentinel, rsx_process_edge, run_workload_ctx,
  game_workload_1_gaddr, game_workload_1_size, spurs_ctx_ea,
}
use dbz_budokai_hd.Spurs.Vertices.{Sphere, fill_streams, src_ea}

-- Whether the function goes on or returns.
pub data Prepared : Type 0 where
  skip : Spurs → Prepared
  ready : Spurs → Prepared

abbrev pub workload_elf : Spurs → File
workload_elf s = elf_at s game_workload_1_gaddr game_workload_1_size

-- The entry that the geometry table gets at 0xBC00.
abbrev pub geometry_sentinel : List ℕ
geometry_sentinel =
    0xAA ∷ 0xBB ∷ 0xCC ∷ 0xDD ∷ 0x11 ∷ 0x22 ∷ 0x33 ∷ 0x44 ∷ 0x55 ∷ 0x66 ∷ 0x77 ∷ 0x88 ∷ 0x99 ∷ 0xAA
    ∷ 0xBB ∷ 0xCC ∷ []

-- What follows `spu_load_elf` where the context is loaded for the first time.
unfoldable pub first_loaded : Ctx → Spurs → Loaded → Option Prepared
unfolding put_bytes
first_loaded c s undefined = none
first_loaded c s rejected = some (skip (record s { workload = c }))
first_loaded c s (loaded d) = some (
    ready (record s {
      workload = record d { ls = put_bytes d.ls 0xBC00 geometry_sentinel };
      workload_valid = true;
    }))

unfoldable pub first_load : Spurs → Option Prepared
unfolding spu_ctx_init spu_load_elf first_loaded
first_load s =
    if not s.vm_base
    then none
    else if not (has_magic (workload_elf s))
    then some (skip s)
    else (let c = record (spu_ctx_init 2 s.vm_base s.vm) { trace_limit = 50; trace_count = 0 } in
        first_loaded c s (spu_load_elf c (workload_elf s)))

-- What follows it where the context has been loaded before.
unfoldable pub reloaded : Spurs → Loaded → Option Prepared
reloaded s undefined = none
reloaded s rejected = some (skip s)
reloaded s (loaded d) = some (ready (record s { workload = record d { trace_limit = 0 } }))

-- The branch that asks again whether the context is valid is never taken and left out.
unfoldable pub prepare : Spurs → Option Prepared
unfolding first_load spu_load_elf reloaded
prepare s =
    if not s.workload_valid
    then first_load s
    else if not s.vm_base
    then none
    else reloaded s (spu_load_elf s.workload (workload_elf s))

unfoldable pub set_registers : Ctx → Ctx
unfolding place_sentinel
set_registers c =
    let c₁ = set_word 0 0 0x40 (set_word 3 0 spurs_ctx_ea c) in
    let c₂ = set_word 114 0 0x4000 (set_word 19 0 0x40 (set_word 88 0 0x80 c₁)) in
    place_sentinel (set_word 89 0 0x80 (set_word 86 0 0x80 c₂))

-- g_wl_ctx.ls[a] = v, with an index in `uint32_t`
unfoldable pub ls_put : ℕ → ℕ → Memory → Option Memory
ls_put a v ls = if ltb (u32 a) ls_size then some (update ls (u32 a) (u8 v)) else none

-- The lambda `be32`, on the local store.
unfoldable pub ls_put_be32 : ℕ → ℕ → Memory → Option Memory
unfolding ls_put
ls_put_be32 off v ls = do
  a ← ls_put off (v >>> 24) ls
  b ← ls_put (off + 1) (v >>> 16) a
  c ← ls_put (off + 2) (v >>> 8) b
  ls_put (off + 3) v c

unfoldable pub put_task_descriptor : ℕ → Memory → Option Memory
unfolding ls_put_be32
put_task_descriptor desc_ls ls = do
  a ← ls_put_be32 desc_ls 0 ls
  b ← ls_put_be32 (add32 desc_ls 4) src_ea a
  c ← ls_put_be32 (add32 desc_ls 8) 0xD0100000 b
  ls_put_be32 (add32 desc_ls 12) 0 c

-- Whether the loop goes on or ends.
pub data Next : Type 0 where
  goes_on : Spurs → Next
  ends : Spurs → Next

-- Stop 0
unfoldable pub yielded : ℕ → Spurs → Next
yielded restart s =
    let c = s.workload in
    if leb 0x20000 c.pc
    then ends s
    else if restart == 0
    then goes_on
        (record s { workload = record c { running = true; trace_limit = 30; trace_count = 0 } })
    else goes_on (record s { workload = record c { running = true; trace_limit = 0 } })

module _ (sphere : Sphere) (slot : ℕ) where
  -- The stream descriptor and the vertices, which slot 0 alone writes.
  unfoldable pub stream : Spurs → Spurs
  unfolding fill_streams
  stream s =
      if s.vm_base && slot == 0
      then record s {
        vm = fill_streams sphere (u32 (s.edge_frame + 1)) s.vm;
        edge_frame = u32 (s.edge_frame + 1);
      }
      else s

  -- From the writes on, with the local store that has the task descriptor.
  unfoldable pub redirect : ℕ → Memory → Spurs → Spurs
  unfolding stream
  redirect desc_ls ls s =
      let t = stream s in
      let c = set_word 87 0 desc_ls (set_word 3 0 desc_ls (record (t.workload) { ls = ls })) in
      let d = record c { pc = 0x3108; running = true } in
      if slot == 0 && t.edge_first_dispatch
      then record t {
        workload = record d { trace_limit = 0; trace_count = 0 };
        edge_first_dispatch = false;
      }
      else record t { workload = d }

  -- Stop 0x3FFF
  unfoldable pub edge_service : Spurs → Option Next
  unfolding get_w put_task_descriptor redirect rsx_process_edge
  edge_service s =
      if leb 0x3100 s.workload.pc
      then some (ends (rsx_process_edge s))
      else (let desc_ls = get_w (s.workload.gpr 4) 0 in
          do ls ← put_task_descriptor desc_ls s.workload.ls; some (goes_on (redirect desc_ls ls s)))

  -- The body of the loop, after `spu_run`.
  unfoldable pub after_run : ℕ → Spurs → Option Next
  unfolding yielded edge_service
  after_run restart s =
      if s.workload.running
      then some (goes_on s)
      else if s.workload.stop_code == 0
      then some (yielded restart s)
      else if s.workload.stop_code == 0x100
      then some (ends s)
      else if s.workload.stop_code == 0x3FFF
      then edge_service s
      else some (ends s)

module _ (F : Floats) (sphere : Sphere) (slot : ℕ) where
  -- The loop, with the restarts left, the number of this one and the instructions so far.
  unfoldable pub workload_loop : ℕ → ℕ → ℕ → Spurs → Option (ℕ × Spurs)
  unfolding run_workload_ctx after_run
  workload_loop zero restart ran s = some (ran, s)
  workload_loop (suc left) restart ran s = do
    (n, t) ← run_workload_ctx F 50000 s
    next ← after_run sphere slot restart t
    elim next [
      | goes_on u ↦ workload_loop left (restart + 1) (add32 ran n) u
      | ends u ↦ some (add32 ran n, u)
    ]

  unfoldable pub run_prepared : Prepared → Option Spurs
  unfolding set_registers workload_loop rsx_process_edge
  run_prepared (skip s) = some s
  run_prepared (ready s) = do
    (ran, t) ← workload_loop 20 0 0 (record s { workload = set_registers s.workload })
    some (if slot == 0 then rsx_process_edge t else t)

  unfoldable pub spurs_run_workload : Spurs → Option Spurs
  unfolding prepare run_prepared
  spurs_run_workload s = do prepared ← prepare s; run_prepared prepared
