-- ===== src/Spurs/Workload/Service.antt =====
-- spu_spurs.cpp: the service of stop 0x3FFF, which writes the task descriptor where r4 says.
use dbz_budokai_hd.Common.{
  ℕ, false, true, ◌+◌, ◌^◌, ◌≤◌, ◌%◌, ◌<◌, ◌≡◌, ◌↔◌, ◌==◌, ◌&&◌, refl, arith, ap, if_keeps, some,
  none, Memory, leb, ◌∙◌,
}
use native.Mathlib.Decide.{dec_le}
use dbz_budokai_hd.Common.Words.{u32}
use dbz_budokai_hd.Spu.Context.{ls_size}
use dbz_budokai_hd.Spu.Reg.{get_w}
use dbz_budokai_hd.Spu.Reg.Words.{get_w-set_w_self}
use dbz_budokai_hd.Spu.LocalStore.{ls_read32}
use dbz_budokai_hd.Spurs.State.{Spurs}
use dbz_budokai_hd.Spurs.Vertices.{Sphere}
use dbz_budokai_hd.Spurs.Workload.{stream, redirect, edge_service, goes_on}
use dbz_budokai_hd.Spurs.Workload.Descriptor.{
  descriptor, put_task_descriptor_inside, put_task_descriptor_outside, ls_read32-descriptor,
}

-- Where a workload that has been redirected goes on.
record Redirected (desc_ls : ℕ) (ls : Memory) (t : Spurs) : Type 0 where
  pc : t.workload.pc ≡ 0x3108
  running : t.workload.running ≡ true
  store : t.workload.ls ≡ ls
  r3 : get_w (t.workload.gpr 3) 0 ≡ u32 desc_ls
  r87 : get_w (t.workload.gpr 87) 0 ≡ u32 desc_ls

module _ (sphere : Sphere) (slot : ℕ) (s : Spurs) (word : get_w (s.workload.gpr 4) 0 < 2 ^ 32)
    (early : s.workload.pc < 0x3100) where
  redirect-Redirected :
      (desc_ls : ℕ) (ls : Memory) → Redirected desc_ls ls (redirect sphere slot desc_ls ls s)
  unfolding redirect
  redirect-Redirected desc_ls ls =
      let t = stream sphere slot s in
      if_keeps (Redirected desc_ls ls) (slot == 0 && t.edge_first_dispatch)
        (record {
          pc = refl;
          running = refl;
          store = refl;
          r3 = get_w-set_w_self _ 0 desc_ls;
          r87 = get_w-set_w_self _ 0 desc_ls;
        })
        (record {
          pc = refl;
          running = refl;
          store = refl;
          r3 = get_w-set_w_self _ 0 desc_ls;
          r87 = get_w-set_w_self _ 0 desc_ls;
        })

  serves :
      get_w (s.workload.gpr 4) 0 + 16 ≤ ls_size
      → let desc_ls = get_w (s.workload.gpr 4) 0 in
        edge_service sphere slot s
        ≡ some (goes_on (redirect sphere slot desc_ls (descriptor desc_ls s.workload.ls) s))
  unfolding edge_service
  serves fits =
      let off : leb 0x3100 s.workload.pc ≡ false = ground arith in
      rw (off, put_task_descriptor_inside (get_w (s.workload.gpr 4) 0) s.workload.ls fits) refl

  overruns : ls_size < get_w (s.workload.gpr 4) 0 + 16 → edge_service sphere slot s ≡ none
  unfolding edge_service
  overruns far =
      let off : leb 0x3100 s.workload.pc ≡ false = ground arith in
      rw (off, put_task_descriptor_outside (get_w (s.workload.gpr 4) 0) s.workload.ls word far) refl

  -- The service of a workload that stopped with code 0x3FFF before 0x3100 writes outside of the
  -- local store if and only if r4 is higher than 16 bytes below the end of it.
  pub edge_service_faults :
      (edge_service sphere slot s ≡ none) ↔ (ls_size < get_w (s.workload.gpr 4) 0 + 16)
  edge_service_faults = (
    λ e. elim (dec_le (get_w (s.workload.gpr 4) 0 + 16) ls_size) [
      | yes fits ↦ (let s = serves fits in cc)
      | no far ↦ omega (arith, far)
    ],
    overruns,
  )

  -- Where the workload stopped before 0x3100, the descriptor fits and is aligned to a word, the
  -- workload goes on at 0x3108 with the address of the descriptor in r3 and r87, and reads there
  -- the words 0, the address of the stream descriptor, the address of the command buffer, and 0.
  pub edge_service_sends :
      let desc_ls = get_w (s.workload.gpr 4) 0 in
      desc_ls + 16 ≤ ls_size
      → desc_ls % 4 ≡ 0
      → (t : Spurs) × (edge_service sphere slot s ≡ some (goes_on t))
        × (t.workload.pc ≡ 0x3108)
        × (t.workload.running ≡ true)
        × (get_w (t.workload.gpr 3) 0 ≡ desc_ls)
        × (get_w (t.workload.gpr 87) 0 ≡ desc_ls)
        × (ls_read32 t.workload.ls desc_ls ≡ 0)
        × (ls_read32 t.workload.ls (desc_ls + 4) ≡ 0x70C000)
        × (ls_read32 t.workload.ls (desc_ls + 8) ≡ 0xD0100000)
        × (ls_read32 t.workload.ls (desc_ls + 12) ≡ 0)
  edge_service_sends fits aligned =
      let desc_ls = get_w (s.workload.gpr 4) 0 in
      let ls = descriptor desc_ls s.workload.ls in
      let r = redirect-Redirected desc_ls ls in
      let same : u32 desc_ls ≡ desc_ls = omega arith in
      let (a, b, c, d) = ls_read32-descriptor desc_ls s.workload.ls fits aligned in
      (
        redirect sphere slot desc_ls ls s,
        serves fits,
        r.pc,
        r.running,
        r.r3 ∙ same,
        r.r87 ∙ same,
        ap (λ m. ls_read32 m desc_ls) r.store ∙ a,
        ap (λ m. ls_read32 m (desc_ls + 4)) r.store ∙ b,
        ap (λ m. ls_read32 m (desc_ls + 8)) r.store ∙ c,
        ap (λ m. ls_read32 m (desc_ls + 12)) r.store ∙ d,
      )
