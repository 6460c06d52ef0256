-- ===== src/Rsx/Write/Laws.antt =====
-- runtime_glue.cpp: what `vm_write32` keeps.
use dbz_budokai_hd.Common.{
  ℕ, suc, ◌+◌, ◌%◌, ◌^◌, ◌<◌, ◌≤◌, ◌≡◌, ◌≢◌, refl, sym, ap, ◌∙◌, ◌&&◌, ◌==◌, inl, inr, arith,
  Memory, Bool-cases,
}
use dbz_budokai_hd.Common.Words.{u32}
use dbz_budokai_hd.Common.Outcome.{Outcome, returned}
use dbz_budokai_hd.Guest.{vm_read32, store32}
use dbz_budokai_hd.Guest.Laws.{vm_read32-store32_self, vm_read32-store32_ne}
use dbz_budokai_hd.Rsx.State.{rsx_io_to_ea}
use dbz_budokai_hd.Rsx.Fifo.{cmd_buf_end}
use dbz_budokai_hd.Rsx.Fifo.Ends.{JumpsForward, rsx_process_fifo-Returns}
use dbz_budokai_hd.Rsx.Write.{Machine, kept_chain, put_written, vm_write32}

-- The two list heads and the root object are not null.
abbrev pub HeadsKept : Memory → Type 0
HeadsKept m = (vm_read32 m 0x27F81C ≢ 0) × (vm_read32 m 0x27F814 ≢ 0) × (vm_read32 m 0x279B08 ≢ 0)

-- A store to a word other than the one read, or of a value that is not 0.
store32_keeps :
    (m : Memory) (a v head : ℕ)
    → a % 4 ≡ 0
    → a + 4 ≤ 2 ^ 32
    → v < 2 ^ 32
    → head % 4 ≡ 0
    → head + 4 ≤ 2 ^ 32
    → (a ≡ head → v ≢ 0)
    → vm_read32 m head ≢ 0
    → vm_read32 (store32 m a v) head ≢ 0
store32_keeps m a v head al ab vb hl hb safe kept e = elim (Bool-cases (a == head)) [
  | inl same ↦
      let at_head : a ≡ head = ground arith in
      safe at_head (
        sym (vm_read32-store32_self m a v (omega arith) vb)
        ∙ ap (vm_read32 (store32 m a v)) at_head
        ∙ e)
  | inr other ↦ kept (sym (vm_read32-store32_ne m a head v ab hb (ground arith)) ∙ e)
]

module _ (m : Memory) (a v : ℕ) (aligned : a % 4 ≡ 0) (below : a + 4 ≤ 2 ^ 32)
    (word : v < 2 ^ 32) where
  store32-HeadsKept :
      (a ≡ 0x27F81C → v ≢ 0)
      → (a ≡ 0x27F814 → v ≢ 0)
      → (a ≡ 0x279B08 → v ≢ 0)
      → HeadsKept m
      → HeadsKept (store32 m a v)
  store32-HeadsKept first second third (x, y, z) = (
    store32_keeps m a v 0x27F81C aligned below word refl (omega arith) first x,
    store32_keeps m a v 0x27F814 aligned below word refl (omega arith) second y,
    store32_keeps m a v 0x279B08 aligned below word refl (omega arith) third z,
  )

-- How a write ends.
abbrev pub ReturnsKept : Outcome Machine → Type 0
ReturnsKept o = (t : Machine) × (o ≡ returned t) × HeadsKept t.mem

put_written-ReturnsKept :
    (fuel val : ℕ) (s : Machine)
    → JumpsForward s.mem
    → cmd_buf_end ≤ rsx_io_to_ea s.rsx.get_ea + fuel
    → val < 2 ^ 32
    → HeadsKept s.mem
    → ReturnsKept (put_written (suc fuel) val s)
unfolding put_written
put_written-ReturnsKept fuel val s f enough word h =
    let (rsx, e, _) = rsx_process_fifo-Returns fuel s.mem val s.rsx f enough in
    (
      record { mem = store32 (store32 s.mem 0 val) 0x10 val; rsx = rsx },
      rw e refl,
      store32-HeadsKept (store32 s.mem 0 val) 0x10 val refl (omega arith) word
          (λ x. absurd (omega arith)) (λ x. absurd (omega arith)) (λ x. absurd (omega arith))
          (store32-HeadsKept s.mem 0 val refl (omega arith) word (λ x. absurd (omega arith))
            (λ x. absurd (omega arith)) (λ x. absurd (omega arith)) h),
    )

-- When every jump within the buffer goes forward or leaves it, and the rounds allowed are more
-- than the bytes from the get pointer to the end of the buffer, a write of a 32-bit value to an
-- aligned address returns, and the two list heads and the root object, which were not null, are
-- not null.
pub vm_write32-ReturnsKept :
    (fuel addr val : ℕ) (s : Machine)
    → JumpsForward s.mem
    → cmd_buf_end ≤ rsx_io_to_ea s.rsx.get_ea + fuel
    → u32 addr % 4 ≡ 0
    → val < 2 ^ 32
    → HeadsKept s.mem
    → ReturnsKept (vm_write32 (suc fuel) addr val s)
unfolding vm_write32
vm_write32-ReturnsKept fuel addr val s f enough aligned word h =
    let a = u32 addr in
    let v = kept_chain a val in
    elim (Bool-cases (a == 0x279B08 && v == 0)) [
      | inl root ↦ (s, rw root refl, h)
      | inr live ↦ elim (Bool-cases (a == 0x10)) [
        | inl put ↦ rw (live, put) (put_written-ReturnsKept fuel v s f enough (ground arith) h)
        | inr plain ↦ elim (Bool-cases (a == 0x4)) [
          | inl ref ↦ (s, rw (live, plain, ref) refl, h)
          | inr stored ↦ (
            record s { mem = store32 s.mem a v },
            rw (live, plain, stored) refl,
            store32-HeadsKept s.mem a v aligned (omega arith) (ground arith) (λ x. ground arith)
                (λ x. ground arith) (λ x. ground arith) h,
          )
        ]
      ]
    ]
