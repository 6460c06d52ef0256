-- ===== src/Rsx/Write/Plain.antt =====
-- runtime_glue.cpp: writes to places that `vm_write32` treats in no way of their own.
use dbz_budokai_hd.Common.{
  ℕ, ◌+◌, ◌*◌, ◌^◌, ◌<◌, ◌≤◌, ◌≡◌, ◌⊎◌, inl, false, refl, ap, ap₂, ◌∙◌, ◌&&◌, ◌==◌, arith, Memory,
}
use dbz_budokai_hd.Common.Words.{u32, ◌>>>◌}
use dbz_budokai_hd.Common.Outcome.{returned}
use dbz_budokai_hd.Guest.{vm_read32, vm_read64, store32}
use dbz_budokai_hd.Guest.Laws.{vm_read32-store32_self, vm_read32-store32_ne}
use dbz_budokai_hd.Rsx.Write.{Machine, kept_chain, vm_write32, vm_write64}

-- n bytes from a on that are neither registers of the command processor nor the three pointers.
abbrev pub IsPlain : ℕ → ℕ → Type 0
IsPlain a n = ((0x14 ≤ a) × (a + n ≤ 0x279B08)) ⊎ ((0x27F820 ≤ a) × (a + n ≤ 2 ^ 32))

pub vm_write32_plain :
    (fuel a v : ℕ) (s : Machine)
    → IsPlain a 4
    → vm_write32 fuel a v s ≡ returned (record s { mem = store32 s.mem a v })
unfolding vm_write32
vm_write32_plain fuel a v s p =
    let same : u32 a ≡ a = ground arith in
    let root : (u32 a == 0x279B08 && kept_chain (u32 a) v == 0) ≡ false = ground arith in
    let put : (u32 a == 0x10) ≡ false = ground arith in
    let ref : (u32 a == 0x4) ≡ false = ground arith in
    let kept : kept_chain (u32 a) v ≡ v = ground arith in
    rw (root, put, ref, kept) (ap (λ x. returned (record s { mem = store32 s.mem x v })) same)

-- What `vm_write64` stores.
abbrev pub store64 : Memory → ℕ → ℕ → Memory
store64 m a v = store32 (store32 m a (u32 (v >>> 32))) (a + 4) (u32 v)

pub vm_write64_plain :
    (fuel a v : ℕ) (s : Machine)
    → IsPlain a 8
    → vm_write64 fuel a v s ≡ returned (record s { mem = store64 s.mem a v })
unfolding vm_write64
vm_write64_plain fuel a v s p =
    let t = record s { mem = store32 s.mem a (u32 (v >>> 32)) } in
    rw
      (
        vm_write32_plain fuel a (u32 (v >>> 32)) s (ground arith),
        vm_write32_plain fuel (a + 4) (u32 v) t (ground arith),
      )
      refl

pub vm_read64-store64_self :
    (m : Memory) (a v : ℕ) → a + 8 ≤ 2 ^ 32 → v < 2 ^ 64 → vm_read64 (store64 m a v) a ≡ v
unfolding vm_read64
vm_read64-store64_self m a v h k =
    let hi = u32 (v >>> 32) in
    let high : vm_read32 (store64 m a v) a ≡ hi =
      vm_read32-store32_ne (store32 m a hi) (a + 4) a (u32 v) (omega arith) (omega arith)
        (inl (omega arith))
      ∙ vm_read32-store32_self m a hi (omega arith) (omega arith) in
    let low : vm_read32 (store64 m a v) (a + 4) ≡ u32 v =
      vm_read32-store32_self (store32 m a hi) (a + 4) (u32 v) (omega arith) (omega arith) in
    omega (arith, high, low)

pub vm_read64-store64_ne :
    (m : Memory) (a b v : ℕ)
    → a + 8 ≤ 2 ^ 32
    → b + 8 ≤ 2 ^ 32
    → (b + 8 ≤ a) ⊎ (a + 8 ≤ b)
    → vm_read64 (store64 m a v) b ≡ vm_read64 m b
unfolding vm_read64
vm_read64-store64_ne m a b v h k o =
    let hi = u32 (v >>> 32) in
    let word_ne : (c : ℕ)
        → (c + 4 ≤ a) ⊎ (a + 8 ≤ c)
        → c + 4 ≤ 2 ^ 32
        → vm_read32 (store64 m a v) c ≡ vm_read32 m c =
      λ c p q.
        vm_read32-store32_ne (store32 m a hi) (a + 4) c (u32 v) (omega arith) q (ground arith)
        ∙ vm_read32-store32_ne m a c hi (omega arith) q (ground arith) in
    ap₂ (λ x y. x * 2 ^ 32 + y) (word_ne b (ground arith) (omega arith))
      (word_ne (b + 4) (ground arith) (omega arith))
