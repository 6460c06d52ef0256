-- ===== src/Spurs/Workload/Descriptor.antt =====
-- spu_spurs.cpp: the task descriptor, written into the local store at any address.
use dbz_budokai_hd.Common.{
  ℕ, ◌+◌, ◌^◌, ◌≤◌, ◌%◌, ◌<◌, ◌≡◌, refl, arith, ap, fun_ext, some, none, Option, Memory, update,
}
use native.Mathlib.Decide.{dec_le}
use dbz_budokai_hd.Common.Words.{u8, u32, add32, ◌>>>◌}
use dbz_budokai_hd.Spu.Context.{ls_size}
use dbz_budokai_hd.Spu.Mfc.{◌>>=◌}
use dbz_budokai_hd.Spu.LocalStore.{ls_read32}
use dbz_budokai_hd.Spurs.State.{put_bytes, put_be32}
use dbz_budokai_hd.Spurs.Vertices.{src_ea}
use dbz_budokai_hd.Spurs.Workload.{ls_put, ls_put_be32, put_task_descriptor}

ls_put_inside : (a v : ℕ) (ls : Memory) → a < ls_size → ls_put a v ls ≡ some (update ls a (u8 v))
unfolding ls_put
ls_put_inside a v ls h = let same : u32 a ≡ a = omega arith in rw (same, ls_put) (ground arith)

ls_put_outside : (a v : ℕ) (ls : Memory) → ls_size ≤ u32 a → ls_put a v ls ≡ none
unfolding ls_put
ls_put_outside a v ls h = ground arith

ls_put_be32_inside :
    (off v : ℕ) (ls : Memory) → off + 4 ≤ ls_size → ls_put_be32 off v ls ≡ some (put_be32 ls off v)
unfolding ls_put_be32 put_be32 put_bytes
ls_put_be32_inside off v ls h =
    let a = update ls off (u8 (v >>> 24)) in
    let b = update a (off + 1) (u8 (v >>> 16)) in
    let c = update b (off + 2) (u8 (v >>> 8)) in
    rw
      (
        ls_put_inside off (v >>> 24) ls (omega arith),
        ls_put_inside (off + 1) (v >>> 16) a (omega arith),
        ls_put_inside (off + 2) (v >>> 8) b (omega arith),
        ls_put_inside (off + 3) v c (omega arith),
      )
      (ap some (fun_ext λ k. ground arith))

chain_none :
    {A B : Type 0} (m : Option A) (f : A → Option B) → ((a : A) → f a ≡ none) → (m >>= f) ≡ none
chain_none none f h = refl
chain_none (some a) f h = h a

ls_put_be32_outside :
    (off v : ℕ) (ls : Memory) → off < 2 ^ 32 → ls_size < off + 4 → ls_put_be32 off v ls ≡ none
unfolding ls_put_be32
ls_put_be32_outside off v ls word far = elim (dec_le ls_size off) [
  | yes h ↦ rw (ls_put_outside off (v >>> 24) ls (omega arith)) refl
  | no h ↦ chain_none (ls_put off (v >>> 24) ls) _ λ a. elim (dec_le ls_size (off + 1)) [
    | yes k ↦ rw (ls_put_outside (off + 1) (v >>> 16) a (omega arith)) refl
    | no k ↦ chain_none (ls_put (off + 1) (v >>> 16) a) _ λ b. elim (dec_le ls_size (off + 2)) [
      | yes l ↦ rw (ls_put_outside (off + 2) (v >>> 8) b (omega arith)) refl
      | no l ↦
          chain_none (ls_put (off + 2) (v >>> 8) b) _
            λ c. ls_put_outside (off + 3) v c (omega arith)
    ]
  ]
]

-- The four words of the descriptor, one after the other.
abbrev pub descriptor : ℕ → Memory → Memory
descriptor desc_ls ls =
    put_be32
      (put_be32 (put_be32 (put_be32 ls desc_ls 0) (desc_ls + 4) src_ea) (desc_ls + 8) 0xD0100000)
      (desc_ls + 12) 0

pub put_task_descriptor_inside :
    (desc_ls : ℕ) (ls : Memory)
    → desc_ls + 16 ≤ ls_size
    → put_task_descriptor desc_ls ls ≡ some (descriptor desc_ls ls)
unfolding put_task_descriptor
put_task_descriptor_inside desc_ls ls h =
    let a = put_be32 ls desc_ls 0 in
    let b = put_be32 a (desc_ls + 4) src_ea in
    let c = put_be32 b (desc_ls + 8) 0xD0100000 in
    let e₁ : add32 desc_ls 4 ≡ desc_ls + 4 = omega arith in
    let e₂ : add32 desc_ls 8 ≡ desc_ls + 8 = omega arith in
    let e₃ : add32 desc_ls 12 ≡ desc_ls + 12 = omega arith in
    rw
      (
        e₁,
        e₂,
        e₃,
        ls_put_be32_inside desc_ls 0 ls (omega arith),
        ls_put_be32_inside (desc_ls + 4) src_ea a (omega arith),
        ls_put_be32_inside (desc_ls + 8) 0xD0100000 b (omega arith),
        ls_put_be32_inside (desc_ls + 12) 0 c (omega arith),
      )
      refl

pub put_task_descriptor_outside :
    (desc_ls : ℕ) (ls : Memory)
    → desc_ls < 2 ^ 32
    → ls_size < desc_ls + 16
    → put_task_descriptor desc_ls ls ≡ none
unfolding put_task_descriptor
put_task_descriptor_outside desc_ls ls word far = elim (dec_le (desc_ls + 4) ls_size) [
  | no h ↦ rw (ls_put_be32_outside desc_ls 0 ls word (omega arith)) refl
  | yes h ↦
      let e₁ : add32 desc_ls 4 ≡ desc_ls + 4 = omega arith in
      let e₂ : add32 desc_ls 8 ≡ desc_ls + 8 = omega arith in
      let e₃ : add32 desc_ls 12 ≡ desc_ls + 12 = omega arith in
      chain_none (ls_put_be32 desc_ls 0 ls) _ λ a.
        chain_none (ls_put_be32 (add32 desc_ls 4) src_ea a) _ λ b.
          chain_none (ls_put_be32 (add32 desc_ls 8) 0xD0100000 b) _
            λ c. rw e₃ (ls_put_be32_outside (desc_ls + 12) 0 c (omega arith) (omega arith))
]

-- The descriptor, read as the geometry processor reads it.
pub ls_read32-descriptor :
    (desc_ls : ℕ) (ls : Memory)
    → desc_ls + 16 ≤ ls_size
    → (desc_ls % 4 ≡ 0)
    → (ls_read32 (descriptor desc_ls ls) desc_ls ≡ 0)
      × (ls_read32 (descriptor desc_ls ls) (desc_ls + 4) ≡ src_ea)
      × (ls_read32 (descriptor desc_ls ls) (desc_ls + 8) ≡ 0xD0100000)
      × (ls_read32 (descriptor desc_ls ls) (desc_ls + 12) ≡ 0)
unfolding put_be32 put_bytes ls_read32
ls_read32-descriptor desc_ls ls h e = (ground arith, ground arith, ground arith, ground arith)
