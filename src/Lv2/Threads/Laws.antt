-- ===== src/Lv2/Threads/Laws.antt =====
-- runtime_glue.cpp: what `thread_table_find` finds after `thread_table_add`.
use dbz_budokai_hd.Common.{
  ℕ, zero, suc, ◌+◌, ◌<◌, ◌≡◌, ◌≢◌, ◌==◌, ◌&&◌, ltb, if◌then◌else◌, inl, inr, refl, ap, ◌∙◌, arith,
  update, Bool-cases,
}
use dbz_budokai_hd.Lv2.System.{Threads}
use dbz_budokai_hd.Lv2.Threads.{max_threads, thread_table_add, table_scan, thread_table_find}

-- No entry has the identifier.
abbrev pub IsNew : ℕ → Threads → Type 0
IsNew tid t = (i : ℕ) → i < t.count → t.ids i ≢ tid

-- The table with one more entry.
abbrev longer : ℕ → ℕ → Threads → Threads
longer tid h t = record t {
  handles = update t.handles t.count h;
  ids = update t.ids t.count tid;
  count = t.count + 1;
}

table_scan-longer :
    (tid h x : ℕ) (t : Threads) (left i : ℕ)
    → IsNew tid t
    → i + left ≡ t.count
    → table_scan (longer tid h t) x (suc left) i ≡ (if x == tid then h else table_scan t x left i)
unfolding table_scan
table_scan-longer tid h x t zero i new e = ground arith
table_scan-longer tid h x t (suc left) i new e =
    ground (arith, table_scan-longer tid h x t left (i + 1) new (omega arith), new i (omega arith))

-- When the identifier is not in the table yet, its handle is found after it is added if the table
-- has fewer than 64 entries, and otherwise the table finds what it found before; for every other
-- identifier the table finds what it found before.
pub thread_table_find-thread_table_add :
    (tid h x : ℕ) (t : Threads)
    → IsNew tid t
    → thread_table_find x (thread_table_add tid h t)
      ≡ (if ltb t.count max_threads && x == tid then h else thread_table_find x t)
unfolding thread_table_find thread_table_add
thread_table_find-thread_table_add tid h x t new = elim (Bool-cases (ltb t.count max_threads)) [
  | inl room ↦ rw room (
      ap (λ n. table_scan (longer tid h t) x n 0) {x = t.count + 1} {y = suc t.count} (omega arith)
      ∙ table_scan-longer tid h x t t.count 0 new (omega arith))
  | inr full ↦ rw full refl
]
