-- ===== src/Lv2/Threads.antt =====
-- runtime_glue.cpp: `alloc_thread_stack`, `thread_table_add` and `thread_table_find`.
pub mod Laws
use dbz_budokai_hd.Common.{ℕ, zero, suc, ◌+◌, ◌==◌, ltb, if◌then◌else◌, true, false, update}
use dbz_budokai_hd.Common.Words.{sub32}
use dbz_budokai_hd.Lv2.System.{Threads, System}
use dbz_budokai_hd.Lv2.Host.{Host}

abbrev pub max_threads : ℕ
max_threads = 64

abbrev pub thread_stack_size : ℕ
thread_stack_size = 0x100000

abbrev pub thread_stack_bias : ℕ
thread_stack_bias = 0x10000

-- The stack pointer of the new stack, or 0.
unfoldable pub alloc_thread_stack : {W : Type 0} → Host W → System W → System W × ℕ
alloc_thread_stack host s =
    let top = s.threads.stack_cursor in
    let base = sub32 top thread_stack_size in
    let (world, ok) = host.commit_stack base s.world in
    (
      record s { threads = record (s.threads) { stack_cursor = base }; world = world },
      if ok then sub32 top thread_stack_bias else 0,
    )

unfoldable pub thread_table_add : ℕ → ℕ → Threads → Threads
thread_table_add tid h t =
    if ltb t.count max_threads
    then record t {
      handles = update t.handles t.count h;
      ids = update t.ids t.count tid;
      count = t.count + 1;
    }
    else t

-- The loop of the search from entry i on, with the entries left.
unfoldable pub table_scan : Threads → ℕ → ℕ → ℕ → ℕ
table_scan t tid zero i = 0
table_scan t tid (suc left) i = elim (t.ids i == tid) [
  | true ↦ t.handles i
  | false ↦ table_scan t tid left (i + 1)
]

unfoldable pub thread_table_find : ℕ → Threads → ℕ
unfolding table_scan
thread_table_find tid t = table_scan t tid t.count 0
