-- ===== src/Lv2/Tests.antt =====
-- A pool in use.
mod Calls
use dbz_budokai_hd.Common.{ℕ, ◌≡◌, ◌≢◌, ◌==◌, if◌then◌else◌, some, none, arith, refl}
use dbz_budokai_hd.Lv2.Pool.{
  lv2_free, lv2_sem, lv2_mutex, lv2_evq, number, Pool, pool_alloc, pool_get, pool_free,
}
use dbz_budokai_hd.Lv2.Pool.Laws.{
  IsAllocation, pool_alloc_lem, pool_get-pool_free, pool_get-pool_alloc,
}

-- A semaphore at 511, with the cursor there; everything else is free.
abbrev busy : Pool ℕ
busy = record {
  slot = λ id. record { kind = if id == 511 then lv2_sem else lv2_free; body = id };
  cursor = 511;
}

-- The search goes round the end.
busy_allocates : (pool_alloc 0 busy lv2_mutex).1 ≡ 1
unfolding pool_alloc
busy_allocates = refl

pool_alloc_lem_example : IsAllocation 0 busy lv2_mutex (pool_alloc 0 busy lv2_mutex)
pool_alloc_lem_example = pool_alloc_lem 0 busy lv2_mutex (omega arith, omega arith)

busy_found : (pool_alloc 0 busy lv2_mutex).1 ≢ 0
unfolding pool_alloc
busy_found e = absurd (omega arith)

pool_get-pool_alloc_example :
    let (q, id) = pool_alloc 0 busy lv2_mutex in
    pool_get q 1 lv2_evq ≡ (
      if 1 == id
      then (if number lv2_mutex == number lv2_evq
          then some (record { kind = lv2_mutex; body = 0 })
          else none)
      else pool_get busy 1 lv2_evq)
pool_get-pool_alloc_example =
    pool_get-pool_alloc 0 busy lv2_mutex lv2_evq 1 (omega arith, omega arith) busy_found
