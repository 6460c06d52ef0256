-- ===== src/Lv2/Pool/Laws.antt =====
-- The object pool: what an allocation finds, and when there is nothing to find.
use dbz_budokai_hd.Common.{
  ℕ, zero, suc, ◌+◌, ◌-◌, ◌%◌, ◌==◌, ◌≡◌, ◌≢◌, ◌<◌, ◌≤◌, ◌⊎◌, inl, inr, if◌then◌else◌, some, none,
  arith, refl, Bool-cases,
}
use dbz_budokai_hd.Lv2.Pool.{
  Kind, number, Pool, candidate, taken, pool_scan, pool_alloc, pool_get, pool_free,
}

-- The cursor names an entry.
abbrev pub IsPool : {U : Type 0} → Pool U → Type 0
IsPool p = (1 ≤ p.cursor) × (p.cursor < 512)

abbrev pub IsFree : {U : Type 0} → Pool U → ℕ → Type 0
IsFree p id = number (p.slot id).kind ≡ 0

module _ {U : Type 0} (zeroed : U) (p : Pool U) (k : Kind) where
  -- All the entries that the rounds up to i look at are in use.
  abbrev AreUsed : ℕ → Type 0
  AreUsed i = (r : ℕ) → r < i → number (p.slot (candidate p.cursor r)).kind ≢ 0

  -- What an allocation may be.
  data Allocated : Pool U × ℕ → Type 0 where
    full : AreUsed 511 → Allocated (p, 0)
    got :
        (i : ℕ)
        → IsFree p (candidate p.cursor i)
        → Allocated (taken zeroed p k (candidate p.cursor i), candidate p.cursor i)

  AreUsed-suc :
      (i : ℕ) → AreUsed i → number (p.slot (candidate p.cursor i)).kind ≢ 0 → AreUsed (i + 1)
  AreUsed-suc i used ne r h = elim (Bool-cases (r == i)) [
    | inl e ↦ let same : i ≡ r = ground arith in rw (← same) ne
    | inr e ↦ used r (ground arith)
  ]

  pool_scan-Allocated :
      (left i : ℕ) → i + left ≡ 511 → AreUsed i → Allocated (pool_scan zeroed p k left i)
  unfolding pool_scan
  pool_scan-Allocated zero i e used = full (λ r h. used r (omega arith))
  pool_scan-Allocated (suc left) i e used =
      elim (Bool-cases (number (p.slot (candidate p.cursor i)).kind == 0)) [
        | inl y ↦ rw (y, pool_scan) (got i (ground arith))
        | inr n ↦
            rw (n, pool_scan)
              (pool_scan-Allocated left (i + 1) (omega arith) (AreUsed-suc i used (ground arith)))
      ]

  -- The two outcomes of an allocation.
  abbrev pub IsAllocation : Pool U × ℕ → Type 0
  IsAllocation (q, id) =
      ((id ≡ 0) × (q ≡ p) × ((j : ℕ) → 0 < j → j < 512 → ¬ IsFree p j))
      ⊎ ((0 < id)
          × (id < 512)
          × IsFree p id
          × ((j : ℕ)
              → q.slot j ≡ (if j == id then record { kind = k; body = zeroed } else p.slot j))
          × IsPool q)

  -- Every identifier is looked at in some round.
  covered : (j : ℕ) → IsPool p → 0 < j → j < 512 → (r : ℕ) × (r < 511) × (candidate p.cursor r ≡ j)
  covered j v low high = ((j + 511 - p.cursor) % 511, omega arith, omega arith)

  Allocated-IsAllocation : (x : Pool U × ℕ) → IsPool p → Allocated x → IsAllocation x
  Allocated-IsAllocation x v (full used) = inl (
    refl,
    refl,
    λ j low high h. let (r, less, at) = covered j v low high in used r less (rw at h),
  )
  Allocated-IsAllocation x v (got i f) =
      inr (omega arith, omega arith, f, λ j. refl, (omega arith, omega arith))

  -- With a cursor between 1 and 511, an allocation either returns 0, changes nothing and every
  -- entry from 1 to 511 is in use; or it returns an identifier from 1 to 511 whose entry was
  -- free, gives that entry the kind asked for and a cleared body, keeps all the other entries,
  -- and leaves a cursor between 1 and 511.
  pub pool_alloc_lem : IsPool p → IsAllocation (pool_alloc zeroed p k)
  unfolding pool_alloc
  pool_alloc_lem v =
      Allocated-IsAllocation (pool_scan zeroed p k 511 0) v
        (pool_scan-Allocated 511 0 refl (λ r h. absurd (omega arith)))

-- For a kind other than the free one, after an identifier is freed it gives no object, and every
-- other identifier gives what it gave before.
pub pool_get-pool_free :
    {U : Type 0} (p : Pool U) (id j : ℕ) (k : Kind)
    → number k ≢ 0
    → pool_get (pool_free p id) j k ≡ (if j == id then none else pool_get p j k)
unfolding pool_get pool_free
pool_get-pool_free p id j k used = ground arith

-- With a cursor between 1 and 511, after an allocation that does not return 0 the new identifier
-- gives the new object for its own kind and nothing for any other kind, and every other
-- identifier gives what it gave before.
pub pool_get-pool_alloc :
    {U : Type 0} (zeroed : U) (p : Pool U) (k k' : Kind) (j : ℕ)
    → IsPool p
    → (pool_alloc zeroed p k).1 ≢ 0
    → let (q, id) = pool_alloc zeroed p k in
      pool_get q j k' ≡ (
        if j == id
        then (if number k == number k' then some (record { kind = k; body = zeroed }) else none)
        else pool_get p j k')
unfolding pool_get
pool_get-pool_alloc zeroed p k k' j v found = elim (pool_alloc_lem zeroed p k v) [
  | inl (nothing, _, _) ↦ absurd (found nothing)
  | inr (low, high, _, slots, _) ↦ rw (slots j) (ground arith)
]
