-- ===== src/Lv2/Pool.antt =====
-- runtime_glue.cpp: `pool_alloc`, `pool_get` and `pool_free`. Each runs inside a critical section, or
-- reads one entry; the union of an object, which holds handles of the host, is a parameter.
pub mod Laws
pub mod Typed
use dbz_budokai_hd.Common.{
  ℕ, Bool, zero, suc, true, false, ◌||◌, ◌+◌, ◌%◌, ◌==◌, leb, if◌then◌else◌, Option, some, none,
  update,
}
use dbz_budokai_hd.Common.Words.{u32, sub32}

-- `Lv2Kind`
pub data Kind : Type 0 where
  lv2_free : Kind
  lv2_sem : Kind
  lv2_mutex : Kind
  lv2_cond : Kind
  lv2_evq : Kind
  lv2_evport : Kind

-- The number of an enumerator.
unfoldable pub number : Kind → ℕ
number lv2_free = 0
number lv2_sem = 1
number lv2_mutex = 2
number lv2_cond = 3
number lv2_evq = 4
number lv2_evport = 5

abbrev pub max_lv2_obj : ℕ
max_lv2_obj = 512

-- `Lv2Obj`, with the union as a type of its own.
pub record Obj (U : Type 0) : Type 0 where
  pub kind : Kind
  pub body : U

-- `g_pool` and `g_pool_cursor`
pub record Pool (U : Type 0) : Type 0 where
  pub slot : ℕ → Obj U
  pub cursor : ℕ

-- The identifier that round i looks at.
abbrev pub candidate : ℕ → ℕ → ℕ
candidate cursor i = u32 (sub32 cursor 1 + i) % 511 + 1

module _ {U : Type 0} (zeroed : U) where
  -- What `memset` and the new kind make of an entry, with the cursor behind it.
  abbrev pub taken : Pool U → Kind → ℕ → Pool U
  taken p k id = record {
    slot = update p.slot id (record { kind = k; body = zeroed });
    cursor = id % 511 + 1;
  }

  -- The loop of `pool_alloc`, from round i on, with the rounds left.
  unfoldable pub pool_scan : Pool U → Kind → ℕ → ℕ → Pool U × ℕ
  unfolding number
  pool_scan p k zero i = (p, 0)
  pool_scan p k (suc left) i = elim (number (p.slot (candidate p.cursor i)).kind == 0) [
    | true ↦ (taken p k (candidate p.cursor i), candidate p.cursor i)
    | false ↦ pool_scan p k left (i + 1)
  ]

  unfoldable pub pool_alloc : Pool U → Kind → Pool U × ℕ
  unfolding pool_scan
  pool_alloc p k = pool_scan p k 511 0

unfoldable pub pool_get : {U : Type 0} → Pool U → ℕ → Kind → Option (Obj U)
unfolding number
pool_get p id k =
    if id == 0 || leb max_lv2_obj id
    then none
    else if number (p.slot id).kind == number k
    then some (p.slot id)
    else none

unfoldable pub pool_free : {U : Type 0} → Pool U → ℕ → Pool U
pool_free p id =
    if id == 0 || leb max_lv2_obj id
    then p
    else record p { slot = update p.slot id (record (p.slot id) { kind = lv2_free }) }
