-- ===== src/Lv2/Pool/Typed.antt =====
-- runtime_glue.cpp: the union of an object in use is the member of its kind.
use dbz_budokai_hd.Common.{
  ℕ, ◌≡◌, ◌⊎◌, ◌==◌, ◌||◌, leb, inl, inr, refl, sym, ap, ◌∙◌, if◌then◌else◌, none, some, arith,
  update, Bool-cases, if_keeps, true, false,
}
use dbz_budokai_hd.Lv2.Pool.{
  Kind, lv2_free, lv2_sem, lv2_mutex, lv2_cond, lv2_evq, lv2_evport, number, max_lv2_obj, Obj, Pool,
  pool_get, pool_free,
}
use dbz_budokai_hd.Lv2.Pool.Laws.{IsPool}
use dbz_budokai_hd.Lv2.Evq.{Evq}
use dbz_budokai_hd.Lv2.System.{Body, sem, mutex, cond, evq, port}

-- The bodies of a kind. An event queue in use has its buffer.
pub data HasBody : Kind → Body → Type 0 where
  of_free : (b : Body) → HasBody lv2_free b
  of_sem : (h : ℕ) → HasBody lv2_sem (sem h)
  of_mutex : (cs : ℕ) → HasBody lv2_mutex (mutex cs)
  of_cond : (cv mutex_id : ℕ) → HasBody lv2_cond (cond cv mutex_id)
  of_evq : (q : Evq) → HasBody lv2_evq (evq (some q))
  of_evport : (queue_id name : ℕ) → HasBody lv2_evport (port queue_id name)

abbrev pub ObjTyped : Obj Body → Type 0
ObjTyped o = HasBody o.kind o.body

-- The cursor is in range, and every entry has a body of its kind.
abbrev pub IsTyped : Pool Body → Type 0
IsTyped p = IsPool p × ((id : ℕ) → ObjTyped (p.slot id))

kind_of : ℕ → Kind
kind_of n =
    if n == 1
    then lv2_sem
    else if n == 2
    then lv2_mutex
    else if n == 3
    then lv2_cond
    else if n == 4
    then lv2_evq
    else if n == 5
    then lv2_evport
    else lv2_free

kind_of-number : (k : Kind) → kind_of (number k) ≡ k
unfolding kind_of number
kind_of-number lv2_free = refl
kind_of-number lv2_sem = refl
kind_of-number lv2_mutex = refl
kind_of-number lv2_cond = refl
kind_of-number lv2_evq = refl
kind_of-number lv2_evport = refl

number_injective : (k l : Kind) → number k ≡ number l → k ≡ l
number_injective k l e = sym (kind_of-number k) ∙ ap kind_of e ∙ kind_of-number l

pub pool_get-cases :
    (p : Pool Body) (id : ℕ) (k : Kind)
    → (pool_get p id k ≡ none) ⊎ ((pool_get p id k ≡ some (p.slot id)) × ((p.slot id).kind ≡ k))
unfolding pool_get
pool_get-cases p id k = elim (Bool-cases (id == 0 || leb max_lv2_obj id)) [
  | inl out ↦ inl (rw out refl)
  | inr within ↦ elim (Bool-cases (number (p.slot id).kind == number k)) [
    | inl same ↦ inr (rw (within, same) refl, number_injective (p.slot id).kind k (ground arith))
    | inr other ↦ inl (rw (within, other) refl)
  ]
]

-- An entry replaced by one with a body of its kind.
pub update-IsTyped :
    (p : Pool Body) (id : ℕ) (o : Obj Body)
    → IsTyped p
    → ObjTyped o
    → IsTyped (record p { slot = update p.slot id o })
update-IsTyped p id o (v, typed) t =
    (v, λ j. elim (Bool-cases (j == id)) [ inl e ↦ rw e t | inr e ↦ rw e (typed j) ])

pub pool_free-IsTyped : (p : Pool Body) (id : ℕ) → IsTyped p → IsTyped (pool_free p id)
unfolding pool_free
pool_free-IsTyped p id v =
    if_keeps IsTyped (id == 0 || leb max_lv2_obj id) v
      (update-IsTyped p id (record (p.slot id) { kind = lv2_free }) v (of_free (p.slot id).body))

pub pool_get_out :
    (p : Pool Body) (id : ℕ) (k : Kind)
    → (id == 0 || leb max_lv2_obj id) ≡ true
    → pool_get p id k ≡ none
unfolding pool_get
pool_get_out p id k out = rw out refl

-- An entry that is freed may have any body.
pub pool_free-update :
    (p : Pool Body) (id : ℕ) (o : Obj Body)
    → (id == 0 || leb max_lv2_obj id) ≡ false
    → IsTyped p
    → IsTyped (pool_free (record p { slot = update p.slot id o }) id)
unfolding pool_free
pool_free-update p id o within (v, typed) =
    rw within
      (v, λ j. elim (Bool-cases (j == id)) [ inl e ↦ rw e (of_free _) | inr e ↦ rw e (typed j) ])
