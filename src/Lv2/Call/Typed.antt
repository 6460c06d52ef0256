-- ===== src/Lv2/Call/Typed.antt =====
-- runtime_glue.cpp, `lv2_syscall`: the pool stays well-formed, whatever the calls do.
pub mod Objects
pub mod Events
pub mod Receive
pub mod Various
pub mod Every
use dbz_budokai_hd.Common.{
  ℕ, ◌≡◌, ◌==◌, ◌<◌, ◌^◌, inl, inr, refl, ap, ◌∙◌, true, false, subst, sym, if◌then◌else◌, Option,
  none, some, arith, update, Bool-cases, if_keeps, if_split, ◌⊎◌,
}
use dbz_budokai_hd.Common.Outcome.{Outcome, returned, ◌>>=◌}
use dbz_budokai_hd.Common.Safe.{Safe, safe_returned, Safe->>=}
use dbz_budokai_hd.Rsx.Write.Defined.{vm_write32-IsDefined, vm_write64-IsDefined}
use dbz_budokai_hd.Lv2.Pool.{
  Kind, lv2_sem, lv2_mutex, lv2_cond, lv2_evq, lv2_evport, Obj, Pool, pool_alloc, pool_get,
}
use dbz_budokai_hd.Lv2.Pool.Laws.{pool_alloc_lem}
use dbz_budokai_hd.Lv2.Pool.Typed.{
  HasBody, of_sem, of_mutex, of_cond, of_evq, of_evport, IsTyped, pool_get-cases, update-IsTyped,
}
use dbz_budokai_hd.Lv2.Evq.{Evq}
use dbz_budokai_hd.Lv2.System.{Body, zeroed, evq, System, Left}
use dbz_budokai_hd.Lv2.Host.{Host}
use dbz_budokai_hd.Lv2.Call.Object.{
  as_sem, as_mutex, as_cond, as_evq, as_port, member_of, if_found, on_object, set_body, create_in,
  create_object, write_out, write32, write64,
}

abbrev pub IsSystem : {W : Type 0} → System W → Type 0
IsSystem s = IsTyped s.pool

-- A call touches no dangling pointer and no member of a union but the one written last, and the pool is
-- well-formed when it returns.
abbrev pub KeepsPool : {W : Type 0} → Outcome (Left W) → Type 0
KeepsPool o = Safe (λ x. IsSystem x.1) o

abbrev pub HasQueue : Body → Type 0
HasQueue b = (q : Evq) × (b ≡ evq (some q))

-- What other threads do while a call blocks leaves the pool well-formed, and a queue that is waited for is
-- not destroyed.
pub record OthersKeep {W : Type 0} (host : Host W) : Type 0 where
  pub while_waiting :
      (h ms : ℕ) (s : System W)
      → IsSystem s
      → let (t, _) = host.wait_object h ms s in
        IsSystem t
        × ((id : ℕ) (q : Evq)
            → (s.pool.slot id).kind ≡ lv2_evq
            → (s.pool.slot id).body ≡ evq (some q)
            → q.avail ≡ h
            → HasQueue (t.pool.slot id).body)
  pub while_entering : (cs : ℕ) (s : System W) → IsSystem s → IsSystem (host.enter cs s)
  pub while_sleeping :
      (cv cs ms : ℕ) (s : System W) → IsSystem s → IsSystem (host.sleep_condition cv cs ms s).0

-- A lookup, and what is done with it.
pub on_object-KeepsPool :
    {M W : Type 0} (k : Kind) (member : Body → Outcome M) (s : System W) (id : ℕ)
    {missing : Outcome (Left W)} {found : M → Outcome (Left W)}
    → IsSystem s
    → ((b : Body) → HasBody k b → (x : M) × (member b ≡ returned x))
    → KeepsPool missing
    → ((x : M)
        → (s.pool.slot id).kind ≡ k
        → member (s.pool.slot id).body ≡ returned x
        → KeepsPool (found x))
    → KeepsPool (on_object k member s id missing found)
on_object-KeepsPool k member s id v has kept next = elim (pool_get-cases s.pool id k) [
  | inl none_there ↦ rw (none_there, member_of) kept
  | inr (there, is_kind) ↦
      let typed : HasBody k (s.pool.slot id).body =
        subst (λ l. HasBody l (s.pool.slot id).body) is_kind (v.1 id) in
      let (x, e) = has (s.pool.slot id).body typed in rw (there, member_of, e) (next x is_kind e)
]

pub has_sem : (b : Body) → HasBody lv2_sem b → (h : ℕ) × (as_sem b ≡ returned h)
has_sem _ (of_sem h) = (h, refl)

pub has_mutex : (b : Body) → HasBody lv2_mutex b → (cs : ℕ) × (as_mutex b ≡ returned cs)
has_mutex _ (of_mutex cs) = (cs, refl)

pub has_cond : (b : Body) → HasBody lv2_cond b → (x : ℕ × ℕ) × (as_cond b ≡ returned x)
has_cond _ (of_cond cv mutex_id) = ((cv, mutex_id), refl)

pub has_evq : (b : Body) → HasBody lv2_evq b → (o : Option Evq) × (as_evq b ≡ returned o)
has_evq _ (of_evq q) = (some q, refl)

pub has_port : (b : Body) → HasBody lv2_evport b → (x : ℕ × ℕ) × (as_port b ≡ returned x)
has_port _ (of_evport queue_id name) = ((queue_id, name), refl)

-- Writes to the guest's memory are defined and leave the pool alone.
abbrev pub KeptBy : {W : Type 0} → System W → Outcome (System W) → Type 0
KeptBy s o = Safe (λ t. t.pool ≡ s.pool) o

pub write32-KeptBy :
    {W : Type 0} (fuel addr val : ℕ) (s : System W) → KeptBy s (write32 fuel addr val s)
write32-KeptBy fuel addr val s =
    Safe->>= (vm_write32-IsDefined fuel addr val s.machine) (λ m d. safe_returned refl)

pub write64-KeptBy :
    {W : Type 0} (fuel addr val : ℕ) (s : System W) → KeptBy s (write64 fuel addr val s)
write64-KeptBy fuel addr val s =
    Safe->>= (vm_write64-IsDefined fuel addr val s.machine) (λ m d. safe_returned refl)

pub write_out-KeptBy :
    {W : Type 0} (fuel out val : ℕ) (s : System W) → KeptBy s (write_out fuel out val s)
write_out-KeptBy fuel out val s =
    if_keeps (KeptBy s) (out == 0) (safe_returned refl) (write32-KeptBy fuel out val s)

-- A call that ends with writes.
pub finish-KeepsPool :
    {W : Type 0} (s : System W) (r : ℕ) {o : Outcome (System W)}
    → IsSystem s
    → KeptBy s o
    → KeepsPool (o >>= λ t. returned (r, t))
finish-KeepsPool s r v kept = Safe->>= kept (λ t same. safe_returned (subst IsTyped (sym same) v))

pub set_body-IsTyped :
    (p : Pool Body) (id : ℕ) (b : Body)
    → IsTyped p
    → HasBody (p.slot id).kind b
    → IsTyped (set_body p id b)
set_body-IsTyped p id b v h = update-IsTyped p id (record (p.slot id) { body = b }) v h

-- What an allocation must be for the entry to be given a body of its kind.
abbrev Fits : Body → Pool Body × ℕ → Type 0
Fits b (q, id) = ((id ≡ 0) × IsTyped q) ⊎ ((0 < id) × IsTyped (set_body q id b))

created-Fits :
    (p : Pool Body) (k : Kind) (b : Body) → IsTyped p → HasBody k b → Fits b (pool_alloc zeroed p k)
created-Fits p k b (v, typed) h = elim (pool_alloc_lem zeroed p k v) [
  | inl (nothing, unchanged, _) ↦ inl (nothing, subst IsTyped (sym unchanged) (v, typed))
  | inr (low, _, _, slots, w) ↦
      let (q, id) = pool_alloc zeroed p k in
      let self : (id == id) ≡ true = ground arith in
      let made : q.slot id ≡ record { kind = k; body = zeroed } = slots id ∙ (rw self refl) in
      let is_kind : (q.slot id).kind ≡ k = ap (λ o. o.kind) made in
      inr (
        low,
        (
          w,
          λ j. elim (Bool-cases (j == id)) [
            | inl e ↦ rw (e, is_kind) h
            | inr e ↦ rw (e, slots j, e) (typed j)
          ],
        ),
      )
]

create_in-KeepsPool :
    {W : Type 0} (fuel : ℕ) (make : W → W × Body) (out : ℕ) (s : System W) (x : Pool Body × ℕ)
    → Fits (make s.world).1 x
    → KeepsPool (create_in fuel make out s x)
unfolding create_in
create_in-KeepsPool fuel make out s (p, id) (inl (nothing, v)) =
    if_split KeepsPool (id == 0) (λ e. safe_returned v) (λ e. absurd (ground arith))
create_in-KeepsPool fuel make out s (p, id) (inr (low, v)) =
    let (world, b) = make s.world in
    let t = record s { pool = set_body p id b; world = world } in
    if_split KeepsPool (id == 0) (λ e. absurd (ground arith))
      (λ e. finish-KeepsPool t 0 v (write_out-KeptBy fuel out id t))

pub create_object-KeepsPool :
    {W : Type 0} (fuel : ℕ) (k : Kind) (make : W → W × Body) (out : ℕ) (s : System W)
    → IsSystem s
    → ((w : W) → HasBody k (make w).1)
    → KeepsPool (create_object fuel k make out s)
unfolding create_object
create_object-KeepsPool fuel k make out s v made =
    create_in-KeepsPool fuel make out s (pool_alloc zeroed s.pool k)
      (created-Fits s.pool k (make s.world).1 v (made s.world))
