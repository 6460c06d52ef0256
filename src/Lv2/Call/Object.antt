-- ===== src/Lv2/Call/Object.antt =====
-- runtime_glue.cpp, `lv2_syscall`: the writes to the guest's memory and the lookups that the calls share.
use dbz_budokai_hd.Common.{ℕ, ◌==◌, if◌then◌else◌, Option, none, some, update}
use dbz_budokai_hd.Common.Outcome.{Outcome, returned, undefined, ◌>>=◌}
use dbz_budokai_hd.Rsx.Write.{vm_write32, vm_write64}
use dbz_budokai_hd.Lv2.Pool.{Kind, Obj, Pool, pool_get, pool_alloc}
use dbz_budokai_hd.Lv2.Evq.{Evq}
use dbz_budokai_hd.Lv2.System.{Body, zeroed, sem, mutex, cond, evq, port, System, Left, failed}

-- vm_write32 and vm_write64 on the machine of the system, with the rounds of the command processor.
abbrev pub write32 : {W : Type 0} → ℕ → ℕ → ℕ → System W → Outcome (System W)
write32 fuel addr val s = do
  m ← vm_write32 fuel addr val s.machine
  returned (record s { machine = m })

abbrev pub write64 : {W : Type 0} → ℕ → ℕ → ℕ → System W → Outcome (System W)
write64 fuel addr val s = do
  m ← vm_write64 fuel addr val s.machine
  returned (record s { machine = m })

-- if (out) vm_write32(out, val)
abbrev pub write_out : {W : Type 0} → ℕ → ℕ → ℕ → System W → Outcome (System W)
write_out fuel out val s = if out == 0 then returned s else write32 fuel out val s

-- A member of the union that is not the one written last has no meaning.
abbrev pub as_sem : Body → Outcome ℕ
as_sem (sem h) = returned h
as_sem _ = undefined

abbrev pub as_mutex : Body → Outcome ℕ
as_mutex (mutex cs) = returned cs
as_mutex _ = undefined

abbrev pub as_cond : Body → Outcome (ℕ × ℕ)
as_cond (cond cv mutex_id) = returned (cv, mutex_id)
as_cond _ = undefined

abbrev pub as_evq : Body → Outcome (Option Evq)
as_evq (evq q) = returned q
as_evq _ = undefined

abbrev pub as_port : Body → Outcome (ℕ × ℕ)
as_port (port queue_id name) = returned (queue_id, name)
as_port _ = undefined

-- The member of the union where `o` is not null.
abbrev pub member_of : {M : Type 0} → (Body → Outcome M) → Option (Obj Body) → Outcome (Option M)
member_of member none = returned none
member_of member (some o) = do x ← member o.body; returned (some x)

abbrev pub if_found :
    {M W : Type 0} → Outcome (Left W) → (M → Outcome (Left W)) → Option M → Outcome (Left W)
if_found missing found none = missing
if_found missing found (some x) = found x

-- A call on Lv2Obj* o = pool_get(id, kind): what it does when there is none, and what when there is one.
abbrev pub on_object :
    {M W : Type 0}
    → Kind
    → (Body → Outcome M)
    → System W
    → ℕ
    → Outcome (Left W)
    → (M → Outcome (Left W))
    → Outcome (Left W)
on_object k member s id missing found =
    member_of member (pool_get s.pool id k) >>= if_found missing found

-- The end of a call that creates an object: the entry gets its body, and the caller the identifier.
abbrev pub set_body : Pool Body → ℕ → Body → Pool Body
set_body p id b = record p { slot = update p.slot id (record (p.slot id) { body = b }) }

-- The calls that create, when `pool_alloc` has given an entry, or 0: the host's part of the body, and the
-- identifier written.
unfoldable pub create_in :
    {W : Type 0} → ℕ → (W → W × Body) → ℕ → System W → Pool Body × ℕ → Outcome (Left W)
unfolding vm_write32
create_in fuel make out s (p, id) =
    let (world, b) = make s.world in
    if id == 0
    then returned (failed, record s { pool = p })
    else write_out fuel out id (record s { pool = set_body p id b; world = world }) >>= λ u.
        returned (0, u)

unfoldable pub create_object :
    {W : Type 0} → ℕ → Kind → (W → W × Body) → ℕ → System W → Outcome (Left W)
unfolding pool_alloc create_in
create_object fuel k make out s = create_in fuel make out s (pool_alloc zeroed s.pool k)
