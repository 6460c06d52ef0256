-- ===== src/Lv2/System.antt =====
-- runtime_glue.cpp: the variables that the system calls share, and what each takes from its caller.
use dbz_budokai_hd.Common.{ℕ, Bool, ◌+◌, ◌-◌, ◌/◌, ◌^◌, ◌==◌, if◌then◌else◌, Option, none}
use dbz_budokai_hd.Common.Words.{u32, u64}
use dbz_budokai_hd.Rsx.Write.{Machine}
use dbz_budokai_hd.Lv2.Pool.{lv2_free, Pool}
use dbz_budokai_hd.Lv2.Evq.{Evq}

-- The union of `Lv2Obj`, with the member written last. A handle, a critical section and a condition
-- variable are names that the host gives out.
pub data Body : Type 0 where
  zeroed : Body
  sem : ℕ → Body
  mutex : ℕ → Body
  cond : ℕ → ℕ → Body
  evq : Option Evq → Body
  port : ℕ → ℕ → Body

-- `g_thread_stack_cursor`, `g_thread_id_next` and the table of live threads
pub record Threads : Type 0 where
  pub stack_cursor : ℕ
  pub id_next : ℕ
  pub handles : ℕ → ℕ
  pub ids : ℕ → ℕ
  pub count : ℕ

-- The state of the runtime, with the world of the host. The two maps are from guest addresses.
pub record System (W : Type 0) : Type 0 where
  pub machine : Machine
  pub pool : Pool Body
  pub lwmutex_map : ℕ → Option ℕ
  pub lwcond_map : ℕ → Option ℕ
  pub threads : Threads
  pub abort_called : Bool
  pub world : W

-- `lv2_pool_init`, with the first values of the thread variables
unfoldable pub system_start : {W : Type 0} → Machine → W → System W
system_start machine world = record {
  machine = machine;
  pool = record { slot = λ id. record { kind = lv2_free; body = zeroed }; cursor = 1 };
  lwmutex_map = λ a. none;
  lwcond_map = λ a. none;
  threads = record {
    stack_cursor = 0xCFFF0000;
    id_next = 1;
    handles = λ i. 0;
    ids = λ i. 0;
    count = 0;
  };
  abort_called = Bool.false;
  world = world;
}

-- `ctx->gpr`, and the identifier of the calling thread
pub record Caller : Type 0 where
  pub gpr : ℕ → ℕ
  pub thread_id : ℕ

-- What a call leaves: the result in r3, and the state.
abbrev pub Left : Type 0 → Type 0
Left W = ℕ × System W

-- (uint64_t)-1
abbrev pub failed : ℕ
failed = 2 ^ 64 - 1

abbrev pub cell_etimedout : ℕ
cell_etimedout = 0x80410034

abbrev pub cell_ebusy : ℕ
cell_ebusy = 0x8001000B

abbrev pub infinite : ℕ
infinite = 2 ^ 32 - 1

-- tus ? (DWORD)((tus + 999) / 1000) : INFINITE
abbrev pub wait_ms : ℕ → ℕ
wait_ms tus = if tus == 0 then infinite else u32 (u64 (tus + 999) / 1000)

-- Register r as a `uint32_t`.
abbrev pub word : Caller → ℕ → ℕ
word c r = u32 (c.gpr r)
