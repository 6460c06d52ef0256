-- ===== src/Lv2/Host.antt =====
-- The calls of the operating system that the system calls make, as parameters. What they do with a
-- handle, a critical section or a condition variable is a change of the world. A call that may block
-- takes the whole state, since other threads run meanwhile.
use dbz_budokai_hd.Common.{ℕ, Bool}
use dbz_budokai_hd.Lv2.System.{System}

-- `PpuThreadParam`
pub record ThreadParam : Type 0 where
  pub entry_addr : ℕ
  pub toc : ℕ
  pub arg : ℕ
  pub stack_top : ℕ
  pub thread_id : ℕ

pub record Host (W : Type 0) : Type 0 where
  -- VirtualAlloc of a stack's pages from a guest address on
  pub commit_stack : ℕ → W → W × Bool
  -- CreateThread; 0 is NULL
  pub create_thread : ThreadParam → W → W × ℕ
  pub switch_to_thread : W → W
  -- GetExitCodeThread
  pub exit_code : ℕ → W → ℕ
  -- CreateSemaphoreA from the initial and the largest count, both as patterns of 32 bits
  pub create_semaphore : ℕ → ℕ → W → W × ℕ
  pub close_handle : ℕ → W → W
  pub release_semaphore : ℕ → ℕ → W → W
  -- WaitForSingleObject(h, 0) == WAIT_OBJECT_0
  pub poll : ℕ → W → W × Bool
  -- InitializeCriticalSection, and DeleteCriticalSection
  pub create_section : W → W × ℕ
  pub delete_section : ℕ → W → W
  -- TryEnterCriticalSection, and LeaveCriticalSection
  pub try_enter : ℕ → W → W × Bool
  pub leave : ℕ → W → W
  -- InitializeConditionVariable, and the two calls that wake
  pub create_condition : W → W × ℕ
  pub wake : ℕ → W → W
  pub wake_all : ℕ → W → W
  -- GetTickCount64
  pub tick_count : W → ℕ
  -- WaitForSingleObject with a timeout, whose result is true at WAIT_TIMEOUT
  pub wait_object : ℕ → ℕ → System W → System W × Bool
  -- EnterCriticalSection
  pub enter : ℕ → System W → System W
  -- SleepConditionVariableCS, whose result is true when it has not timed out
  pub sleep_condition : ℕ → ℕ → ℕ → System W → System W × Bool
