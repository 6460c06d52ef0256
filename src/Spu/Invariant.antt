-- ===== src/Spu/Invariant.antt =====
-- The representation invariant of the interpreter's state, and what the building blocks of the
-- instructions keep of it.
pub mod Blocks
pub mod Channels
pub mod Keeps
pub mod Moves
pub mod Cases
pub mod Dispatch
pub mod Step
pub mod Run
pub mod Fault
use dbz_budokai_hd.Common.{ℕ, ◌^◌, ◌<◌}
use dbz_budokai_hd.Spu.Context.{Ctx}
use dbz_budokai_hd.Spu.Reg.{Reg, Gpr}

-- Every entry is a byte.
abbrev pub AreBytes : (ℕ → ℕ) → Type 0
AreBytes m = (k : ℕ) → m k < 2 ^ 8

abbrev pub AreByteRegs : Gpr → Type 0
AreByteRegs R = (r : ℕ) → AreBytes (R r)

-- Arrays hold bytes, and the `uint32_t` fields that a program sets or reads back hold words.
pub record IsValid (c : Ctx) : Type 0 where
  pub gpr : AreByteRegs c.gpr
  pub ls : AreBytes c.ls
  pub vm : AreBytes c.vm
  pub pc : c.pc < 2 ^ 32
  pub stop_code : c.stop_code < 2 ^ 14
  pub mfc_lsa : c.mfc_lsa < 2 ^ 32
  pub mfc_eah : c.mfc_eah < 2 ^ 32
  pub mfc_eal : c.mfc_eal < 2 ^ 32
  pub mfc_size : c.mfc_size < 2 ^ 32
  pub mfc_tag : c.mfc_tag < 2 ^ 32
  pub mfc_tagmask : c.mfc_tagmask < 2 ^ 32
  pub inbound_mbox : c.inbound_mbox < 2 ^ 32
  pub outbound_mbox : c.outbound_mbox < 2 ^ 32
  pub signal : (i : ℕ) → c.signal i < 2 ^ 32
  pub decr : c.decr < 2 ^ 32
