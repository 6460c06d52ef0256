-- ===== src/Ppu/Dispatch.antt =====
-- extra_funcs.cpp, runtime_glue.cpp: the table of the hand-lifted functions, and `ps3_indirect_call`.
pub mod Laws
use dbz_budokai_hd.Common.{
  ℕ, zero, suc, Bool, true, false, ◌+◌, ◌==◌, ltb, if◌then◌else◌, List, [], ◌∷◌, Option, some, none,
  update,
}
use dbz_budokai_hd.Common.Outcome.{Outcome, returned, ◌>>=◌}
use dbz_budokai_hd.Ppu.State.{Ppu, set_gpr}

-- `extra_table`: each address with the address in the name of its function; `lv2_gate` is 0x30.
abbrev pub extra_table : List (ℕ × ℕ)
extra_table =
    (0x63880, 0x63880)
    ∷ (0x2BAF8, 0x2BAF8)
    ∷ (0x2E6A0, 0x2E6A0)
    ∷ (0x31364, 0x31364)
    ∷ (0x313AC, 0x313AC)
    ∷ (0xEDCDC, 0xEDCDC)
    ∷ (0xEB214, 0xEB214)
    ∷ (0xEB2E0, 0xEB2E0)
    ∷ (0x30, 0x30)
    ∷ (0xEFEC0, 0xEFEC0)
    ∷ (0xEB354, 0xEB354)
    ∷ (0xE9218, 0xE9218)
    ∷ (0xCB5B0, 0xCB5B0)
    ∷ (0xC5C9C, 0xC5C9C)
    ∷ (0xB73BC, 0xB73BC)
    ∷ (0x3B208, 0x3B208)
    ∷ (0x393D4, 0x393D4)
    ∷ (0x33A54, 0x33A54)
    ∷ (0x2761C, 0x2761C)
    ∷ (0x19E8C, 0x19E8C)
    ∷ (0x14660, 0x14660)
    ∷ (0x14538, 0x14538)
    ∷ (0xE770C, 0xE770C)
    ∷ (0xE775C, 0xE775C)
    ∷ (0x27110, 0x27110)
    ∷ (0x33A50, 0x33A54)
    ∷ (0x3937C, 0x3937C)
    ∷ (0x3B124, 0x3B124)
    ∷ (0xC5C8C, 0xC5C8C)
    ∷ (0xCB5C0, 0xCB5C0)
    ∷ (0xE9208, 0xE9208)
    ∷ (0xEFD18, 0xEFD18)
    ∷ (0xEFACC, 0xEFACC)
    ∷ (0x57A38, 0x57A3C)
    ∷ (0x51204, 0x51204)
    ∷ (0x5AA3C, 0x5AA3C)
    ∷ (0x5AA4C, 0x5AA4C)
    ∷ (0x59FF8, 0x59FF8)
    ∷ (0x5A0CC, 0x5A0CC)
    ∷ (0xEFE30, 0xEFE30)
    ∷ (0xEFEA4, 0xEFEA4)
    ∷ (0xEFBE8, 0xEFBE8)
    ∷ (0xEFD0C, 0xEFD0C)
    ∷ (0xD3020, 0xD3020)
    ∷ (0x47F70, 0x47F70)
    ∷ []

-- The search for the first entry of an address.
unfoldable pub table_lookup : ℕ → List (ℕ × ℕ) → Option ℕ
table_lookup addr [] = none
table_lookup addr ((a, f) ∷ entries) = if a == addr then some f else table_lookup addr entries

unfoldable pub ppu_resolve_extra : ℕ → Option ℕ
unfolding table_lookup
ppu_resolve_extra addr = table_lookup addr extra_table

-- The static log of unresolved addresses.
pub record Log : Type 0 where
  pub logged : ℕ → ℕ
  pub nlogged : ℕ

-- Whether one of the first n entries is the address.
unfoldable pub is_logged : (ℕ → ℕ) → ℕ → ℕ → Bool
is_logged logged addr zero = false
is_logged logged addr (suc n) = if logged n == addr then true else is_logged logged addr n

unfoldable pub log_address : ℕ → Log → Log
unfolding is_logged
log_address addr l =
    if is_logged l.logged addr l.nlogged
    then l
    else if ltb l.nlogged 256
    then record { logged = update l.logged l.nlogged addr; nlogged = l.nlogged + 1 }
    else l

-- What `ps3_indirect_call` takes from elsewhere: the table of the recompiled functions, and what a
-- function does, by the address in its name; it may call the dispatcher again, and log addresses.
pub record Linked : Type 0 where
  pub ppu_resolve_addr : ℕ → Option ℕ
  pub function : ℕ → Log × Ppu → Outcome (Log × Ppu)

-- The search in the second table, where the first has nothing.
unfoldable pub or_extra : Option ℕ → ℕ → Option ℕ
unfolding ppu_resolve_extra
or_extra (some f) addr = some f
or_extra none addr = ppu_resolve_extra addr

unfoldable pub call_resolved : Linked → Option ℕ → Log × Ppu → Outcome (Log × Ppu)
unfolding log_address
call_resolved L (some f) s = L.function f s
call_resolved L none (l, c) = returned (log_address c.ctr l, set_gpr 3 0 c)

unfoldable pub ps3_indirect_call : Linked → Log × Ppu → Outcome (Log × Ppu)
unfolding or_extra call_resolved
ps3_indirect_call L (l, c) = call_resolved L (or_extra (L.ppu_resolve_addr c.ctr) c.ctr) (l, c)
