-- ===== src/Ppu/State.antt =====
-- recompiled/ppu_recomp.h, extra_funcs.cpp: the registers that the hand-lifted functions use, and
-- the statements that they are made of, one constructor for each form.
use dbz_budokai_hd.Common.{
  ℕ, zero, suc, Bool, ◌+◌, ◌-◌, ◌^◌, ◌==◌, ltb, if◌then◌else◌, bit_and, bit_or, List, [], ◌∷◌,
  Option, some, none, update,
}
use dbz_budokai_hd.Common.Words.{u8, u32, u64, add32, not32, test_bit, ◌<<<◌, ◌>>>◌}
use dbz_budokai_hd.Common.Outcome.{Outcome, returned, unending, ◌>>=◌}
use dbz_budokai_hd.Guest.{vm_read8, vm_read32, vm_read64, vm_write8}
use dbz_budokai_hd.Rsx.Write.{Machine, vm_write32, vm_write64}
use dbz_budokai_hd.Ppu.Rotate.{ppc_rldicl}

-- The fields of `ppu_context` that the functions use, the thread's `g_trampoline_fn` by the address
-- of the function, and the memory.
pub record Ppu : Type 0 where
  pub gpr : ℕ → ℕ
  pub cr : ℕ
  pub lr : ℕ
  pub ctr : ℕ
  pub reserve_addr : ℕ
  pub reserve_value : ℕ
  pub trampoline : Option ℕ
  pub machine : Machine

-- The recompiled functions, by their addresses, and the dispatcher for an address in ctr, with
-- the rounds given to a loop; `wide` is a shift of 64 bits by 64.
pub record Env : Type 0 where
  pub lifted : ℕ → Ppu → Outcome Ppu
  pub dispatcher : Ppu → Outcome Ppu
  pub rounds : ℕ
  pub wide : ℕ → ℕ

-- (int64_t)(int32_t)v
abbrev pub sext32 : ℕ → ℕ
sext32 v = if ltb (u32 v) (2 ^ 31) then u32 v else u32 v + (2 ^ 64 - 2 ^ 32)

-- -k as a 64-bit pattern
abbrev pub minus : ℕ → ℕ
minus k = 2 ^ 64 - k

-- (a < b) ? 8 : (a > b) ? 4 : 2, of the words as int32_t
abbrev pub compare32 : ℕ → ℕ → ℕ
compare32 a b =
    let x = add32 a (2 ^ 31) in
    let y = add32 b (2 ^ 31) in if ltb x y then 8 else if ltb y x then 4 else 2

-- (cr & ~(0xFu << field)) | (val << field)
abbrev pub set_field : ℕ → ℕ → ℕ → ℕ
set_field field val cr = bit_or (bit_and cr (not32 (0xF <<< field))) (val <<< field)

-- The forms of statements, named after the instructions that they come from.
pub data Op : Type 0 where
  -- gpr[d] = (int64_t)(int32_t)(v)
  li : (d v : ℕ) → Op
  -- gpr[d] = (int64_t)(int32_t)((uint32_t)v << 16)
  lis : (d v : ℕ) → Op
  -- gpr[d] = (int64_t)(int32_t)(gpr[a] + k)
  addi : (d a k : ℕ) → Op
  -- gpr[d] = (int64_t)(int32_t)((uint32_t)gpr[a] + (uint32_t)gpr[b])
  addw : (d a b : ℕ) → Op
  -- gpr[d] = gpr[a] | k
  or_imm : (d a k : ℕ) → Op
  -- gpr[d] = ppc_rldicl(gpr[a], 0, n)
  clrldi : (d a n : ℕ) → Op
  -- gpr[d] = vm_read8(gpr[a] + k), and of 32 and 64 bits
  lbz : (d k a : ℕ) → Op
  lwz : (d k a : ℕ) → Op
  ld : (d k a : ℕ) → Op
  -- vm_write8(gpr[a] + k, gpr[s]), and of 32 and 64 bits
  stb : (s k a : ℕ) → Op
  stw : (s k a : ℕ) → Op
  std : (s k a : ℕ) → Op
  -- vm_write64(gpr[1] + k, gpr[1]); gpr[1] += k;
  stdu : (k : ℕ) → Op
  -- gpr[0] = lr; lr = gpr[0]; ctr = (uint32_t)gpr[a]
  mflr : Op
  mtlr : Op
  mtctr : (a : ℕ) → Op
  -- the field of cr from the comparison of gpr[a] with b, or with gpr[b]
  cmpwi : (field a b : ℕ) → Op
  cmpw : (field a b : ℕ) → Op
  -- ea = gpr[0] + gpr[b]; gpr[d] = vm_read32(ea), with the reservation
  lwarx : (d b : ℕ) → Op
  -- the same ea; the store of gpr[0] if the reservation holds, and its end
  stwcx : (b : ℕ) → Op
  -- func(ctx); DRAIN_TRAMPOLINE(ctx);
  call : (f : ℕ) → Op
  -- ps3_indirect_call(ctx); DRAIN_TRAMPOLINE(ctx);
  icall : Op
  -- g_trampoline_fn = func; return;
  tail : (f : ℕ) → Op

abbrev pub set_gpr : ℕ → ℕ → Ppu → Ppu
set_gpr d v c = record c { gpr = update c.gpr d v }

-- A change of the memory.
abbrev pub on_machine : (Machine → Outcome Machine) → Ppu → Outcome Ppu
on_machine f c = do t ← f c.machine; returned (record c { machine = t })

-- (cr >> field) & mask, for the masks 2 and 8
abbrev pub is_eq : ℕ → Ppu → Bool
is_eq field c = test_bit 1 (c.cr >>> field)

abbrev pub is_lt : ℕ → Ppu → Bool
is_lt field c = test_bit 3 (c.cr >>> field)

module _ (E : Env) where
  -- DRAIN_TRAMPOLINE, with the rounds left
  unfoldable pub drain : ℕ → Ppu → Outcome Ppu
  drain zero c = elim c.trampoline [ none ↦ returned c | some f ↦ unending ]
  drain (suc left) c = elim c.trampoline [
    | none ↦ returned c
    | some f ↦ (do d ← E.lifted f (record c { trampoline = none }); drain left d)
  ]

  unfoldable pub perform : Op → Ppu → Outcome Ppu
  unfolding drain ppc_rldicl vm_read8 vm_read32 vm_read64 vm_write8 vm_write32 vm_write64
  perform (li d v) c = returned (set_gpr d (sext32 v) c)
  perform (lis d v) c = returned (set_gpr d (sext32 (v <<< 16)) c)
  perform (addi d a k) c = returned (set_gpr d (sext32 (c.gpr a + k)) c)
  perform (addw d a b) c = returned (set_gpr d (sext32 (c.gpr a + c.gpr b)) c)
  perform (or_imm d a k) c = returned (set_gpr d (bit_or (c.gpr a) k) c)
  perform (clrldi d a n) c = returned (set_gpr d (ppc_rldicl E.wide (c.gpr a) 0 n) c)
  perform (lbz d k a) c = returned (set_gpr d (vm_read8 c.machine.mem (u64 (c.gpr a + k))) c)
  perform (lwz d k a) c = returned (set_gpr d (vm_read32 c.machine.mem (u64 (c.gpr a + k))) c)
  perform (ld d k a) c = returned (set_gpr d (vm_read64 c.machine.mem (u64 (c.gpr a + k))) c)
  perform (stb s k a) c =
      on_machine
        (λ t. returned (record t { mem = vm_write8 t.mem (u64 (c.gpr a + k)) (u8 (c.gpr s)) })) c
  perform (stw s k a) c = on_machine (vm_write32 E.rounds (u64 (c.gpr a + k)) (u32 (c.gpr s))) c
  perform (std s k a) c = on_machine (vm_write64 E.rounds (u64 (c.gpr a + k)) (c.gpr s)) c
  perform (stdu k) c = do
    d ← on_machine (vm_write64 E.rounds (u64 (c.gpr 1 + k)) (c.gpr 1)) c
    returned (set_gpr 1 (u64 (c.gpr 1 + k)) d)
  perform mflr c = returned (set_gpr 0 c.lr c)
  perform mtlr c = returned (record c { lr = c.gpr 0 })
  perform (mtctr a) c = returned (record c { ctr = u32 (c.gpr a) })
  perform (cmpwi field a b) c =
      returned (record c { cr = set_field field (compare32 (c.gpr a) b) c.cr })
  perform (cmpw field a b) c =
      returned (record c { cr = set_field field (compare32 (c.gpr a) (c.gpr b)) c.cr })
  perform (lwarx d b) c =
      let ea = u64 (c.gpr 0 + c.gpr b) in
      let v = vm_read32 c.machine.mem ea in
      returned (record (set_gpr d v c) { reserve_addr = u32 ea; reserve_value = v })
  perform (stwcx b) c =
      let ea = u64 (c.gpr 0 + c.gpr b) in
      if c.reserve_addr == u32 ea
      then (do
        d ← on_machine (vm_write32 E.rounds ea (u32 (c.gpr 0))) c
        returned (record d { cr = set_field 28 2 d.cr; reserve_addr = 0 }))
      else returned (record c { cr = set_field 28 0 c.cr; reserve_addr = 0 })
  perform (call f) c = do d ← E.lifted f c; drain E.rounds d
  perform icall c = do d ← E.dispatcher c; drain E.rounds d
  perform (tail f) c = returned (record c { trampoline = some f })

  -- Statements one after the other.
  unfoldable pub run : List Op → Ppu → Outcome Ppu
  unfolding perform
  run [] c = returned c
  run (op ∷ ops) c = do d ← perform op c; run ops d
