-- ===== src/Spu/Invariant/Moves.antt =====
-- What loads, stores, links, jumps and channel accesses keep, as the instructions make them.
use dbz_budokai_hd.Common.{
  ℕ, Bool, true, false, ◌≡◌, ◌<◌, ◌^◌, refl, arith, some, none, Option, update,
}
use dbz_budokai_hd.Spu.Context.{Ctx}
use dbz_budokai_hd.Spu.Reg.Words.{get_w-lt}
use dbz_budokai_hd.Spu.LocalStore.{ls_read128, ls_write128}
use dbz_budokai_hd.Spu.Mfc.Laws.{IsProtected}
use dbz_budokai_hd.Spu.Channel.{rdch, wrch, rchcnt}
use dbz_budokai_hd.Spu.Channel.Safety.{wrch_faults, wrch_protects, wrch_keeps, vm-rdch}
use dbz_budokai_hd.Spu.Isa.Fields.{f_rt, f_ch}
use dbz_budokai_hd.Spu.Isa.Handler.{gw, preferred}
use dbz_budokai_hd.Spu.Isa.Ri16.{jump_if}
use dbz_budokai_hd.Spu.Isa.Rr.Control.{read_channel, write_channel, read_count}
use dbz_budokai_hd.Spu.Invariant.{IsValid}
use dbz_budokai_hd.Spu.Invariant.Blocks.{
  update-AreBytes, ls_read128-AreBytes, ls_write128-AreBytes, preferred-AreBytes,
}
use dbz_budokai_hd.Spu.Invariant.Channels.{
  Holds, leaves, gpr-IsValid, ls-IsValid, wrch-IsValid, rdch-IsValid,
}
use dbz_budokai_hd.Spu.Invariant.Keeps.{Keeps, Effect, stuck, makes, Fits, local}

module _ (c : Ctx) (v : IsValid c) where
  -- A load into a register, a store of one, a link, a jump, a conditional jump.
  pub load_lem :
      (t ea : ℕ)
      → Effect c (some (record c { gpr = update c.gpr t (ls_read128 c.ls ea (c.gpr t)) }))
  load_lem t ea =
      let R = update c.gpr t (ls_read128 c.ls ea (c.gpr t)) in
      let bytes =
        update-AreBytes t _ c.gpr (ls_read128-AreBytes c.ls ea (c.gpr t) v.ls (v.gpr t)) v.gpr in
      local c (record c { gpr = R }) (gpr-IsValid c R bytes v) refl refl refl

  pub store_lem : (t ea : ℕ) → Effect c (some (record c { ls = ls_write128 c.ls ea (c.gpr t) }))
  store_lem t ea =
      let m = ls_write128 c.ls ea (c.gpr t) in
      local c (record c { ls = m })
        (ls-IsValid c m (ls_write128-AreBytes c.ls ea (c.gpr t) v.ls (v.gpr t)) v) refl refl refl

  pub link_lem : (t w : ℕ) → Effect c (some (record c { gpr = update c.gpr t (preferred w) }))
  link_lem t w =
      let R = update c.gpr t (preferred w) in
      local c (record c { gpr = R })
        (gpr-IsValid c R (update-AreBytes t (preferred w) c.gpr (preferred-AreBytes w) v.gpr) v)
        refl refl refl

  pub jump_lem : (target : ℕ) → target < 2 ^ 18 → Effect c (some (record c { pc = target }))
  jump_lem target h =
      let small : target < 2 ^ 32 = omega arith in
      local c (record c { pc = target }) (assumption) refl refl refl

  pub jump_if_lem : (b : Bool) (target : ℕ) → target < 2 ^ 18 → Effect c (some (jump_if b target c))
  jump_if_lem true target h = jump_lem target h
  jump_if_lem false target h = local c c v refl refl refl

  pub call_lem :
      (t w target : ℕ)
      → target < 2 ^ 18
      → Effect c (some (record c { gpr = update c.gpr t (preferred w); pc = target }))
  call_lem t w target h =
      let R = update c.gpr t (preferred w) in
      let small : target < 2 ^ 32 = omega arith in
      let d = record c { gpr = R } in
      let w' : IsValid d =
        gpr-IsValid c R (update-AreBytes t (preferred w) c.gpr (preferred-AreBytes w) v.gpr) v in
      local c (record c { gpr = R; pc = target }) (assumption) refl refl refl

vm-id-rdch :
    (c : Ctx) (ch : ℕ) → ((rdch c ch).0.id ≡ c.id) × ((rdch c ch).0.insn_count ≡ c.insn_count)
unfolding rdch
vm-id-rdch c ch = (ground arith, ground arith)

pub read_channel-Keeps : Keeps read_channel
unfolding read_channel
read_channel-Keeps i pc c v =
    let d = (rdch c (f_ch i)).0 in
    let R = update d.gpr (f_rt i) (preferred (rdch c (f_ch i)).1) in
    let w : IsValid d = rdch-IsValid c (f_ch i) v in
    local c (record d { gpr = R })
      (gpr-IsValid d R (update-AreBytes (f_rt i) _ d.gpr (preferred-AreBytes _) w.gpr) w)
      (vm-rdch c (f_ch i)) (vm-id-rdch c (f_ch i)).0 (vm-id-rdch c (f_ch i)).1

-- A validity and an equation for each context give what holds after.
strengthen :
    (c : Ctx) (m : Option Ctx)
    → Holds IsValid m
    → (m ≡ none → ¬ Fits c)
    → ((d : Ctx) → m ≡ some d → (a : ℕ) → IsProtected a → d.vm a ≡ c.vm a)
    → ((d : Ctx) → m ≡ some d → (d.id ≡ c.id) × (d.insn_count ≡ c.insn_count))
    → Effect c m
strengthen c none h f p e = stuck (f refl)
strengthen c (some d) (leaves v) f p e =
    makes (record {
      valid = v;
      protected = p d refl;
      same_id = (e d refl).0;
      same_count = (e d refl).1;
    })

pub write_channel-Keeps : Keeps write_channel
unfolding write_channel
write_channel-Keeps i pc c v =
    strengthen c (wrch c (f_ch i) (gw c.gpr (f_rt i) 0))
      (wrch-IsValid c (f_ch i) _ (get_w-lt (v.gpr (f_rt i)) 0) v)
      (wrch_faults c (f_ch i) (gw c.gpr (f_rt i) 0))
      (λ d e a. wrch_protects c d (f_ch i) (gw c.gpr (f_rt i) 0) a e)
      (λ d e. wrch_keeps c d (f_ch i) (gw c.gpr (f_rt i) 0) e)

pub read_count-Keeps : Keeps read_count
unfolding read_count
read_count-Keeps i pc c v = link_lem c v (f_rt i) (rchcnt c (f_ch i))
