-- ===== src/Ppu/Loops/Laws.antt =====
-- extra_funcs.cpp: the loop that takes one off a count of references. The address of the count is in
-- register b, but the statements add register 0 to it, which holds the return address before the first
-- round and the decremented count in the others.
use dbz_budokai_hd.Common.{
  ℕ, zero, suc, Bool, true, false, ◌+◌, ◌^◌, ◌<◌, ◌≡◌, ◌≢◌, ◌==◌, refl, sym, ap, ◌∙◌, arith, update,
  [], ◌∷◌, bit_and, bit_or,
}
use mathlib.Core.Bool.{false≢true}
use dbz_budokai_hd.Common.Words.{u32, u64, not32, test_bit, ◌<<<◌, ◌>>>◌}
use dbz_budokai_hd.Common.Bits.{bit_and-le, bit_or-none}
use dbz_budokai_hd.Common.Outcome.{returned, unending}
use dbz_budokai_hd.Guest.{vm_read32}
use dbz_budokai_hd.Ppu.State.{Ppu, Env, lwarx, addw, stwcx, sext32, set_field, is_eq, perform, run}
use dbz_budokai_hd.Ppu.Loops.{decrement}

-- vm_read32 cuts its address to 32 bits.
read_u64 : (m : ℕ → ℕ) (a : ℕ) → vm_read32 m (u64 a) ≡ vm_read32 m (u32 a)
unfolding vm_read32
read_u64 m a = let same : u32 (u64 a) ≡ u32 (u32 a) = omega arith in rw same refl

-- A store that is not done leaves the field of the comparison without its bit for equality.
lost_field : (cr : ℕ) → test_bit 1 (set_field 28 0 cr >>> 28) ≡ false
lost_field cr =
    let kept = bit_and cr (not32 (0xF <<< 28)) in
    let small : kept < 2 ^ 28 = omega (arith, bit_and-le cr (not32 (0xF <<< 28))) in
    let same : bit_or kept (0 <<< 28) ≡ kept = bit_or-none kept kept (omega arith) in
    rw same (ground arith)

-- One round of the loop with -1 in register 30, the address in register 4 and the count in 3.
module _ (E : Env) (c : Ppu) (minus_one : c.gpr 30 ≡ 0xFFFFFFFF) where
  -- The count that the round reads, and what it leaves in register 0.
  abbrev count : ℕ
  count = vm_read32 c.machine.mem (u64 (c.gpr 0 + c.gpr 4))

  abbrev left_over : ℕ
  left_over = sext32 (c.gpr 30 + count)

  -- The state after a round whose store is not done.
  abbrev lost : Ppu
  lost = record c {
    gpr = update (update c.gpr 3 count) 0 left_over;
    cr = set_field 28 0 c.cr;
    reserve_addr = 0;
    reserve_value = count;
  }

  missed :
      u32 (c.gpr 0 + c.gpr 4) ≢ u32 (left_over + c.gpr 4)
      → run E (lwarx 3 4 ∷ addw 0 30 3 ∷ stwcx 4 ∷ []) c ≡ returned lost
  unfolding run perform
  missed ne =
      let apart : (u32 (u64 (c.gpr 0 + c.gpr 4)) == u32 (u64 (left_over + c.gpr 4))) ≡ false =
        ground arith in
      rw (apart, run, perform) refl

-- Two counts that send the loop from one to the other.
record Cycle (m : ℕ → ℕ) (base x y : ℕ) : Type 0 where
  here : vm_read32 m (u32 (x + base)) ≡ y + 1
  there : vm_read32 m (u32 (y + base)) ≡ x + 1
  apart : x ≢ y
  x_word : x + 1 < 2 ^ 32
  y_word : y + 1 < 2 ^ 32

turned : {m : ℕ → ℕ} {base x y : ℕ} → Cycle m base x y → Cycle m base y x
turned k = record {
  here = k.there;
  there = k.here;
  apart = λ e. k.apart (sym e);
  x_word = k.y_word;
  y_word = k.x_word;
}

not_done : {A : Type 0} (b : Bool) (x y : A) → b ≡ false → (elim b [ true ↦ x | false ↦ y ]) ≡ y
not_done true x y e = absurd (false≢true (sym e))
not_done false x y e = refl

decrement_again :
    (E : Env) (left : ℕ) (c d : Ppu)
    → run E (lwarx 3 4 ∷ addw 0 30 3 ∷ stwcx 4 ∷ []) c ≡ returned d
    → is_eq 28 d ≡ false
    → decrement E 30 3 4 (suc left) c ≡ decrement E 30 3 4 left d
unfolding decrement
decrement_again E left c d e f = rw (e, decrement) (not_done (is_eq 28 d) _ _ f)

cycles :
    (E : Env) (left x y : ℕ) (c : Ppu)
    → c.gpr 30 ≡ 0xFFFFFFFF
    → u32 (c.gpr 0) ≡ x
    → Cycle c.machine.mem (c.gpr 4) x y
    → decrement E 30 3 4 left c ≡ unending
unfolding decrement
cycles E zero x y c w e k = refl
cycles E (suc left) x y c w e k =
    let place : u32 (c.gpr 0 + c.gpr 4) ≡ u32 (x + c.gpr 4) = omega (arith, e) in
    let read : count E c w ≡ y + 1 =
      read_u64 c.machine.mem (c.gpr 0 + c.gpr 4) ∙ ap (vm_read32 c.machine.mem) place ∙ k.here in
    let next : u32 (left_over E c w) ≡ y = ground (arith, w, read, k.y_word) in
    let ne : u32 (c.gpr 0 + c.gpr 4) ≢ u32 (left_over E c w + c.gpr 4) =
      λ h. k.apart (omega (arith, h, e, next, k.x_word, k.y_word)) in
    decrement_again E left c (lost E c w) (missed E c w ne) (lost_field c.cr)
    ∙ cycles E left y x (lost E c w) w next (turned k)

-- The loop that takes one off a count adds register 0 to the address of the count. With -1 in the
-- register that is added to the count, as a word, and r0 = x, of 32 bits, if the word at the
-- address plus x is y + 1 and that at the address plus y is x + 1, for another y, no number of
-- rounds brings it to an end.
pub decrement_endless :
    (E : Env) (left x y : ℕ) (c : Ppu)
    → x ≢ y
    → x + 1 < 2 ^ 32
    → y + 1 < 2 ^ 32
    → c.gpr 30 ≡ 0xFFFFFFFF
    → u32 (c.gpr 0) ≡ x
    → vm_read32 c.machine.mem (u32 (x + c.gpr 4)) ≡ y + 1
    → vm_read32 c.machine.mem (u32 (y + c.gpr 4)) ≡ x + 1
    → decrement E 30 3 4 left c ≡ unending
decrement_endless E left x y c apart xw yw w e here there =
    cycles E left x y c w e
      (record { here = here; there = there; apart = apart; x_word = xw; y_word = yw })
