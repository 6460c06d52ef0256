-- ===== src/Spurs/Within.antt =====
-- spu_spurs.cpp: writes that stay inside a region of a memory.
use dbz_budokai_hd.Common.{
  ℕ, zero, suc, ◌+◌, ◌^◌, ◌≤◌, ◌<◌, ◌≡◌, ◌⊎◌, ◌∙◌, refl, arith, List, [], ◌∷◌, Memory, update,
  memset, for_range,
}
use dbz_budokai_hd.Common.Words.{u8, ◌>>>◌}
use dbz_budokai_hd.Spu.Invariant.{AreBytes}
use dbz_budokai_hd.Spurs.State.{put_bytes, put_be32}

-- m' is m, but for bytes written from lo on and below hi.
pub record Within (lo hi : ℕ) (m m' : Memory) : Type 0 where
  pub bytes : AreBytes m → AreBytes m'
  pub outside : (a : ℕ) → (a < lo) ⊎ (hi ≤ a) → m' a ≡ m a

abbrev pub AllBytes : List ℕ → Type 0
AllBytes [] = Unit {0}
AllBytes (b ∷ bs) = (b < 2 ^ 8) × AllBytes bs

abbrev pub count : List ℕ → ℕ
count [] = 0
count (b ∷ bs) = count bs + 1

module _ {lo hi : ℕ} where
  pub Within-refl : (m : Memory) → Within lo hi m m
  Within-refl m = record { bytes = λ b. b; outside = λ a o. refl }

  pub Within-trans : {k m n : Memory} → Within lo hi k m → Within lo hi m n → Within lo hi k n
  Within-trans p q = record {
    bytes = λ b. q.bytes (p.bytes b);
    outside = λ a o. q.outside a o ∙ p.outside a o;
  }

  update-Within :
      (m : Memory) (a b : ℕ) → b < 2 ^ 8 → lo ≤ a → a < hi → Within lo hi m (update m a b)
  update-Within m a b small from below = record {
    bytes = λ h k. ground (arith, h k);
    outside = λ k o. ground arith;
  }

  pub put_bytes-Within :
      (m : Memory) (a : ℕ) (bs : List ℕ)
      → AllBytes bs
      → lo ≤ a
      → a + count bs ≤ hi
      → Within lo hi m (put_bytes m a bs)
  unfolding put_bytes
  put_bytes-Within m a [] small from below = Within-refl m
  put_bytes-Within m a (b ∷ bs) (first, rest) from below =
      Within-trans (update-Within m a b first from (omega arith))
        (put_bytes-Within (update m a b) (a + 1) bs rest (omega arith) (omega arith))

  pub put_be32-Within :
      (m : Memory) (a v : ℕ) → lo ≤ a → a + 4 ≤ hi → Within lo hi m (put_be32 m a v)
  unfolding put_be32
  put_be32-Within m a v from below =
      put_bytes-Within m a (u8 (v >>> 24) ∷ u8 (v >>> 16) ∷ u8 (v >>> 8) ∷ u8 v ∷ []) (omega arith)
        from below

  pub memset-Within :
      (m : Memory) (a v n : ℕ) → v < 2 ^ 8 → lo ≤ a → a + n ≤ hi → Within lo hi m (memset m a v n)
  unfolding memset
  memset-Within m a v n small from below = record {
    bytes = λ h k. ground (arith, h k);
    outside = λ k o. ground arith;
  }

  -- A loop whose rounds write inside the region.
  pub for_range-Within :
      (round : ℕ → Memory → Memory) (n i : ℕ) (m : Memory)
      → ((j : ℕ) (k : Memory) → i ≤ j → j < i + n → Within lo hi k (round j k))
      → Within lo hi m (for_range n i round m)
  unfolding for_range
  for_range-Within round zero i m keep = Within-refl m
  for_range-Within round (suc n) i m keep = Within-trans (keep i m (omega arith) (omega arith)) (
      for_range-Within round n (i + 1) (round i m)
        λ j k p q. keep j k (omega (arith, p)) (omega (arith, q)))
