-- ===== src/Spu/Reg/Lanes.antt =====
-- The in-place loops over the elements of a register, and bodies that read only their own element.
use dbz_budokai_hd.Common.{ℕ, zero, suc, ◌+◌, ◌≤◌, ◌<◌, ◌≡◌, ◌≢◌, ◌==◌}
use dbz_budokai_hd.Common.{
  refl, sym, arith, ap, ◌∙◌, update, for_range, Bool-cases, ==_iff, inl, inr,
}
use dbz_budokai_hd.Common.Words.{u8, u16, u32}
use dbz_budokai_hd.Spu.Reg.{Reg, Gpr, modify, get_w, set_w, get_h, set_h}
use dbz_budokai_hd.Spu.Reg.{for_words, for_halves, for_bytes}
use dbz_budokai_hd.Spu.Reg.Words.{
  get_w-set_w_self, get_w-set_w_ne, get_h-set_h_self, get_h-set_h_ne,
}

-- What the loops use of a kind of element.
pub record Element : Type 0 where
  pub get : Reg → ℕ → ℕ
  pub put : Reg → ℕ → ℕ → Reg
  pub cast : ℕ → ℕ
  pub get-put_self : (r : Reg) (i v : ℕ) → get (put r i v) i ≡ cast v
  pub get-put_ne : (r : Reg) (i v k : ℕ) → k ≢ i → get (put r i v) k ≡ get r k

-- The body reads only element k in round k.
abbrev pub IsLocal : (Reg → ℕ → ℕ) → (Gpr → ℕ → ℕ) → Type 0
IsLocal get f = (S T : Gpr) (k : ℕ) → ((r : ℕ) → get (S r) k ≡ get (T r) k) → f S k ≡ f T k

modify_self : (t : ℕ) (g : Reg → Reg) (R : Gpr) → modify t g R t ≡ g (R t)
modify_self t g R = rw ((==_iff t t).1 refl)

modify_ne : (t : ℕ) (g : Reg → Reg) (R : Gpr) (r : ℕ) → r ≢ t → modify t g R r ≡ R r
modify_ne t g R r ne = elim (Bool-cases (r == t)) [
  | inl e ↦ absurd (ne ((==_iff r t).0 e))
  | inr e ↦ rw e
]

module _ (E : Element) (t : ℕ) (f : Gpr → ℕ → ℕ) where
  open E use {get, put, cast, get-put_self, get-put_ne}

  abbrev round : ℕ → Gpr → Gpr
  round i S = modify t (λ r. put r i (f S i)) S

  abbrev loop : ℕ → ℕ → Gpr → Gpr
  loop n i R = for_range n i round R

  get-round_ne : (i : ℕ) (R : Gpr) (r k : ℕ) → k ≢ i → get (round i R r) k ≡ get (R r) k
  get-round_ne i R r k ne = elim (Bool-cases (r == t)) [
    | inl e ↦ rw e (get-put_ne (R r) i (f R i) k ne)
    | inr e ↦ rw e
  ]

  loop_outside : (n i : ℕ) (R : Gpr) (r : ℕ) → r ≢ t → loop n i R r ≡ R r
  unfolding for_range
  loop_outside zero i R r ne = refl
  loop_outside (suc n) i R r ne =
      loop_outside n (i + 1) (round i R) r ne ∙ modify_ne t (λ x. put x i (f R i)) R r ne

  loop_before : (n i : ℕ) (R : Gpr) (k : ℕ) → k < i → get (loop n i R t) k ≡ get (R t) k
  unfolding for_range
  loop_before zero i R k h = refl
  loop_before (suc n) i R k h =
      loop_before n (i + 1) (round i R) k (omega arith) ∙ get-round_ne i R t k (omega arith)

  loop_lem :
      IsLocal get f
      → (n i : ℕ) (R : Gpr) (k : ℕ) → i ≤ k
      → k < i + n
      → get (loop n i R t) k ≡ cast (f R k)
  unfolding for_range
  loop_lem loc zero i R k h p = absurd (omega arith)
  loop_lem loc (suc n) i R k h p = elim (Bool-cases (k == i)) [
    | inl e ↦
        let at : i ≡ k = sym ((==_iff k i).0 e) in
        loop_before n (i + 1) (round i R) k (omega arith)
        ∙ rw (← at) (
            ap (λ r. get r i) (modify_self t (λ x. put x i (f R i)) R)
            ∙ get-put_self (R t) i (f R i))
    | inr e ↦
        let ne : k ≢ i = ground arith in
        loop_lem loc n (i + 1) (round i R) k (omega arith) (omega arith)
        ∙ ap cast (loc (round i R) R k (λ r. get-round_ne i R r k ne))
  ]

abbrev words : Element
words = record {
  get = get_w;
  put = set_w;
  cast = λ v. u32 v;
  get-put_self = get_w-set_w_self;
  get-put_ne = get_w-set_w_ne;
}

abbrev halves : Element
halves = record {
  get = get_h;
  put = set_h;
  cast = λ v. u16 v;
  get-put_self = get_h-set_h_self;
  get-put_ne = get_h-set_h_ne;
}

byte-update_self : (r : Reg) (i v : ℕ) → update r i (u8 v) i ≡ u8 v
byte-update_self r i v = rw ((==_iff i i).1 refl)

byte-update_ne : (r : Reg) (i v k : ℕ) → k ≢ i → update r i (u8 v) k ≡ r k
byte-update_ne r i v k ne = ground arith

abbrev bytes : Element
bytes = record {
  get = λ r k. r k;
  put = λ r i v. update r i (u8 v);
  cast = λ v. u8 v;
  get-put_self = byte-update_self;
  get-put_ne = byte-update_ne;
}

module _ (t : ℕ) (f : Gpr → ℕ → ℕ) (R : Gpr) where
  -- An in-place loop over the four words of a register whose body reads only the current word of
  -- each register leaves in every word the value of the body on the registers from before, also
  -- where the target is one of the sources.
  pub for_words_lem : IsLocal get_w f → (k : ℕ) → k < 4 → get_w (for_words t f R t) k ≡ u32 (f R k)
  unfolding for_words
  for_words_lem loc k h = loop_lem words t f loc 4 0 R k (omega arith) h

  pub for_words_outside : (r : ℕ) → r ≢ t → for_words t f R r ≡ R r
  unfolding for_words
  for_words_outside r ne = loop_outside words t f 4 0 R r ne

  pub for_halves_lem :
      IsLocal get_h f → (k : ℕ) → k < 8 → get_h (for_halves t f R t) k ≡ u16 (f R k)
  unfolding for_halves
  for_halves_lem loc k h = loop_lem halves t f loc 8 0 R k (omega arith) h

  pub for_halves_outside : (r : ℕ) → r ≢ t → for_halves t f R r ≡ R r
  unfolding for_halves
  for_halves_outside r ne = loop_outside halves t f 8 0 R r ne

  pub for_bytes_lem : IsLocal (λ r k. r k) f → (k : ℕ) → k < 16 → for_bytes t f R t k ≡ u8 (f R k)
  unfolding for_bytes
  for_bytes_lem loc k h = loop_lem bytes t f loc 16 0 R k (omega arith) h

  pub for_bytes_outside : (r : ℕ) → r ≢ t → for_bytes t f R r ≡ R r
  unfolding for_bytes
  for_bytes_outside r ne = loop_outside bytes t f 16 0 R r ne
