-- ===== src/Ppu/Dispatch/Laws.antt =====
-- extra_funcs.cpp, runtime_glue.cpp: every entry of the table is found, and what becomes of an indirect
-- call.
use dbz_budokai_hd.Common.{
  ℕ, zero, suc, Bool, true, false, ◌<◌, ◌≤◌, ◌≡◌, ◌≢◌, ◌↔◌, ◌&&◌, ◌||◌, ◌==◌, ltb, not, refl, arith,
  List, [], ◌∷◌, Option, some, none, Bool-cases, Option-cases, inl, inr, if_split, ap, sym, ◌∙◌,
}
use mathlib.Core.Bool.{false≢true}
use native.Mathlib.Decide.{dec_lt}
use dbz_budokai_hd.Common.Outcome.{returned}
use dbz_budokai_hd.Common.Safe.{Safe, safe_returned}
use dbz_budokai_hd.Ppu.State.{Ppu, set_gpr}
use dbz_budokai_hd.Ppu.Dispatch.{
  extra_table, table_lookup, ppu_resolve_extra, Log, is_logged, log_address, Linked, or_extra,
  call_resolved, ps3_indirect_call,
}

-- The table has this entry.
unfoldable pub has_entry : ℕ → ℕ → List (ℕ × ℕ) → Bool
has_entry addr f [] = false
has_entry addr f ((a, g) ∷ entries) = (a == addr && g == f) || has_entry addr f entries

has_key : ℕ → List (ℕ × ℕ) → Bool
has_key addr [] = false
has_key addr ((a, g) ∷ entries) = a == addr || has_key addr entries

distinct : List (ℕ × ℕ) → Bool
unfolding has_key
distinct [] = true
distinct ((a, g) ∷ entries) = not (has_key a entries) && distinct entries

found :
    (addr f : ℕ) (es : List (ℕ × ℕ)) → table_lookup addr es ≡ some f → has_entry addr f es ≡ true
unfolding table_lookup has_entry
found addr f [] h = cc
found addr f ((a, g) ∷ es) h = elim (Bool-cases (a == addr)) [
  | inl same ↦ (let e = rw same at h in ground arith)
  | inr other ↦ (let rest = found addr f es in ground arith)
]

keyed : (addr f : ℕ) (es : List (ℕ × ℕ)) → has_entry addr f es ≡ true → has_key addr es ≡ true
unfolding has_entry has_key
keyed addr f [] h = cc
keyed addr f ((a, g) ∷ es) h = (let rest = keyed addr f es in ground arith)

looked_up :
    (addr f : ℕ) (es : List (ℕ × ℕ))
    → distinct es ≡ true
    → has_entry addr f es ≡ true
    → table_lookup addr es ≡ some f
unfolding table_lookup has_entry distinct
looked_up addr f [] d h = cc
looked_up addr f ((a, g) ∷ es) d h =
    (let rest = looked_up addr f es in let key = keyed addr f es in ground arith)

-- The search for an address gives a function if and only if the table has an entry for the two:
-- no entry hides another.
pub ppu_resolve_extra_iff :
    (addr f : ℕ) → (ppu_resolve_extra addr ≡ some f) ↔ (has_entry addr f extra_table ≡ true)
unfolding ppu_resolve_extra distinct has_key
ppu_resolve_extra_iff addr f =
    (λ h. found addr f extra_table h, λ h. looked_up addr f extra_table refl h)

-- At most 256 addresses, each of them once.
pub record IsLog (l : Log) : Type 0 where
  pub room : l.nlogged ≤ 256
  pub once : (i j : ℕ) → i < j → j < l.nlogged → l.logged i ≢ l.logged j

not_logged :
    (logged : ℕ → ℕ) (addr n : ℕ)
    → is_logged logged addr n ≡ false
    → (i : ℕ) → i < n
    → logged i ≢ addr
unfolding is_logged
not_logged logged addr zero e i h same = absurd (omega arith)
not_logged logged addr (suc n) e i h same = elim (dec_lt i n) [
  | yes earlier ↦ elim (Bool-cases (logged n == addr)) [
    | inl t ↦ absurd (false≢true (sym (rw (t, is_logged) at e)))
    | inr f ↦ not_logged logged addr n (rw (f, is_logged) at e) i earlier same
  ]
  | no last ↦
      let place : i ≡ n = omega arith in
      (let q : logged n ≡ addr = ap logged (sym place) ∙ same in ground arith)
]

log_address-IsLog : (addr : ℕ) (l : Log) → IsLog l → IsLog (log_address addr l)
unfolding log_address
log_address-IsLog addr l v =
    if_split IsLog (is_logged l.logged addr l.nlogged) (λ seen. v)
      λ new.
        if_split IsLog (ltb l.nlogged 256)
          (λ room. record {
            room = ground arith;
            once = λ i j p q.
                (let fresh = not_logged l.logged addr l.nlogged new i in
                  let old = v.once i j p in ground arith);
          })
          (λ full. v)

module _ (L : Linked) (l : Log) (c : Ppu) (v : IsLog l)
    (keeps : (f : ℕ) (k : Log) (d : Ppu)
      → IsLog k
      → Safe (λ p. IsLog p.0) (L.function f (k, d))) where
  resolved-IsLog : (o : Option ℕ) → Safe (λ p. IsLog p.0) (call_resolved L o (l, c))
  unfolding call_resolved
  resolved-IsLog none = safe_returned (log_address-IsLog c.ctr l v)
  resolved-IsLog (some f) = keeps f l c v

  -- An indirect call keeps the log of unresolved addresses one of at most 256 addresses, each of
  -- them once, and reads no null pointer, if the functions that may be called do.
  pub ps3_indirect_call-IsLog : Safe (λ p. IsLog p.0) (ps3_indirect_call L (l, c))
  unfolding ps3_indirect_call
  ps3_indirect_call-IsLog = resolved-IsLog (or_extra (L.ppu_resolve_addr c.ctr) c.ctr)

-- An indirect call to an address that neither table has returns 0 in r3 and changes no other
-- register and nothing of the memory.
pub ps3_indirect_call_unknown :
    (L : Linked) (l : Log) (c : Ppu)
    → L.ppu_resolve_addr c.ctr ≡ none
    → ((f : ℕ) → has_entry c.ctr f extra_table ≡ false)
    → ps3_indirect_call L (l, c) ≡ returned (log_address c.ctr l, set_gpr 3 0 c)
unfolding ps3_indirect_call or_extra call_resolved
ps3_indirect_call_unknown L l c e n = elim (Option-cases (ppu_resolve_extra c.ctr)) [
  | inl missing ↦ rw (e, or_extra, missing) (unfold call_resolved in refl)
  | inr (f, found_so) ↦ absurd (false≢true (sym (n f) ∙ (ppu_resolve_extra_iff c.ctr f).0 found_so))
]
