-- ===== src/Spu/Elf/Segments.antt =====
-- `spu_load_elf`: what one segment does to the local store, and when its copy leaves the arrays.
use dbz_budokai_hd.Common.{
  ℕ, Bool, true, false, ◌+◌, ◌-◌, ◌^◌, ◌≤◌, ◌<◌, ◌≡◌, ◌≢◌, ◌↔◌, ltb, some, none, arith, refl, ◌∙◌,
  zero, suc, Option,
}
use dbz_budokai_hd.Spu.Context.{Ctx, ls_size}
use dbz_budokai_hd.Spu.Invariant.{IsValid, AreBytes}
use dbz_budokai_hd.Spu.Invariant.Channels.{ls-IsValid, Holds, faults, leaves, either}
use dbz_budokai_hd.Common.Words.{add32}
use dbz_budokai_hd.Spu.Mfc.{◌>>=◌}
use dbz_budokai_hd.Spu.Elf.{
  File, Phdr, is_loaded, copies_inside, load_segment, place, load_segments, read_phdr, phdr_address,
}

-- The sums of a header do not wrap.
pub record IsInRange (h : Phdr) : Type 0 where
  pub memory : h.p_vaddr + h.p_memsz < 2 ^ 32
  pub file : h.p_off + h.p_filesz < 2 ^ 32

-- A segment that passes the tests, with sums that do not wrap, leaves the arrays if and only if
-- the bytes that it copies reach beyond the local store.
pub place_faults_iff :
    (f : File) (h : Phdr) (c : Ctx)
    → IsInRange h
    → is_loaded f h ≡ true
    → (place f h c ≡ none) ↔ ((0 < h.p_filesz) × (ls_size < h.p_vaddr + h.p_filesz))
unfolding place
place_faults_iff f h c r l = ground arith

-- With no more bytes in the file than in memory, a segment with sums that do not wrap is copied or
-- passed over.
pub place_total :
    (f : File) (h : Phdr) (c : Ctx) → IsInRange h → h.p_filesz ≤ h.p_memsz → place f h c ≢ none
unfolding place
place_total f h c r le e = ground arith

load_segment-AreBytes :
    (f : File) (h : Phdr) (ls : ℕ → ℕ)
    → AreBytes f.bytes
    → AreBytes ls
    → AreBytes (load_segment f h ls)
unfolding load_segment
load_segment-AreBytes f h ls hf hl k = ground (arith, hf (h.p_off + (k - h.p_vaddr)), hl k)

-- Only the local store changes.
pub record Placed (c d : Ctx) : Type 0 where
  pub valid : IsValid d
  pub gpr : d.gpr ≡ c.gpr
  pub vm : d.vm ≡ c.vm
  pub id : d.id ≡ c.id

Placed-refl : (c : Ctx) → IsValid c → Placed c c
Placed-refl c v = record { valid = v; gpr = refl; vm = refl; id = refl }

pub Placed-trans : {c d e : Ctx} → Placed c d → Placed d e → Placed c e
Placed-trans a b = record {
  valid = b.valid;
  gpr = b.gpr ∙ a.gpr;
  vm = b.vm ∙ a.vm;
  id = b.id ∙ a.id;
}

place-Placed :
    (f : File) (h : Phdr) (c : Ctx) → AreBytes f.bytes → IsValid c → Holds (Placed c) (place f h c)
unfolding place
place-Placed f h c b v =
    either (is_loaded f h)
      (either (copies_inside f h)
        (leaves (record {
          valid = ls-IsValid c _ (load_segment-AreBytes f h c.ls b v.ls) v;
          gpr = refl;
          vm = refl;
          id = refl;
        }))
        faults)
      (leaves (Placed-refl c v))

-- The cases of a test.
branch :
    {P : Ctx → Type 0} (b : Bool) {x y : Option Ctx}
    → Holds P x
    → Holds P y
    → Holds P (elim b [ true ↦ x | false ↦ y ])
branch true h k = h
branch false h k = k

-- A property of what both steps of a chain leave.
Holds-chain :
    {A : Type 0} (P : Ctx → Type 0) (m : Option A) (k : A → Option Ctx)
    → ((a : A) → Holds P (k a))
    → Holds P (m >>= k)
Holds-chain P none k h = faults
Holds-chain P (some a) k h = h a

Holds-after :
    (P Q : Ctx → Type 0) (m : Option Ctx) (k : Ctx → Option Ctx)
    → Holds P m
    → ((d : Ctx) → P d → Holds Q (k d))
    → Holds Q (m >>= k)
Holds-after P Q none k h g = faults
Holds-after P Q (some d) k (leaves p) g = g d p

weaken : {c d : Ctx} (m : Option Ctx) → Placed c d → Holds (Placed d) m → Holds (Placed c) m
weaken none a faults = faults
weaken (some e) a (leaves b) = leaves (Placed-trans a b)

pub load_segments-Placed :
    (f : File) (phoff phentsz left i : ℕ) (c : Ctx)
    → AreBytes f.bytes
    → IsValid c
    → Holds (Placed c) (load_segments f phoff phentsz left i c)
unfolding load_segments
load_segments-Placed f phoff phentsz zero i c b v = leaves (Placed-refl c v)
load_segments-Placed f phoff phentsz (suc left) i c b v =
    branch (ltb f.length (add32 (phdr_address phoff phentsz i) 32)) (leaves (Placed-refl c v)) (
      Holds-chain (Placed c) (read_phdr f (phdr_address phoff phentsz i)) _ λ h.
        Holds-after (Placed c) (Placed c) (place f h c) _ (place-Placed f h c b v) λ d p.
          weaken (load_segments f phoff phentsz left (i + 1) d) p
            (load_segments-Placed f phoff phentsz left (i + 1) d b p.valid))
