-- ===== src/Spu/Elf/Laws.antt =====
-- `spu_load_elf`: when a file is rejected, what a loaded context is, and that loading is defined on
-- files with sane headers.
use dbz_budokai_hd.Common.{
  ℕ, Bool, zero, suc, true, false, ◌+◌, ◌*◌, ◌^◌, ◌≤◌, ◌<◌, ◌≡◌, ◌↔◌, ◌⊎◌, inl, inr, some, none,
  Option, Option-cases, Bool-cases, arith, refl, ap, subst, ◌∙◌, ltb,
}
use dbz_budokai_hd.Common.Words.{u32, add32, low_bits}
use dbz_budokai_hd.Spu.Context.{Ctx, ls_size}
use dbz_budokai_hd.Spu.Mfc.{◌>>=◌}
use dbz_budokai_hd.Spu.Invariant.{IsValid, AreBytes}
use dbz_budokai_hd.Spu.Invariant.Channels.{Holds, leaves}
use dbz_budokai_hd.Spu.Elf.{
  File, Phdr, Loaded, rejected, loaded, undefined, has_magic, be32_at, be16_at, read_phdr, place,
  phdr_address, load_segments, load_checked, or_undefined, start, spu_load_elf,
}
use dbz_budokai_hd.Spu.Elf.Segments.{IsInRange, Placed, place_total, load_segments-Placed}

-- An access with a result.
abbrev IsDefined : {A : Type 0} → Option A → Type 0
IsDefined {A} o = (v : A) × (o ≡ some v)

module _ (f : File) (small : f.length < 2 ^ 32) where
  be32_at-IsDefined : (i : ℕ) → i + 4 ≤ f.length → IsDefined (be32_at f i)
  unfolding be32_at
  be32_at-IsDefined i h = (
    f.bytes (u32 i) * 2 ^ 24
        + f.bytes (u32 (i + 1)) * 2 ^ 16
        + f.bytes (u32 (i + 2)) * 2 ^ 8
        + f.bytes (u32 (i + 3)),
    ground arith,
  )

  be16_at-IsDefined : (i : ℕ) → i + 2 ≤ f.length → IsDefined (be16_at f i)
  unfolding be16_at
  be16_at-IsDefined i h = (f.bytes (u32 i) * 2 ^ 8 + f.bytes (u32 (i + 1)), ground arith)

  read_phdr-IsDefined : (ph : ℕ) → ph + 32 ≤ f.length → IsDefined (read_phdr f ph)
  unfolding read_phdr
  read_phdr-IsDefined ph h =
      let (t, et) = be32_at-IsDefined ph (omega arith) in
      let (o, eo) = be32_at-IsDefined (ph + 4) (omega arith) in
      let (v, ev) = be32_at-IsDefined (ph + 8) (omega arith) in
      let (s, es) = be32_at-IsDefined (ph + 16) (omega arith) in
      let (m, em) = be32_at-IsDefined (ph + 20) (omega arith) in
      (
        record { p_type = t; p_off = o; p_vaddr = v; p_filesz = s; p_memsz = m },
        rw (et, eo, ev, es, em) refl,
      )

-- The headers that the loop reads: their addresses do not wrap, nor do their sums, and none has more
-- bytes in the file than in memory.
pub record IsSane (f : File) (phoff phentsz phnum : ℕ) : Type 0 where
  pub inside : (i : ℕ) → i < phnum → phdr_address phoff phentsz i + 32 < 2 ^ 32
  pub fits :
      (i : ℕ) (h : Phdr)
      → i < phnum
      → read_phdr f (phdr_address phoff phentsz i) ≡ some h
      → IsInRange h × (h.p_filesz ≤ h.p_memsz)

module _ (f : File) (phoff phentsz left i : ℕ) (c : Ctx) where
  loop_beyond :
      ltb f.length (add32 (phdr_address phoff phentsz i) 32) ≡ true
      → load_segments f phoff phentsz (suc left) i c ≡ some c
  unfolding load_segments
  loop_beyond e = rw (e, load_segments) refl

  loop_within :
      ltb f.length (add32 (phdr_address phoff phentsz i) 32) ≡ false
      → load_segments f phoff phentsz (suc left) i c ≡ (
          read_phdr f (phdr_address phoff phentsz i) >>= λ h.
          place f h c >>= λ d. load_segments f phoff phentsz left (i + 1) d)
  unfolding load_segments
  loop_within e = rw (e, load_segments) refl

module _ (f : File) (small : f.length < 2 ^ 32) (phoff phentsz phnum : ℕ)
    (sane : IsSane f phoff phentsz phnum) where
  -- With sane headers each round is defined, and so is the loop.
  load_segments_total :
      (left i : ℕ) (c : Ctx) → i + left ≤ phnum → IsDefined (load_segments f phoff phentsz left i c)
  load_segments_total zero i c h = (c, unfold load_segments in refl)
  load_segments_total (suc left) i c h =
      elim (Bool-cases (ltb f.length (add32 (phdr_address phoff phentsz i) 32))) [
        | inl beyond ↦ (c, loop_beyond f phoff phentsz left i c beyond)
        | inr within ↦
            let inside = sane.inside i (omega arith) in
            let (p, read) =
              read_phdr-IsDefined f small (phdr_address phoff phentsz i) (ground arith) in
            let (range, le) = sane.fits i p (omega arith) read in
            elim (Option-cases (place f p c)) [
              | inl n ↦ absurd (place_total f p c range le n)
              | inr (d, placed) ↦
                  let (e, rest) = load_segments_total left (i + 1) d (omega arith) in
                  (e, loop_within f phoff phentsz left i c within ∙ rw (read, placed) rest)
            ]
      ]

-- The loader's result, but for a file that it turns away.
is_rejected : Loaded → Bool
is_rejected rejected = true
is_rejected (loaded c) = false
is_rejected undefined = false

start_accepts : (entry : ℕ) (o : Option Ctx) → is_rejected (start entry o) ≡ false
unfolding is_rejected
start_accepts entry none = refl
start_accepts entry (some c) = refl

chain_accepts :
    {A : Type 0} (m : Option A) (k : A → Option Loaded)
    → ((a : A) → is_rejected (or_undefined (k a)) ≡ false)
    → is_rejected (or_undefined (m >>= k)) ≡ false
unfolding is_rejected
chain_accepts none k h = refl
chain_accepts (some a) k h = h a

load_checked_accepts : (c : Ctx) (f : File) → is_rejected (or_undefined (load_checked c f)) ≡ false
unfolding load_checked
load_checked_accepts c f = chain_accepts (be32_at f 24) _ λ entry.
    chain_accepts (be32_at f 28) _ λ phoff. chain_accepts (be16_at f 44) _ λ phnum.
      chain_accepts (be16_at f 42) _
        λ phentsz. start_accepts entry (load_segments f phoff phentsz phnum 0 c)

-- A file is rejected if and only if it is shorter than a header or does not begin with the magic
-- number.
pub spu_load_elf_rejects :
    (c : Ctx) (f : File) → (spu_load_elf c f ≡ rejected) ↔ ((f.length < 52) ⊎ (has_magic f ≡ false))
unfolding spu_load_elf is_rejected
spu_load_elf_rejects c f = ground (arith, load_checked_accepts c f)

module _ (c : Ctx) (f : File) where
  checked_lem :
      (entry phoff phnum phentsz : ℕ)
      → be32_at f 24 ≡ some entry
      → be32_at f 28 ≡ some phoff
      → be16_at f 44 ≡ some phnum
      → be16_at f 42 ≡ some phentsz
      → load_checked c f ≡ some (start entry (load_segments f phoff phentsz phnum 0 c))
  unfolding load_checked
  checked_lem entry phoff phnum phentsz e₁ e₂ e₃ e₄ = rw (e₁, e₂, e₃, e₄) refl

  -- With the four fields of the header, an accepted file is what its segments leave.
  accepted_lem :
      (entry phoff phnum phentsz : ℕ)
      → 52 ≤ f.length
      → has_magic f ≡ true
      → be32_at f 24 ≡ some entry
      → be32_at f 28 ≡ some phoff
      → be16_at f 44 ≡ some phnum
      → be16_at f 42 ≡ some phentsz
      → spu_load_elf c f ≡ start entry (load_segments f phoff phentsz phnum 0 c)
  unfolding spu_load_elf
  accepted_lem entry phoff phnum phentsz long magic e₁ e₂ e₃ e₄ =
      ground (arith, ap or_undefined (checked_lem entry phoff phnum phentsz e₁ e₂ e₃ e₄))

  -- A file of less than 2 ^ 32 bytes that is long enough and begins with the magic number is
  -- loaded, without an undefined access, if its headers are sane: their addresses and sums do not
  -- wrap, and none has more bytes in the file than in memory.
  pub spu_load_elf_total :
      f.length < 2 ^ 32
      → 52 ≤ f.length
      → has_magic f ≡ true
      → ((phoff phnum phentsz : ℕ)
          → be32_at f 28 ≡ some phoff
          → be16_at f 44 ≡ some phnum
          → be16_at f 42 ≡ some phentsz
          → IsSane f phoff phentsz phnum)
      → (d : Ctx) × (spu_load_elf c f ≡ loaded d)
  spu_load_elf_total small long magic sane =
      let (entry, e₁) = be32_at-IsDefined f small 24 (omega arith) in
      let (phoff, e₂) = be32_at-IsDefined f small 28 (omega arith) in
      let (phnum, e₃) = be16_at-IsDefined f small 44 (omega arith) in
      let (phentsz, e₄) = be16_at-IsDefined f small 42 (omega arith) in
      let (d, segments) =
        load_segments_total f small phoff phentsz phnum (sane phoff phnum phentsz e₂ e₃ e₄) phnum 0
          c (omega arith) in
      (
        record d { pc = low_bits 18 entry; running = true },
        accepted_lem entry phoff phnum phentsz long magic e₁ e₂ e₃ e₄ ∙ ap (start entry) segments,
      )

-- What a loader's result says of the context that it gives.
data Leaves (c : Ctx) : Loaded → Type 0 where
  no_context : Leaves c rejected
  no_result : Leaves c undefined
  context : {d : Ctx} → Placed c d → d.running ≡ true → d.pc < ls_size → Leaves c (loaded d)

started-IsValid :
    (d : Ctx) (a : ℕ) → a < 2 ^ 32 → IsValid d → IsValid (record d { pc = a; running = true })
started-IsValid d a h v = assumption

start-Leaves :
    (c : Ctx) (entry : ℕ) (o : Option Ctx) → Holds (Placed c) o → Leaves c (start entry o)
start-Leaves c entry none h = no_result
start-Leaves c entry (some d) (leaves p) = context started refl small
  where
    small : low_bits 18 entry < 2 ^ 18
    small = omega arith

    started : Placed c (record d { pc = low_bits 18 entry; running = true })
    started = record {
      valid = started-IsValid d (low_bits 18 entry) (omega arith) p.valid;
      gpr = p.gpr;
      vm = p.vm;
      id = p.id;
    }

chain-Leaves :
    (c : Ctx) {A : Type 0} (m : Option A) (k : A → Option Loaded)
    → ((a : A) → Leaves c (or_undefined (k a)))
    → Leaves c (or_undefined (m >>= k))
chain-Leaves c none k h = no_result
chain-Leaves c (some a) k h = h a

load_checked-Leaves :
    (c : Ctx) (f : File) → IsValid c → AreBytes f.bytes → Leaves c (or_undefined (load_checked c f))
unfolding load_checked
load_checked-Leaves c f v b = chain-Leaves c (be32_at f 24) _ λ entry.
    chain-Leaves c (be32_at f 28) _ λ phoff. chain-Leaves c (be16_at f 44) _ λ phnum.
      chain-Leaves c (be16_at f 42) _ λ phentsz.
        start-Leaves c entry (load_segments f phoff phentsz phnum 0 c)
          (load_segments-Placed f phoff phentsz phnum 0 c b v)

spu_load_elf-Leaves :
    (c : Ctx) (f : File) → IsValid c → AreBytes f.bytes → Leaves c (spu_load_elf c f)
unfolding spu_load_elf
spu_load_elf-Leaves c f v b = elim (Bool-cases (ltb f.length 52)) [
  | inl short ↦ rw short no_context
  | inr long ↦ elim (Bool-cases (has_magic f)) [
    | inl magic ↦ rw (long, magic) (load_checked-Leaves c f v b)
    | inr other ↦ rw (long, other) no_context
  ]
]

Leaves-loaded :
    {c d : Ctx} → Leaves c (loaded d) → Placed c d × (d.running ≡ true) × (d.pc < ls_size)
Leaves-loaded (context p on small) = (p, on, small)

-- A context loaded into a valid one from a file of bytes is valid, with the registers, the main
-- memory and the identifier of before; it runs, and its program counter lies in the local store.
pub spu_load_elf_loaded :
    (c d : Ctx) (f : File)
    → IsValid c
    → AreBytes f.bytes
    → spu_load_elf c f ≡ loaded d
    → Placed c d × (d.running ≡ true) × (d.pc < ls_size)
spu_load_elf_loaded c d f v b e = Leaves-loaded (subst (Leaves c) e (spu_load_elf-Leaves c f v b))
