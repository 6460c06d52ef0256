-- ===== src/Spu/Elf.antt =====
-- spu_interp.cpp: `spu_load_elf`, which puts the segments of an ELF32 file into the local store.
pub mod Segments
pub mod Laws
use dbz_budokai_hd.Common.{
  ℕ, zero, suc, Bool, true, false, ◌&&◌, ◌||◌, ◌+◌, ◌*◌, ◌^◌, ◌==◌, leb, ltb, not, if◌then◌else◌,
  Option, some, none, Memory, memcpy, memset,
}
use dbz_budokai_hd.Common.Words.{u32, add32, low_bits}
use dbz_budokai_hd.Spu.Context.{Ctx, ls_size}
use dbz_budokai_hd.Spu.Mfc.{◌>>=◌}

-- The bytes of the file and their number.
pub record File : Type 0 where
  pub bytes : Memory
  pub length : ℕ

-- elf[i], with an index in `uint32_t`; beyond the file the access is undefined.
unfoldable pub byte_at : File → ℕ → Option ℕ
byte_at f i = if ltb (u32 i) f.length then some (f.bytes (u32 i)) else none

-- Four bytes from an index on, most significant first, and two.
unfoldable pub be32_at : File → ℕ → Option ℕ
unfolding byte_at
be32_at f i = do
  a ← byte_at f i
  b ← byte_at f (i + 1)
  c ← byte_at f (i + 2)
  d ← byte_at f (i + 3)
  some (a * 2 ^ 24 + b * 2 ^ 16 + c * 2 ^ 8 + d)

unfoldable pub be16_at : File → ℕ → Option ℕ
unfolding byte_at
be16_at f i = do a ← byte_at f i; b ← byte_at f (i + 1); some (a * 2 ^ 8 + b)

-- The fields of a program header that the code reads.
pub record Phdr : Type 0 where
  pub p_type : ℕ
  pub p_off : ℕ
  pub p_vaddr : ℕ
  pub p_filesz : ℕ
  pub p_memsz : ℕ

unfoldable pub read_phdr : File → ℕ → Option Phdr
unfolding be32_at
read_phdr f ph = do
  p_type ← be32_at f ph
  p_off ← be32_at f (ph + 4)
  p_vaddr ← be32_at f (ph + 8)
  p_filesz ← be32_at f (ph + 16)
  p_memsz ← be32_at f (ph + 20)
  some (record {
    p_type = p_type;
    p_off = p_off;
    p_vaddr = p_vaddr;
    p_filesz = p_filesz;
    p_memsz = p_memsz;
  })

-- The three tests before the copy, with sums in `uint32_t`.
abbrev pub is_loaded : File → Phdr → Bool
is_loaded f h =
    h.p_type == 1
    && leb (add32 h.p_vaddr h.p_memsz) ls_size
    && leb (add32 h.p_off h.p_filesz) f.length

-- What `memset` and `memcpy` may access.
abbrev pub copies_inside : File → Phdr → Bool
copies_inside f h =
    leb (h.p_vaddr + h.p_memsz) ls_size
    && (h.p_filesz == 0
        || (leb (h.p_vaddr + h.p_filesz) ls_size && leb (h.p_off + h.p_filesz) f.length))

-- memset(ls + p_vaddr, 0, p_memsz), then memcpy(ls + p_vaddr, elf + p_off, p_filesz)
unfoldable pub load_segment : File → Phdr → Memory → Memory
unfolding memset memcpy
load_segment f h ls = memcpy (memset ls h.p_vaddr 0 h.p_memsz) h.p_vaddr f.bytes h.p_off h.p_filesz

unfoldable pub place : File → Phdr → Ctx → Option Ctx
unfolding load_segment
place f h c =
    if is_loaded f h
    then (if copies_inside f h then some (record c { ls = load_segment f h c.ls }) else none)
    else some c

-- The address of program header i.
abbrev pub phdr_address : ℕ → ℕ → ℕ → ℕ
phdr_address phoff phentsz i = add32 phoff (u32 (i * phentsz))

-- The loop, from header i on, with the headers left; it ends early at a header beyond the file.
unfoldable pub load_segments : File → ℕ → ℕ → ℕ → ℕ → Ctx → Option Ctx
unfolding read_phdr place
load_segments f phoff phentsz zero i c = some c
load_segments f phoff phentsz (suc left) i c =
    elim (ltb f.length (add32 (phdr_address phoff phentsz i) 32)) [
      | true ↦ some c
      | false ↦ (do
        h ← read_phdr f (phdr_address phoff phentsz i)
        c' ← place f h c
        load_segments f phoff phentsz left (i + 1) c')
    ]

-- -1, or 0 with the context that is left, or an undefined access.
pub data Loaded : Type 0 where
  rejected : Loaded
  loaded : Ctx → Loaded
  undefined : Loaded

-- elf[0] to elf[3]
abbrev pub has_magic : File → Bool
has_magic f = f.bytes 0 == 0x7F && f.bytes 1 == 0x45 && f.bytes 2 == 0x4C && f.bytes 3 == 0x46

abbrev pub start : ℕ → Option Ctx → Loaded
start entry none = undefined
start entry (some c) = loaded (record c { pc = low_bits 18 entry; running = true })

unfoldable pub load_checked : Ctx → File → Option Loaded
unfolding be32_at be16_at load_segments
load_checked c f = do
  e_entry ← be32_at f 24
  e_phoff ← be32_at f 28
  e_phnum ← be16_at f 44
  e_phentsz ← be16_at f 42
  some (start e_entry (load_segments f e_phoff e_phentsz e_phnum 0 c))

abbrev pub or_undefined : Option Loaded → Loaded
or_undefined none = undefined
or_undefined (some r) = r

unfoldable pub spu_load_elf : Ctx → File → Loaded
unfolding load_checked
spu_load_elf c f =
    if ltb f.length 52
    then rejected
    else if not (has_magic f)
    then rejected
    else or_undefined (load_checked c f)
