-- ===== src/Boot.antt =====
-- main.cpp: `elf_load`, which puts the segments of a big-endian ELF64 file into the guest's memory. The
-- file is read as a whole before; from there on it is an array of bytes with a length.
pub mod Laws
mod Tests
use dbz_budokai_hd.Common.{
  ℕ, Bool, zero, suc, true, false, ◌&&◌, ◌||◌, ◌+◌, ◌-◌, ◌*◌, ◌^◌, ◌==◌, leb, ltb, not,
  if◌then◌else◌, List, [], ◌∷◌, Memory, memcpy, memset,
}
use dbz_budokai_hd.Common.Words.{u32, u64}
use dbz_budokai_hd.Common.Outcome.{Outcome, returned, undefined, ◌>>=◌}

pub record Image : Type 0 where
  pub elf : Memory
  pub fsize : ℕ

unfoldable pub elf_u16 : Memory → ℕ → ℕ
elf_u16 p o = p o * 2 ^ 8 + p (o + 1)

unfoldable pub elf_u32 : Memory → ℕ → ℕ
elf_u32 p o = p o * 2 ^ 24 + p (o + 1) * 2 ^ 16 + p (o + 2) * 2 ^ 8 + p (o + 3)

unfoldable pub elf_u64 : Memory → ℕ → ℕ
unfolding elf_u32
elf_u64 p o = elf_u32 p o * 2 ^ 32 + elf_u32 p (o + 4)

-- The fields of the program header at a place.
pub record Segment : Type 0 where
  pub seg_type : ℕ
  pub seg_off : ℕ
  pub seg_vaddr : ℕ
  pub seg_filesz : ℕ
  pub seg_memsz : ℕ

unfoldable pub segment_at : Memory → ℕ → Segment
unfolding elf_u64
segment_at p ph = record {
  seg_type = elf_u32 p ph;
  seg_off = elf_u64 p (ph + 8);
  seg_vaddr = elf_u64 p (ph + 16);
  seg_filesz = elf_u64 p (ph + 32);
  seg_memsz = elf_u64 p (ph + 40);
}

-- p_type != 1 || p_vaddr == 0 || p_memsz == 0
abbrev pub is_passed : Segment → Bool
is_passed g = not (g.seg_type == 1) || g.seg_vaddr == 0 || g.seg_memsz == 0

-- dest, from vm_base on
abbrev pub dest : Segment → ℕ
dest g = u32 g.seg_vaddr

-- The start and the size of each region that `vm_init` commits, in its order; the rest of the 4 GB
-- is reserved without access.
abbrev pub commits : List (ℕ × ℕ)
commits =
    (0x00000000, 0x10000)
    ∷ (0x00010000, 0x10000000)
    ∷ (0xD0000000, 0x10000000)
    ∷ (0xE0000000, 0x1000)
    ∷ (0xFFFF0000, 0x10000)
    ∷ (0xFEED0000, 0x10000)
    ∷ []

-- Whether a byte stands in one of the regions.
abbrev pub is_committed : List (ℕ × ℕ) → ℕ → Bool
is_committed [] a = false
is_committed ((start, size) ∷ regions) a =
    leb start a && ltb a (start + size) || is_committed regions a

-- Whether the n bytes from lo on stand in regions without a gap: the first two of them touch, and so
-- do the next two.
unfoldable pub is_accessible : ℕ → ℕ → Bool
is_accessible lo n =
    leb (lo + n) 0x10010000
    || leb 0xD0000000 lo && leb (lo + n) 0xE0001000
    || leb 0xFEED0000 lo && leb (lo + n) 0xFEEE0000
    || leb 0xFFFF0000 lo && leb (lo + n) (2 ^ 32)

-- The copy reads within the file, and writes to memory that is committed.
abbrev pub copy_fits : Image → Segment → Bool
copy_fits f g = leb (g.seg_off + g.seg_filesz) f.fsize && is_accessible (dest g) g.seg_filesz

unfoldable pub copy_file : Image → Segment → Memory → Outcome Memory
unfolding is_accessible
copy_file f g m =
    if g.seg_filesz == 0
    then returned m
    else if copy_fits f g
    then returned (memcpy m (dest g) f.elf g.seg_off g.seg_filesz)
    else undefined

unfoldable pub clear_rest : Segment → Memory → Outcome Memory
unfolding is_accessible
clear_rest g m =
    if leb g.seg_memsz g.seg_filesz
    then returned m
    else if is_accessible (dest g + g.seg_filesz) (g.seg_memsz - g.seg_filesz)
    then returned (memset m (dest g + g.seg_filesz) 0 (g.seg_memsz - g.seg_filesz))
    else undefined

-- One segment, with the count of those loaded.
unfoldable pub fill_segment : Image → Segment → Memory → ℕ → Outcome (Memory × ℕ)
unfolding copy_file clear_rest
fill_segment f g m loaded =
    if is_passed g
    then returned (m, loaded)
    else (do a ← copy_file f g m; b ← clear_rest g a; returned (b, loaded + 1))

-- ph of segment i, a `size_t`
unfoldable pub header_place : Image → ℕ → ℕ
unfolding elf_u16 elf_u64
header_place f i = u64 (elf_u64 f.elf 0x20 + i * elf_u16 f.elf 0x36)

abbrev pub segment : Image → ℕ → Segment
segment f i = segment_at f.elf (header_place f i)

-- The headers from i on, with the number of those left. The last byte of a header that is read is the 48th.
unfoldable pub load_from : Image → ℕ → ℕ → Memory → ℕ → Outcome (Memory × ℕ)
unfolding fill_segment segment_at
load_from f zero i m loaded = returned (m, loaded)
load_from f (suc left) i m loaded =
    (if leb (header_place f i + 48) f.fsize
      then fill_segment f (segment f i) m loaded
      else undefined)
    >>= λ x. load_from f left (i + 1) x.0 x.1

abbrev pub is_elf : Memory → Bool
is_elf p = p 0 == 0x7F && p 1 == 0x45 && p 2 == 0x4C && p 3 == 0x46

abbrev pub e_phnum : Image → ℕ
e_phnum f = elf_u16 f.elf 0x38

-- Whether a segment was loaded, and the memory.
unfoldable pub elf_load : Image → Memory → Outcome (Bool × Memory)
unfolding load_from
elf_load f m =
    if ltb f.fsize 4
    then undefined
    else if not (is_elf f.elf)
    then returned (false, m)
    else if ltb f.fsize 0x3A
    then undefined
    else (do x ← load_from f (e_phnum f) 0 m 0; returned (ltb 0 x.1, x.0))
