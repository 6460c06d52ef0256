-- ===== src/Spu/Tests/Files.antt =====
-- A small ELF file, loaded.
use dbz_budokai_hd.Common.{
  ℕ, refl, ◌≡◌, ◌↔◌, ◌+◌, ◌<◌, ◌≤◌, some, none, arith, update, Memory, Option, ap, subst,
}
use dbz_budokai_hd.Spu.Context.{Ctx, zeros, ls_size}
use dbz_budokai_hd.Spu.Invariant.{AreBytes}
use dbz_budokai_hd.Spu.Elf.{
  File, Phdr, Loaded, rejected, loaded, undefined, be32_at, be16_at, read_phdr, place, spu_load_elf,
}
use dbz_budokai_hd.Spu.Elf.Segments.{IsInRange, place_faults_iff}
use dbz_budokai_hd.Spu.Elf.Laws.{IsSane, spu_load_elf_total}
use dbz_budokai_hd.Spu.Tests.{boot}

-- The magic number and the entry point 0x100; then one header, at 52, which loads 16 bytes from 84 on
-- to 0x100, where 32 are cleared.
abbrev magic_bytes : Memory
magic_bytes = update (update (update (update zeros 0 0x7F) 1 0x45) 2 0x4C) 3 0x46

abbrev header_bytes : Memory
header_bytes = update (update (update (update magic_bytes 26 1) 31 52) 43 32) 45 1

abbrev image : File
image = record {
  bytes =
      update (update (update (update (update (update header_bytes 55 1) 59 84) 62 1) 71 16) 75 32)
        84 7;
  length = 100;
}

image-AreBytes : AreBytes image.bytes
image-AreBytes k = ground arith

abbrev context_of : Loaded → Ctx
context_of rejected = boot
context_of undefined = boot
context_of (loaded c) = c

abbrev started : Ctx
started = context_of (spu_load_elf boot image)

image_loads : spu_load_elf boot image ≡ loaded started
unfolding spu_load_elf
image_loads = refl

image_in_place : started.ls 0x100 ≡ 7
unfolding spu_load_elf
image_in_place = refl

-- Sixteen bytes in the file, and none in memory.
abbrev swollen : Phdr
swollen = record { p_type = 1; p_off = 84; p_vaddr = 0x3FFF8; p_filesz = 16; p_memsz = 0 }

place_faults_iff_example :
    (place image swollen boot ≡ none)
    ↔ ((0 < swollen.p_filesz) × (ls_size < swollen.p_vaddr + swollen.p_filesz))
place_faults_iff_example =
    place_faults_iff image swollen boot (record { memory = omega arith; file = omega arith }) refl

abbrev number_of : Option ℕ → ℕ
number_of none = 0
number_of (some n) = n

abbrev header : Phdr
header = record { p_type = 1; p_off = 84; p_vaddr = 0x100; p_filesz = 16; p_memsz = 32 }

abbrev header_of : Option Phdr → Phdr
header_of none = header
header_of (some h) = h

header_read : (h : Phdr) → read_phdr image 52 ≡ some h → header ≡ h
unfolding read_phdr
header_read h e = ap header_of e

header-IsSane : IsSane image 52 32 1
header-IsSane = record {
  inside = λ i less. omega arith;
  fits = λ i h less e.
      let first : i ≡ 0 = omega arith in
      let known : header ≡ h = header_read h (rw first at e) in
      subst (λ x. IsInRange x × (x.p_filesz ≤ x.p_memsz)) known
        (record { memory = omega arith; file = omega arith }, omega arith);
}

image-IsSane :
    (phoff phnum phentsz : ℕ)
    → be32_at image 28 ≡ some phoff
    → be16_at image 44 ≡ some phnum
    → be16_at image 42 ≡ some phentsz
    → IsSane image phoff phentsz phnum
unfolding be32_at be16_at
image-IsSane phoff phnum phentsz e₁ e₂ e₃ =
    let p : 52 ≡ phoff = ap number_of e₁ in
    let n : 1 ≡ phnum = ap number_of e₂ in
    let s : 32 ≡ phentsz = ap number_of e₃ in rw (← p, ← n, ← s) header-IsSane

spu_load_elf_total_example : (d : Ctx) × (spu_load_elf boot image ≡ loaded d)
spu_load_elf_total_example =
    spu_load_elf_total boot image (omega arith) (omega arith) refl image-IsSane
