-- ===== src/Boot/Tests.antt =====
-- A small ELF64 file.
use dbz_budokai_hd.Common.{Bool, inr, ◌≡◌, ◌==◌, refl, subst, arith, if◌then◌else◌, Memory}
use dbz_budokai_hd.Common.Outcome.{returned}
use dbz_budokai_hd.Boot.{
  Image, segment_at, elf_u16, elf_u32, elf_u64, header_place, e_phnum, elf_load,
}
use dbz_budokai_hd.Boot.Laws.{IsSound, AreSound, Placed, elf_load-Placed}

-- One header, at 64, which loads 4 bytes from 120 on to 0x10000, where 8 are filled.
abbrev image_bytes : Memory
image_bytes a =
    if a == 0
    then 0x7F
    else if a == 1
    then 0x45
    else if a == 2
    then 0x4C
    else if a == 3
    then 0x46
    else if a == 0x27
    then 64
    else if a == 0x37
    then 56
    else if a == 0x39
    then 1
    else if a == 67
    then 1
    else if a == 79
    then 120
    else if a == 85
    then 1
    else if a == 103
    then 4
    else if a == 111
    then 8
    else if a == 120
    then 7
    else 0

abbrev image : Image
image = record { elf = image_bytes; fsize = 124 }

image_count : e_phnum image ≡ 1
unfolding elf_u16
image_count = refl

first-IsSound : IsSound image 0
unfolding segment_at elf_u16 elf_u32 elf_u64 header_place
first-IsSound = (omega arith, inr (omega arith, λ k h. ground (arith, h)))

image-AreSound : AreSound image 0 (e_phnum image)
image-AreSound j low high =
    let first : 0 ≡ j = omega (arith, image_count) in subst (IsSound image) first first-IsSound

elf_load-Placed_example :
    (b : Bool) × (n : Memory) × (elf_load image (λ a. 0xFF) ≡ returned (b, n))
    × Placed image 0 (e_phnum image) (λ a. 0xFF) n
elf_load-Placed_example = elf_load-Placed image (λ a. 0xFF) (omega arith) refl image-AreSound
