-- ===== src/Rsx/Tests.antt =====
-- A command buffer, and textures.
use dbz_budokai_hd.Common.{
  ℕ, suc, ◌/◌, ◌*◌, ◌^◌, ◌<◌, ◌≤◌, ◌≡◌, ◌==◌, refl, if◌then◌else◌, true, inl, arith, Memory, [],
  ◌∷◌,
}
use dbz_budokai_hd.Common.Words.{test_bit}
use dbz_budokai_hd.Common.Outcome.{returned, unending}
use dbz_budokai_hd.Guest.{vm_read32}
use dbz_budokai_hd.Rsx.State.{clear, Rsx, rsx_start}
use dbz_budokai_hd.Rsx.Handle.{rsx_handle}
use dbz_budokai_hd.Rsx.Fifo.{rsx_process_fifo, jump_target}
use dbz_budokai_hd.Rsx.Fifo.Ends.{
  JumpsForward, JumpsToItself, rsx_process_fifo-Returns, rsx_process_fifo_endless,
}
use dbz_budokai_hd.Rsx.Write.{Machine, vm_write32}
use dbz_budokai_hd.Rsx.Write.Laws.{ReturnsKept, vm_write32-ReturnsKept}
use dbz_budokai_hd.Rsx.Texture.{morton2d, Texture, pixel_count, source_index}
use dbz_budokai_hd.Rsx.Texture.Morton.{
  evens, odds, morton2d_lem, interleave, morton2d_square, source_index_tall,
}

-- A colour for clearing, and the clear: two commands of one argument each.
abbrev clearing : Memory
clearing a =
    if a == 0xD0100001
    then 4
    else if a == 0xD0100002
    then 0x18
    else if a == 0xD0100003
    then 0x20
    else if a == 0xD0100004
    then 0x11
    else if a == 0xD0100005
    then 0x22
    else if a == 0xD0100006
    then 0x33
    else if a == 0xD0100007
    then 0x44
    else if a == 0xD0100009
    then 4
    else if a == 0xD010000A
    then 0x1D
    else if a == 0xD010000B
    then 0x94
    else if a == 0xD010000F
    then 0xF0
    else 0

clearing_runs :
    rsx_process_fifo 10 clearing 0x10 (rsx_start true)
    ≡ returned (record (rsx_start true) {
      get_ea = 0x10;
      clr_color = 0x11223344;
      frames = clear 0x44112233 ∷ [];
    })
unfolding rsx_process_fifo vm_read32 rsx_start rsx_handle
clearing_runs = refl

-- A jump over one word, and the two list heads and the root object, which are not null.
abbrev jumping : Memory
jumping a =
    if a == 0xD0100000
    then 0x20
    else if a == 0xD0100003
    then 8
    else if a == 0x27F81F
    then 1
    else if a == 0x27F817
    then 1
    else if a == 0x279B0B
    then 1
    else 0

jumping_top : (p : ℕ) → p < 0xD0200000 → test_bit 29 (vm_read32 jumping p) ≡ true → p ≡ 0xD0100000
unfolding vm_read32
jumping_top p h e = ground arith

jumping_start : 0xD0100000 < jump_target (vm_read32 jumping 0xD0100000)
unfolding vm_read32
jumping_start = omega arith

jumping_forward : JumpsForward jumping
jumping_forward p h e = let here : p ≡ 0xD0100000 = jumping_top p h e in inl (rw here jumping_start)

rsx_process_fifo-Returns_example :
    (t : Rsx) × (rsx_process_fifo (suc 0x100000) jumping 0x10 (rsx_start true) ≡ returned t)
    × (t.get_ea ≡ 0x10)
unfolding rsx_start
rsx_process_fifo-Returns_example =
    rsx_process_fifo-Returns 0x100000 jumping 0x10 (rsx_start true) jumping_forward (omega arith)

-- A write of 0 to the first list head.
abbrev machine : Machine
machine = record { mem = jumping; rsx = rsx_start true }

vm_write32-ReturnsKept_example : ReturnsKept (vm_write32 (suc 0x100000) 0x27F81C 0 machine)
unfolding rsx_start vm_read32
vm_write32-ReturnsKept_example =
    vm_write32-ReturnsKept 0x100000 0x27F81C 0 machine jumping_forward (omega arith) refl
      (omega arith)
      (
        λ e. absurd (omega (arith, e)),
        λ e. absurd (omega (arith, e)),
        λ e. absurd (omega (arith, e)),
      )

-- A jump to where it stands.
abbrev spinning : Memory
spinning a = if a == 0xD0100000 then 0x20 else 0

spinning_jumps : JumpsToItself spinning 0xD0100000
unfolding vm_read32
spinning_jumps = (refl, refl, omega arith, omega arith)

rsx_process_fifo_endless_example : rsx_process_fifo 1000 spinning 4 (rsx_start true) ≡ unending
unfolding rsx_start
rsx_process_fifo_endless_example =
    rsx_process_fifo_endless 1000 spinning 4 (rsx_start true) spinning_jumps (omega arith)

morton2d_lem_example : morton2d 3 5 ≡ interleave 12 3 5
morton2d_lem_example = morton2d_lem 3 5 (omega arith) (omega arith)

morton2d_square_example :
    (morton2d 3 5 < 2 ^ 6 * 2 ^ 6) × (evens 12 (morton2d 3 5) ≡ 3) × (odds 12 (morton2d 3 5) ≡ 5)
morton2d_square_example = morton2d_square 6 3 5 (omega arith) (omega arith) (omega arith)

-- 64 by 128 pixels of A8R8G8B8, swizzled
abbrev tall : Texture
tall = record { gcm_off = 0x18; fmt_byte = 0x85; tex_w = 64; tex_h = 128 }

source_index_tall_example : pixel_count tall ≤ source_index tall 0 (128 / 2)
source_index_tall_example = source_index_tall tall 6 7 (omega arith) (omega arith) refl refl refl
