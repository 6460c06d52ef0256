-- ===== src/Rsx/Handle.antt =====
-- runtime_glue.cpp: `rsx_handle`, one command with its argument.
use dbz_budokai_hd.Common.{
  ℕ, ◌&&◌, ◌+◌, ◌-◌, ◌*◌, ◌/◌, ◌^◌, ◌==◌, leb, ltb, not, if◌then◌else◌, ◌∷◌, update,
}
use dbz_budokai_hd.Common.Words.{u8, u32, add32, low_bits, ◌>>>◌}
use dbz_budokai_hd.Rsx.State.{clear, draw, Rsx, none_yet, rsx_io_to_ea}

-- RGBA to BGRA, as a word: the lowest byte of the argument becomes the highest.
abbrev pub bgra_of : ℕ → ℕ
bgra_of c = u8 c * 2 ^ 24 + u8 (c >>> 24) * 2 ^ 16 + u8 (c >>> 16) * 2 ^ 8 + u8 (c >>> 8)

-- NV4097_CLEAR_SURFACE; (arg & 0xF0) != 0 asks for the colour.
unfoldable pub clear_surface : ℕ → Rsx → Rsx
clear_surface arg s =
    if not (low_bits 4 (arg >>> 4) == 0) && s.framebuf
    then record s { frames = clear (bgra_of s.clr_color) ∷ s.frames }
    else s

-- The address of the first vertex of a batch.
abbrev pub vtx_ea : Rsx → ℕ
vtx_ea s = add32 (rsx_io_to_ea (s.vtx_io_offset 0)) (u32 (s.draw_vtx_start * 16))

abbrev pub reset_draw : Rsx → Rsx
reset_draw s = record s { draw_vtx_start = none_yet; draw_vtx_total = 0 }

-- NV4097_SET_BEGIN_END: the end of a batch draws what has been collected.
unfoldable pub begin_end : ℕ → Rsx → Rsx
begin_end arg s =
    if not (arg == 0)
    then reset_draw s
    else if leb 3 s.draw_vtx_total && not (s.vtx_io_offset 0 == 0)
    then reset_draw (record s { frames = draw (vtx_ea s) s.draw_vtx_total ∷ s.frames })
    else reset_draw s

-- NV4097_DRAW_ARRAYS
unfoldable pub draw_arrays : ℕ → Rsx → Rsx
draw_arrays arg s = record s {
  draw_vtx_start = if s.draw_vtx_start == none_yet then low_bits 24 arg else s.draw_vtx_start;
  draw_vtx_total = add32 s.draw_vtx_total (u8 (arg >>> 24) + 1);
}

-- The sixteen registers of offsets and of formats; any other method is only reported.
unfoldable pub vertex_array : ℕ → ℕ → Rsx → Rsx
vertex_array m arg s =
    if leb 0x1680 m && ltb m 0x16C0
    then record s { vtx_io_offset = update s.vtx_io_offset ((m - 0x1680) / 4) arg }
    else if leb 0x1740 m && ltb m 0x1780
    then record s { vtx_format = update s.vtx_format ((m - 0x1740) / 4) arg }
    else s

unfoldable pub rsx_handle : ℕ → ℕ → Rsx → Rsx
unfolding clear_surface begin_end draw_arrays vertex_array
rsx_handle method arg s =
    let m = low_bits 16 method in
    if m == 0x1820
    then record s { clr_color = arg }
    else if m == 0x0200
    then record s { surf_ea = add32 0xD0000000 arg }
    else if m == 0x1D94
    then clear_surface arg s
    else if m == 0x17FC
    then begin_end arg s
    else if m == 0x1808
    then draw_arrays arg s
    else vertex_array m arg s
