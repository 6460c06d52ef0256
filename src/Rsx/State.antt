-- ===== src/Rsx/State.antt =====
-- runtime_glue.cpp: the variables of the command processor.
use dbz_budokai_hd.Common.{ℕ, Bool, ◌^◌, ◌-◌, ltb, if◌then◌else◌, List, []}
use dbz_budokai_hd.Common.Words.{add32}

-- A picture that is shown: the frame buffer filled with one colour, or a background with the
-- triangles of `count` vertices from `ea` on. What is painted is not modelled.
pub data Frame : Type 0 where
  clear : ℕ → Frame
  draw : ℕ → ℕ → Frame

-- The `g_rsx_`, `g_vtx_` and `g_draw_` variables, whether there is a frame buffer, and the pictures,
-- the last one first.
pub record Rsx : Type 0 where
  pub get_ea : ℕ
  pub clr_color : ℕ
  pub surf_ea : ℕ
  pub vtx_io_offset : ℕ → ℕ
  pub vtx_format : ℕ → ℕ
  pub draw_vtx_start : ℕ
  pub draw_vtx_total : ℕ
  pub framebuf : Bool
  pub frames : List Frame

-- ~0u
abbrev pub none_yet : ℕ
none_yet = 2 ^ 32 - 1

unfoldable pub rsx_start : Bool → Rsx
rsx_start framebuf = record {
  get_ea = 0;
  clr_color = 0;
  surf_ea = 0;
  vtx_io_offset = λ i. 0;
  vtx_format = λ i. 0;
  draw_vtx_start = none_yet;
  draw_vtx_total = 0;
  framebuf = framebuf;
  frames = [];
}

-- An offset below 16 MB is one into the command buffer.
abbrev pub rsx_io_to_ea : ℕ → ℕ
rsx_io_to_ea io_off = if ltb io_off 0x1000000 then add32 0xD0100000 io_off else io_off
