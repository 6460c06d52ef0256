-- ===== src/Spurs/Vertices/Count.antt =====
-- spu_spurs.cpp: how many vertices the two spheres have, and where they stay.
use dbz_budokai_hd.Common.{ℕ, true, false, ◌+◌, ◌<◌, ◌≤◌, ◌≡◌, ◌⊎◌, refl, some, none, Memory}
use dbz_budokai_hd.Common.Words.{u32}
use dbz_budokai_hd.Spurs.Vertices.{
  Sphere, edge_sphere, spurs_render_sphere_tick, fill_streams, vtx_count,
}
use dbz_budokai_hd.Spurs.Vertices.Written.{fill_streams-IsStream, tick_frame-IsRendered}

module _ (sphere : Sphere) (frame : ℕ) (m : Memory) where
  -- Whatever the coordinates, the sphere of a dispatch has the number of vertices that
  -- `rsx_process_edge` draws, and with the stream descriptor it leaves every byte of the main memory
  -- below 0x70C000 and from 0x714000 on as it was.
  pub fill_streams_lem :
      ((edge_sphere sphere frame (record { mem = m; count = 0 })).count ≡ vtx_count)
      × ((a : ℕ) → (a < 0x70C000) ⊎ (0x714000 ≤ a) → fill_streams sphere frame m a ≡ m a)
  unfolding edge_sphere
  fill_streams_lem = (refl, (fill_streams-IsStream sphere frame m).outside)

  -- Whatever the coordinates, a frame of the render thread with a main memory counts the frame,
  -- draws 1023 vertices, and leaves every byte of the main memory below 0xD0180000 and from
  -- 0xD0184000 on as it was; without a main memory it draws nothing and changes nothing.
  pub spurs_render_sphere_tick_lem :
      ((spurs_render_sphere_tick sphere true frame m).drawn ≡ some 1023)
      × ((spurs_render_sphere_tick sphere true frame m).frame ≡ u32 (frame + 1))
      × ((a : ℕ)
          → (a < 0xD0180000) ⊎ (0xD0184000 ≤ a)
          → (spurs_render_sphere_tick sphere true frame m).vm a ≡ m a)
      × (spurs_render_sphere_tick sphere false frame m
          ≡ record { vm = m; frame = frame; drawn = none })
  unfolding spurs_render_sphere_tick
  spurs_render_sphere_tick_lem =
      (refl, refl, (tick_frame-IsRendered sphere true frame m).outside, refl)
