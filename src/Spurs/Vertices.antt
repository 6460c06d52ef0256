-- ===== src/Spurs/Vertices.antt =====
-- spu_spurs.cpp: the vertices of the sphere and the stream descriptor, as `spurs_run_workload` writes
-- them, and `spurs_render_sphere_tick`. The coordinates come from the host's `sinf` and `cosf` and from
-- its floating-point arithmetic, and are a parameter.
pub mod Count
pub mod Written
use dbz_budokai_hd.Common.{
  ℕ, zero, suc, Bool, true, false, not, ◌+◌, ◌-◌, ◌*◌, ◌/◌, ◌==◌, ◌||◌, leb, ltb, if◌then◌else◌,
  Option, some, none, List, [], ◌∷◌, Memory, memset, for_range,
}
use dbz_budokai_hd.Common.Words.{u8, u32, low_bits}
use dbz_budokai_hd.Spurs.State.{put_bytes, put_be32}

-- The points that a triangle of the sphere may have as a corner: the poles (0, R, 0) and (0, -R, 0),
-- and the points x00, x01, x10 and x11 of the cell in row i and column j.
pub data Corner : Type 0 where
  north : Corner
  south : Corner
  c00 : Corner
  c01 : Corner
  c10 : Corner
  c11 : Corner

-- The words of the coordinates rx, ry and rz of a corner, by frame, row and column.
abbrev pub Sphere : Type 0
Sphere = ℕ → ℕ → ℕ → Corner → ℕ × ℕ × ℕ

-- A buffer of the main memory that is being filled, with the vertices so far.
pub record Mesh : Type 0 where
  pub mem : Memory
  pub count : ℕ

-- 1.0f
abbrev pub one : ℕ
one = 0x3F800000

-- bef(q + 0, rx), bef(q + 4, ry), bef(q + 8, rz), bef(q + 12, 1.0f)
unfoldable pub put_vertex : Memory → ℕ → ℕ × ℕ × ℕ → Memory
unfolding put_be32
put_vertex m q (x, y, z) =
    put_be32 (put_be32 (put_be32 (put_be32 m q x) (q + 4) y) (q + 8) z) (q + 12) one

abbrev pub vtxbuf_ea : ℕ
vtxbuf_ea = 0x710000

unfoldable pub be_fv : ℕ × ℕ × ℕ → Mesh → Mesh
unfolding put_vertex
be_fv p w =
    if ltb 0x4000 (w.count * 16 + 16)
    then w
    else record { mem = put_vertex w.mem (vtxbuf_ea + w.count * 16) p; count = w.count + 1 }

abbrev pub be_fvs : (Corner → ℕ × ℕ × ℕ) → List Corner → Mesh → Mesh
be_fvs at [] w = w
be_fvs at (k ∷ ks) w = be_fvs at ks (be_fv (at k) w)

-- The corners of the cells of row i, of `rows` rows, in the order in which they are written.
abbrev pub corners : ℕ → ℕ → List Corner
corners rows i =
    if i == 0
    then north ∷ c11 ∷ c10 ∷ []
    else if i == rows - 1
    then south ∷ c00 ∷ c01 ∷ []
    else c00 ∷ c11 ∷ c10 ∷ c00 ∷ c01 ∷ c11 ∷ []

-- The two loops, of NLAT = 12 rows and NLON = 12 columns.
unfoldable pub edge_sphere : Sphere → ℕ → Mesh → Mesh
unfolding be_fv for_range
edge_sphere sphere frame w =
    for_range 12 0 (λ i. for_range 12 0 (λ j. be_fvs (sphere frame i j) (corners 12 i))) w

-- The number of vertices that `rsx_process_edge` has the rasteriser draw from 0x710000 on.
abbrev pub vtx_count : ℕ
vtx_count = 792

abbrev pub src_ea : ℕ
src_ea = 0x70C000

-- p[k*4 .. k*4+3] = b
abbrev pub quadruple : ℕ → ℕ → Memory → Memory
quadruple k b m = put_bytes m (src_ea + k * 4) (b ∷ b ∷ b ∷ b ∷ [])

unfoldable pub fill_descriptor : Memory → Memory
unfolding memset put_bytes put_be32 for_range
fill_descriptor m =
    let cleared = memset m src_ea 0 0x4000 in
    let fields = for_range 4 0 (λ f. quadruple f (u8 (0x30 + f))) cleared in
    let rest = for_range 12 4 (λ k. quadruple k (u8 (0x30 + low_bits 2 k))) fields in
    put_be32 (put_bytes rest (src_ea + 0x63) (0x20 ∷ [])) (src_ea + 0x3144) vtxbuf_ea

-- What a dispatch of slot 0 writes into the main memory; `frame` is counted up before.
unfoldable pub fill_streams : Sphere → ℕ → Memory → Memory
unfolding fill_descriptor memset edge_sphere
fill_streams sphere frame m =
    let cleared = memset (fill_descriptor m) vtxbuf_ea 0 0x4000 in
    (edge_sphere sphere frame (record { mem = cleared; count = 0 })).mem

abbrev pub max_verts : ℕ
max_verts = 0x400

abbrev pub tick_ea : ℕ
tick_ea = 0xD0180000

unfoldable pub add_vert : ℕ × ℕ × ℕ → Mesh → Mesh
unfolding put_vertex
add_vert p w =
    if leb max_verts w.count
    then w
    else record { mem = put_vertex w.mem (tick_ea + w.count * 16) p; count = w.count + 1 }

abbrev pub add_verts : (Corner → ℕ × ℕ × ℕ) → List Corner → Mesh → Mesh
add_verts at [] w = w
add_verts at (k ∷ ks) w = add_verts at ks (add_vert (at k) w)

-- One cell of row i, of 14 rows: its second triangle is left out where it has no room.
unfoldable pub tick_cell : (Corner → ℕ × ℕ × ℕ) → ℕ → Mesh → Mesh
unfolding add_vert
tick_cell at i w =
    if i == 0 || i == 13
    then add_verts at (corners 14 i) w
    else (let first = add_verts at (c00 ∷ c11 ∷ c10 ∷ []) w in
        if leb (first.count + 3) max_verts
        then add_verts at (c00 ∷ c01 ∷ c11 ∷ []) first
        else first)

-- for (; j < NLON && vcount + 3 < MAX_VERTS; j++)
unfoldable pub tick_columns : (ℕ → Corner → ℕ × ℕ × ℕ) → ℕ → ℕ → ℕ → Mesh → Mesh
unfolding tick_cell
tick_columns at i zero j w = w
tick_columns at i (suc left) j w = elim (ltb (w.count + 3) max_verts) [
  | true ↦ tick_columns at i left (j + 1) (tick_cell (at j) i w)
  | false ↦ w
]

-- for (; i < NLAT && vcount + 6 < MAX_VERTS; i++)
unfoldable pub tick_rows : (ℕ → ℕ → Corner → ℕ × ℕ × ℕ) → ℕ → ℕ → Mesh → Mesh
unfolding tick_columns
tick_rows at zero i w = w
tick_rows at (suc left) i w = elim (ltb (w.count + 6) max_verts) [
  | true ↦ tick_rows at left (i + 1) (tick_columns (at i) i 14 0 w)
  | false ↦ w
]

-- The vertices that `rsx_on_edge_write` goes on to draw from 0xD0180000 on, if it draws.
unfoldable pub rsx_on_edge_write : ℕ → ℕ → Option ℕ
rsx_on_edge_write put_end_ea ls_src =
    if leb put_end_ea tick_ea || ltb 0xD0200000 put_end_ea
    then none
    else if ls_src == 0xBC80
    then (let vtx_count = (put_end_ea - tick_ea) / 16 in
        if ltb vtx_count 3 then none else some vtx_count)
    else none

-- The main memory, the `static` frame number, and the number of vertices that are drawn, if any.
pub record Tick : Type 0 where
  pub vm : Memory
  pub frame : ℕ
  pub drawn : Option ℕ

-- The first argument is whether there is a main memory.
unfoldable pub spurs_render_sphere_tick : Sphere → Bool → ℕ → Memory → Tick
unfolding tick_rows rsx_on_edge_write
spurs_render_sphere_tick sphere vm_base frame m =
    if not vm_base
    then record { vm = m; frame = frame; drawn = none }
    else (let next = u32 (frame + 1) in
        let w = tick_rows (sphere next) 14 0 (record { mem = m; count = 0 }) in
        record {
          vm = w.mem;
          frame = next;
          drawn = if leb 3 w.count then rsx_on_edge_write (tick_ea + w.count * 16) 0xBC80 else none;
        })
