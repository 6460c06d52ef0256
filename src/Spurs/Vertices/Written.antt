-- ===== src/Spurs/Vertices/Written.antt =====
-- spu_spurs.cpp: where the vertices and the stream descriptor are written.
use dbz_budokai_hd.Common.{
  ℕ, zero, suc, Bool, true, false, ◌+◌, ◌*◌, ◌^◌, ◌≤◌, ◌<◌, ◌==◌, ◌||◌, leb, ltb, arith, Bool-cases,
  inl, inr, List, [], ◌∷◌, Memory, memset, for_range, if_keeps, if_split,
}
use dbz_budokai_hd.Common.Words.{u8, u32, low_bits}
use dbz_budokai_hd.Spu.Invariant.Blocks.{for_range_keeps}
use dbz_budokai_hd.Spurs.State.{put_bytes, put_be32}
use dbz_budokai_hd.Spurs.Within.{
  Within, Within-refl, Within-trans, put_bytes-Within, put_be32-Within, memset-Within,
  for_range-Within,
}
use dbz_budokai_hd.Spurs.Vertices.{
  Corner, c00, c10, c01, c11, Sphere, Mesh, one, put_vertex, vtxbuf_ea, be_fv, be_fvs, corners,
  edge_sphere, src_ea, quadruple, fill_descriptor, fill_streams, max_verts, tick_ea, add_vert,
  add_verts, tick_cell, tick_columns, tick_rows, spurs_render_sphere_tick,
}

put_vertex-Within :
    {lo hi : ℕ} (m : Memory) (q : ℕ) (p : ℕ × ℕ × ℕ)
    → lo ≤ q
    → q + 16 ≤ hi
    → Within lo hi m (put_vertex m q p)
unfolding put_vertex
put_vertex-Within m q (x, y, z) from below =
    let first = put_be32-Within m q x from (omega arith) in
    let second = put_be32-Within (put_be32 m q x) (q + 4) y (omega arith) (omega arith) in
    let third =
      put_be32-Within (put_be32 (put_be32 m q x) (q + 4) y) (q + 8) z (omega arith) (omega arith) in
    let last =
      put_be32-Within (put_be32 (put_be32 (put_be32 m q x) (q + 4) y) (q + 8) z) (q + 12) one
        (omega arith) (omega arith) in
    Within-trans first (Within-trans second (Within-trans third last))

-- The region of the streams: the descriptor and the vertices.
abbrev pub IsStream : Memory → Memory → Type 0
IsStream = Within 0x70C000 0x714000

be_fv-IsStream : (p : ℕ × ℕ × ℕ) (w : Mesh) → IsStream w.mem (be_fv p w).mem
unfolding be_fv
be_fv-IsStream p w =
    if_split (λ (v : Mesh). IsStream w.mem v.mem) (ltb 0x4000 (w.count * 16 + 16))
      (λ full. Within-refl w.mem)
      (λ room. put_vertex-Within w.mem (vtxbuf_ea + w.count * 16) p (omega arith) (ground arith))

be_fvs-IsStream :
    (at : Corner → ℕ × ℕ × ℕ) (ks : List Corner) (w : Mesh) → IsStream w.mem (be_fvs at ks w).mem
be_fvs-IsStream at [] w = Within-refl w.mem
be_fvs-IsStream at (k ∷ ks) w =
    Within-trans (be_fv-IsStream (at k) w) (be_fvs-IsStream at ks (be_fv (at k) w))

edge_sphere-IsStream :
    (sphere : Sphere) (frame : ℕ) (w : Mesh) → IsStream w.mem (edge_sphere sphere frame w).mem
unfolding edge_sphere
edge_sphere-IsStream sphere frame w =
    let cell : ℕ → ℕ → Mesh → Mesh = λ i j. be_fvs (sphere frame i j) (corners 12 i) in
    for_range_keeps (λ (v : Mesh). IsStream w.mem v.mem) (λ i. for_range 12 0 (cell i))
      (λ i v a. Within-trans a (
        for_range_keeps (λ (u : Mesh). IsStream v.mem u.mem) (cell i)
          (λ j u b. Within-trans b (be_fvs-IsStream (sphere frame i j) (corners 12 i) u)) 12 0 v
          (Within-refl v.mem)))
      12 0 w (Within-refl w.mem)

quadruple-IsStream : (k b : ℕ) (m : Memory) → b < 2 ^ 8 → k < 16 → IsStream m (quadruple k b m)
quadruple-IsStream k b m small low =
    put_bytes-Within m (src_ea + k * 4) (b ∷ b ∷ b ∷ b ∷ []) (omega arith) (omega arith)
      (omega arith)

fill_descriptor-IsStream : (m : Memory) → IsStream m (fill_descriptor m)
unfolding fill_descriptor
fill_descriptor-IsStream m =
    let cleared = memset m src_ea 0 0x4000 in
    let field : ℕ → Memory → Memory = λ f. quadruple f (u8 (0x30 + f)) in
    let filler : ℕ → Memory → Memory = λ k. quadruple k (u8 (0x30 + low_bits 2 k)) in
    let fields = for_range 4 0 field cleared in
    let rest = for_range 12 4 filler fields in
    let flag = put_bytes rest (src_ea + 0x63) (0x20 ∷ []) in
    let first : IsStream m cleared =
      memset-Within m src_ea 0 0x4000 (omega arith) (omega arith) (omega arith) in
    let second : IsStream cleared fields =
      for_range-Within field 4 0 cleared
        (λ j k p q. quadruple-IsStream j (u8 (0x30 + j)) k (omega arith) (omega arith)) in
    let third : IsStream fields rest =
      for_range-Within filler 12 4 fields (λ j k p q.
        quadruple-IsStream j (u8 (0x30 + low_bits 2 j)) k (omega arith) (omega arith)) in
    let fourth : IsStream rest flag =
      put_bytes-Within rest (src_ea + 0x63) (0x20 ∷ []) (omega arith) (omega arith) (omega arith) in
    let last : IsStream flag (put_be32 flag (src_ea + 0x3144) vtxbuf_ea) =
      put_be32-Within flag (src_ea + 0x3144) vtxbuf_ea (omega arith) (omega arith) in
    Within-trans first (Within-trans second (Within-trans third (Within-trans fourth last)))

pub fill_streams-IsStream :
    (sphere : Sphere) (frame : ℕ) (m : Memory) → IsStream m (fill_streams sphere frame m)
unfolding fill_streams
fill_streams-IsStream sphere frame m =
    let cleared = memset (fill_descriptor m) vtxbuf_ea 0 0x4000 in
    Within-trans (fill_descriptor-IsStream m) (
      Within-trans
        (memset-Within (fill_descriptor m) vtxbuf_ea 0 0x4000 (omega arith) (omega arith)
          (omega arith))
        (edge_sphere-IsStream sphere frame (record { mem = cleared; count = 0 })))

-- The buffer of the render thread.
abbrev pub IsRendered : Memory → Memory → Type 0
IsRendered = Within 0xD0180000 0xD0184000

add_vert-IsRendered : (p : ℕ × ℕ × ℕ) (w : Mesh) → IsRendered w.mem (add_vert p w).mem
unfolding add_vert
add_vert-IsRendered p w =
    if_split (λ (v : Mesh). IsRendered w.mem v.mem) (leb max_verts w.count)
      (λ full. Within-refl w.mem)
      (λ room. put_vertex-Within w.mem (tick_ea + w.count * 16) p (omega arith) (ground arith))

add_verts-IsRendered :
    (at : Corner → ℕ × ℕ × ℕ) (ks : List Corner) (w : Mesh)
    → IsRendered w.mem (add_verts at ks w).mem
add_verts-IsRendered at [] w = Within-refl w.mem
add_verts-IsRendered at (k ∷ ks) w =
    Within-trans (add_vert-IsRendered (at k) w) (add_verts-IsRendered at ks (add_vert (at k) w))

tick_cell-IsRendered :
    (at : Corner → ℕ × ℕ × ℕ) (i : ℕ) (w : Mesh) → IsRendered w.mem (tick_cell at i w).mem
unfolding tick_cell
tick_cell-IsRendered at i w =
    let first = add_verts at (c00 ∷ c11 ∷ c10 ∷ []) w in
    let half = add_verts-IsRendered at (c00 ∷ c11 ∷ c10 ∷ []) w in
    if_keeps (λ (v : Mesh). IsRendered w.mem v.mem) (i == 0 || i == 13)
      (add_verts-IsRendered at (corners 14 i) w)
      (if_keeps (λ (v : Mesh). IsRendered w.mem v.mem) (leb (first.count + 3) max_verts)
        (Within-trans half (add_verts-IsRendered at (c00 ∷ c01 ∷ c11 ∷ []) first)) half)

tick_columns-IsRendered :
    (at : ℕ → Corner → ℕ × ℕ × ℕ) (i left j : ℕ) (w : Mesh)
    → IsRendered w.mem (tick_columns at i left j w).mem
unfolding tick_columns
tick_columns-IsRendered at i zero j w = Within-refl w.mem
tick_columns-IsRendered at i (suc left) j w = elim (Bool-cases (ltb (w.count + 3) max_verts)) [
  | inl on ↦
      rw (on, tick_columns)
        (Within-trans (tick_cell-IsRendered (at j) i w)
          (tick_columns-IsRendered at i left (j + 1) (tick_cell (at j) i w)))
  | inr off ↦ rw (off, tick_columns) (Within-refl w.mem)
]

tick_rows-IsRendered :
    (at : ℕ → ℕ → Corner → ℕ × ℕ × ℕ) (left i : ℕ) (w : Mesh)
    → IsRendered w.mem (tick_rows at left i w).mem
unfolding tick_rows
tick_rows-IsRendered at zero i w = Within-refl w.mem
tick_rows-IsRendered at (suc left) i w = elim (Bool-cases (ltb (w.count + 6) max_verts)) [
  | inl on ↦
      rw (on, tick_rows)
        (Within-trans (tick_columns-IsRendered (at i) i 14 0 w)
          (tick_rows-IsRendered at left (i + 1) (tick_columns (at i) i 14 0 w)))
  | inr off ↦ rw (off, tick_rows) (Within-refl w.mem)
]

pub tick_frame-IsRendered :
    (sphere : Sphere) (vm_base : Bool) (frame : ℕ) (m : Memory)
    → IsRendered m (spurs_render_sphere_tick sphere vm_base frame m).vm
unfolding spurs_render_sphere_tick
tick_frame-IsRendered sphere false frame m = Within-refl m
tick_frame-IsRendered sphere true frame m =
    tick_rows-IsRendered (sphere (u32 (frame + 1))) 14 0 (record { mem = m; count = 0 })
