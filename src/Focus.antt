-- ===== src/Focus.antt =====
-- src/focus_region.cpp: the block of the frame over which the focus figure of merit is averaged.
-- std::max(2, (dim / grid_size) & ~1)
use cherupi_v4l.Base.{
  arith, if◌then◌else◌, ltb, ℕ, ◌%◌, ◌*◌, ◌+◌, ◌-◌, ◌/◌, ◌<◌, ◌==◌, ◌^◌, ◌||◌, ◌≤◌,
}

unfoldable pub cell_size : ℕ → ℕ → ℕ
cell_size dim grid_size =
    let even = (dim / grid_size) - (dim / grid_size) % 2 in if ltb even 2 then 2 else even

abbrev pub u32 : ℕ → ℕ
u32 n = n % 2 ^ 32

unfoldable pub scale_edge : ℕ → ℕ → ℕ → ℕ
scale_edge v src dst = u32 ((v * dst + src / 2) / src)

-- scaleSpan: the begin and the size, a difference of two uint32_t.
unfoldable pub scale_span : ℕ → ℕ → ℕ → ℕ → ℕ × ℕ
scale_span first last src dst =
    if (src == dst) || (src == 0) then (first, u32 (last + 2 ^ 32 - first)) else (
      scale_edge first src dst,
      u32 (scale_edge last src dst + 2 ^ 32 - scale_edge first src dst),
    )

pub record Rect : Type 0 where
  pub x : ℕ
  pub y : ℕ
  pub rect_width : ℕ
  pub rect_height : ℕ

pub record Region : Type 0 where
  pub grid_size : ℕ
  pub first_row : ℕ
  pub num_rows : ℕ
  pub first_col : ℕ
  pub num_cols : ℕ
  pub frame_width : ℕ
  pub frame_height : ℕ
  pub sensor : Rect
  pub in_frame : Rect  -- the field `frame`

unfoldable pub fom_region : ℕ → ℕ → ℕ → ℕ → ℕ → Region
fom_region mode_width mode_height frame_w frame_h grid =
    let first_row = grid / 3 in
    let num_rows = grid - 2 * first_row in
    let first_col = grid / 4 in
    let num_cols = grid - 2 * first_col in
    let cell_w = cell_size mode_width grid in
    let cell_h = cell_size mode_height grid in
    let x = u32 (first_col * cell_w) in
    let y = u32 (first_row * cell_h) in
    let w = u32 (num_cols * cell_w) in
    let h = u32 (num_rows * cell_h) in
    let columns = scale_span x (u32 (x + w)) mode_width frame_w in
    let rows = scale_span y (u32 (y + h)) mode_height frame_h in
    record {
      grid_size = grid;
      first_row = first_row;
      num_rows = num_rows;
      first_col = first_col;
      num_cols = num_cols;
      frame_width = frame_w;
      frame_height = frame_h;
      sensor = record { x = x; y = y; rect_width = w; rect_height = h };
      in_frame = record { x = columns.0; y = rows.0; rect_width = columns.1; rect_height = rows.1 };
    }

cell_size-grid : (dim grid : ℕ) → 2 * grid ≤ dim → 0 < grid → grid * cell_size dim grid ≤ dim
unfolding cell_size
cell_size-grid dim grid h pos = grind arith

scale_edge-le : (v src dst : ℕ) → dst < 2 ^ 32 → v ≤ src → 0 < src → scale_edge v src dst ≤ dst
unfolding scale_edge
scale_edge-le v src dst small h pos = grind arith

scaled-le : (v src dst : ℕ) → v ≤ src → 0 < src → (v * dst + src / 2) / src ≤ dst
scaled-le v src dst h pos = grind arith

product_mono : (v w n : ℕ) → v ≤ w → v * n ≤ w * n
product_mono v w n h = grind arith

quotient_mono : (m n k : ℕ) → m ≤ n → 0 < k → m / k ≤ n / k
quotient_mono m n k h pos = grind arith

scale_edge_mono :
    (v w src dst : ℕ)
    → dst < 2 ^ 32
    → v ≤ w
    → w ≤ src
    → 0 < src
    → scale_edge v src dst ≤ scale_edge w src dst
unfolding scale_edge
scale_edge_mono v w src dst small le h pos =
    let a : ℕ = v * dst + src / 2 in
    let b : ℕ = w * dst + src / 2 in
    let product = product_mono v w dst le in
    let quotient : a / src ≤ b / src = quotient_mono a b src (omega (arith, product)) pos in
    omega (arith, quotient, scaled-le w src dst h pos)

-- A span inside the mode's axis is mapped to a span inside the frame's axis.
scale_span-fits :
    (first last src dst : ℕ)
    → dst < 2 ^ 32
    → first ≤ last
    → last ≤ src
    → 0 < src
    → (scale_span first last src dst).0 + (scale_span first last src dst).1 ≤ dst
unfolding scale_span
scale_span-fits first last src dst small le h pos = ground (
  arith,
  scale_edge-le last src dst small h pos,
  scale_edge_mono first last src dst small le h pos,
)

axis-fits :
    (dim frame first count grid : ℕ)
    → 0 < grid
    → 2 * grid ≤ dim
    → dim < 2 ^ 32
    → frame < 2 ^ 32
    → first + count ≤ grid
    → let begin = u32 (first * cell_size dim grid) in
      let size = u32 (count * cell_size dim grid) in
      let span = scale_span begin (u32 (begin + size)) dim frame in
      (begin + size ≤ dim) × (span.0 + span.1 ≤ frame)
axis-fits dim frame first count grid pos wide small smaller h =
    let c : ℕ = cell_size dim grid in
    let cells = cell_size-grid dim grid wide pos in
    let both : first * c + count * c ≤ grid * c =
      omega (arith, product_mono (first + count) grid c h) in
    let inside : u32 (first * c) + u32 (count * c) ≤ dim = omega (arith, cells, both) in
    (
      inside,
      scale_span-fits (u32 (first * c)) (u32 (u32 (first * c) + u32 (count * c))) dim frame smaller
          (omega (arith, inside)) (omega (arith, inside)) (omega arith),
    )

-- With a mode of at least twice the grid's size and a frame, each below 2^32, the reported region
-- lies inside the mode and inside the frame.
pub fom_region-fits :
    (mode_w mode_h frame_w frame_h grid : ℕ)
    → 0 < grid
    → 2 * grid ≤ mode_w
    → 2 * grid ≤ mode_h
    → mode_w < 2 ^ 32
    → mode_h < 2 ^ 32
    → frame_w < 2 ^ 32
    → frame_h < 2 ^ 32
    → let r = fom_region mode_w mode_h frame_w frame_h grid in
      (r.sensor.x + r.sensor.rect_width ≤ mode_w)
      × (r.sensor.y + r.sensor.rect_height ≤ mode_h)
      × (r.in_frame.x + r.in_frame.rect_width ≤ frame_w)
      × (r.in_frame.y + r.in_frame.rect_height ≤ frame_h)
unfolding fom_region
fom_region-fits mode_w mode_h frame_w frame_h grid pos wide high wm hm wf hf =
    let columns =
      axis-fits mode_w frame_w (grid / 4) (grid - 2 * (grid / 4)) grid pos wide wm wf
        (omega arith) in
    let rows =
      axis-fits mode_h frame_h (grid / 3) (grid - 2 * (grid / 3)) grid pos high hm hf
        (omega arith) in
    (columns.0, rows.0, columns.1, rows.1)
