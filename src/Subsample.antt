-- ===== src/Subsample.antt =====
-- src/frame_subsample.cpp: the geometry and the planes of a subsampled YUV420 frame. A plane is its
-- rows, each a list of samples without the padding of the stride.
use cherupi_v4l.Base.{
  List, [], ap, ap₂, arith, drop, false, get_or, if◌then◌else◌, leb, length, length-append, ltb,
  refl, subst, suc, sym, zero, ℕ, ◌%◌, ◌*◌, ◌++◌, ◌+◌, ◌-◌, ◌/◌, ◌<◌, ◌==◌, ◌||◌, ◌∙◌, ◌∷◌, ◌≡◌,
  ◌≤◌,
}
use cherupi_v4l.Types.{CornerSet, FrameData}
pub mod Pixels
pub mod Planes

pub record Geometry : Type 0 where
  pub out_width : ℕ
  pub out_height : ℕ

-- n & ~1
unfoldable pub even_below : ℕ → ℕ
even_below n = n - n % 2

unfoldable pub subsampled_geometry : ℕ → ℕ → ℕ → Geometry
subsampled_geometry width height factor =
    let f = if factor == 0 then 1 else factor in
    record { out_width = even_below (width / f); out_height = even_below (height / f) }

-- The sum of `n` bytes from `offset` on, each read at its offset.
unfoldable pub row_sum : List ℕ → ℕ → ℕ → ℕ
row_sum src offset zero = 0
row_sum src offset (suc n) = get_or src offset 0 + row_sum src (suc offset) n

-- The sum of the block's rows.
unfoldable pub block_sum : List ℕ → ℕ → ℕ → ℕ → ℕ → ℕ
block_sum src stride offset factor zero = 0
block_sum src stride offset factor (suc n) =
    row_sum src offset factor + block_sum src stride (offset + stride) factor n

unfoldable pub decimated_byte : List ℕ → ℕ → ℕ → ℕ → ℕ → ℕ
decimated_byte src stride factor oy ox =
    let norm = factor * factor in
    (block_sum src stride (oy * factor * stride + ox * factor) factor factor + norm / 2)
    / norm
    % 256

unfoldable pub decimated_row : List ℕ → ℕ → ℕ → ℕ → ℕ → ℕ → List ℕ
decimated_row src stride factor oy ox zero = []
decimated_row src stride factor oy ox (suc n) =
    decimated_byte src stride factor oy ox ∷ decimated_row src stride factor oy (suc ox) n

unfoldable pub decimated_rows : List ℕ → ℕ → ℕ → ℕ → ℕ → ℕ → List ℕ
decimated_rows src stride factor width oy zero = []
decimated_rows src stride factor width oy (suc n) =
    decimated_row src stride factor oy 0 width ++ decimated_rows src stride factor width (suc oy) n

unfoldable pub decimate_plane : List ℕ → ℕ → ℕ → ℕ → ℕ → List ℕ
decimate_plane src stride factor dst_w dst_h = decimated_rows src stride factor dst_w 0 dst_h

unfoldable pub needed_bytes : FrameData → ℕ
needed_bytes src = src.bytes_per_line * src.height + 2 * (src.bytes_per_line / 2) * (src.height / 2)

-- The planes Y, U and V of the result, or nothing where there is nothing sensible to decimate.
unfoldable pub subsampled_planes : FrameData → ℕ → Geometry → List ℕ
subsampled_planes src factor g =
    let uv_stride = src.bytes_per_line / 2 in
    let sy = src.bytes in
    let su = drop (src.bytes_per_line * src.height) sy in
    let sv = drop (uv_stride * (src.height / 2)) su in
    let uv_w = g.out_width / 2 in
    let uv_h = g.out_height / 2 in
    if (g.out_width == 0) || (g.out_height == 0) || ltb (length src.bytes) (needed_bytes src)
    then []
    else decimate_plane sy src.bytes_per_line factor g.out_width g.out_height
      ++ decimate_plane su uv_stride factor uv_w uv_h
      ++ decimate_plane sv uv_stride factor uv_w uv_h

unfoldable pub subsample_yuv420 : FrameData → ℕ → FrameData
subsample_yuv420 src factor =
    let g = subsampled_geometry src.width src.height factor in
    if leb factor 1 then src else record src {
      width = g.out_width;
      height = g.out_height;
      bytes_per_line = g.out_width;
      bytes = subsampled_planes src factor g;
    }

abbrev scaled_points : {D : Type 0} → (D → D) → List (D × D) → List (D × D)
scaled_points f [] = []
scaled_points f ((x, y) ∷ ps) = (f x, f y) ∷ scaled_points f ps

abbrev scaled_sets : {D : Type 0} → (D → D) → List (CornerSet D) → List (CornerSet D)
scaled_sets f [] = []
scaled_sets f (s ∷ sets) = record s { corners = scaled_points f s.corners } ∷ scaled_sets f sets

-- scaleCornerSets, where `scaled factor` multiplies a coordinate by the inverse of the factor.
unfoldable pub scale_corner_sets :
    {D : Type 0} → (ℕ → D → D) → List (CornerSet D) → ℕ → List (CornerSet D)
scale_corner_sets scaled sets factor =
    if leb factor 1 then sets else scaled_sets (scaled factor) sets

pub length-decimated_row :
    (src : List ℕ) (stride factor oy ox n : ℕ)
    → length (decimated_row src stride factor oy ox n) ≡ n
unfolding decimated_row
length-decimated_row src stride factor oy ox zero = refl
length-decimated_row src stride factor oy ox (suc n) =
    ap suc (length-decimated_row src stride factor oy (suc ox) n)

length-decimated_rows :
    (src : List ℕ) (stride factor width oy n : ℕ)
    → length (decimated_rows src stride factor width oy n) ≡ n * width
unfolding decimated_rows
length-decimated_rows src stride factor width oy zero = omega arith
length-decimated_rows src stride factor width oy (suc n) =
    length-append (decimated_row src stride factor oy 0 width)
      (decimated_rows src stride factor width (suc oy) n)
    ∙ ap₂ (λ a b. a + b) (length-decimated_row src stride factor oy 0 width)
        (length-decimated_rows src stride factor width (suc oy) n)
    ∙ (omega arith)

pub length-decimate_plane :
    (src : List ℕ) (stride factor w h : ℕ) → length (decimate_plane src stride factor w h) ≡ h * w
unfolding decimate_plane
length-decimate_plane src stride factor w h = length-decimated_rows src stride factor w 0 h

even_below-fits : (n f : ℕ) → 0 < f → (even_below (n / f) % 2 ≡ 0) × (even_below (n / f) * f ≤ n)
unfolding even_below
even_below-fits n f h = (omega arith, grind arith)

-- For a positive factor, the size of a subsampled frame is even in both directions, and each of its
-- samples is averaged over a block inside the source.
pub subsampled_geometry-fits :
    (width height factor : ℕ)
    → 0 < factor
    → let g = subsampled_geometry width height factor in
      (g.out_width % 2 ≡ 0)
      × (g.out_height % 2 ≡ 0)
      × (g.out_width * factor ≤ width)
      × (g.out_height * factor ≤ height)
unfolding subsampled_geometry
subsampled_geometry-fits width height factor h =
    let divisor : (if factor == 0 then 1 else factor) ≡ factor = ground arith in
    let fits : (n : ℕ)
        → (even_below (n / (if factor == 0 then 1 else factor)) % 2 ≡ 0)
          × (even_below (n / (if factor == 0 then 1 else factor)) * factor ≤ n) =
      subst (λ (f : ℕ). (n : ℕ) → (even_below (n / f) % 2 ≡ 0) × (even_below (n / f) * factor ≤ n))
        (sym divisor) (λ n. even_below-fits n factor h) in
    ((fits width).0, (fits height).0, (fits width).1, (fits height).1)

pub length-subsampled_planes :
    (src : FrameData) (factor : ℕ) (g : Geometry)
    → needed_bytes src ≤ length src.bytes
    → 0 < g.out_width
    → 0 < g.out_height
    → length (subsampled_planes src factor g)
      ≡ g.out_height * g.out_width
        + g.out_height / 2 * (g.out_width / 2)
        + g.out_height / 2 * (g.out_width / 2)
unfolding subsampled_planes
length-subsampled_planes src factor g enough wide high =
    let uv_stride : ℕ = src.bytes_per_line / 2 in
    let su : List ℕ = drop (src.bytes_per_line * src.height) src.bytes in
    let sv : List ℕ = drop (uv_stride * (src.height / 2)) su in
    let y : List ℕ = decimate_plane src.bytes src.bytes_per_line factor g.out_width g.out_height in
    let u : List ℕ = decimate_plane su uv_stride factor (g.out_width / 2) (g.out_height / 2) in
    let v : List ℕ = decimate_plane sv uv_stride factor (g.out_width / 2) (g.out_height / 2) in
    let kept : ((g.out_width == 0)
          || (g.out_height == 0)
          || ltb (length src.bytes) (needed_bytes src))
        ≡ false =
      ground arith in
    let planes =
      length-append (y ++ u) v
      ∙ ap₂ (λ m n. m + n)
          (length-append y u
            ∙ ap₂ (λ m n. m + n)
                (length-decimate_plane src.bytes src.bytes_per_line factor g.out_width g.out_height)
                (length-decimate_plane su uv_stride factor (g.out_width / 2) (g.out_height / 2)))
          (length-decimate_plane sv uv_stride factor (g.out_width / 2) (g.out_height / 2)) in
    ap (λ b. length (if b then [] else y ++ u ++ v)) kept ∙ planes
