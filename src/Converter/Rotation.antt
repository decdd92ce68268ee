-- ===== src/Converter/Rotation.antt =====
-- The quadrants of a rotated frame (writeQuadrants of src/tools/yuv420_convert.cpp). `IsDocumented`
-- is what OpenCV says of Mat::operator()(Rect) and of rotate with ROTATE_180.
use cherupi_v4l.Base.{
  ap, ap₂, arith, if◌then◌else◌, leb, ltb, suc, sym, true, zero, ℕ, ◌%◌, ◌&&◌, ◌+◌, ◌-◌, ◌<◌, ◌∙◌,
  ◌≡◌, ◌≤◌,
}
use cherupi_v4l.Converter.Decode.{Config, OpenCv, Roi}
use cherupi_v4l.Converter.Quadrants.{quad_image, quad_rect}

-- `s` is where `r` comes to lie when the whole is turned.
pub record IsOpposite (cols rows : ℕ) (r s : Roi) : Type 0 where
  pub same_wide : s.wide ≡ r.wide
  pub same_high : s.high ≡ r.high
  pub across : s.x + r.x + r.wide ≡ cols
  pub along : s.y + r.y + r.high ≡ rows

IsOpposite-rect :
    (cols rows q : ℕ)
    → cols % 2 ≡ 0
    → rows % 2 ≡ 0
    → q < 4
    → IsOpposite cols rows (quad_rect cols rows q) (quad_rect cols rows (3 - q))
unfolding quad_rect
IsOpposite-rect cols rows zero e f h = ground arith
IsOpposite-rect cols rows (suc zero) e f h = ground arith
IsOpposite-rect cols rows (suc (suc zero)) e f h = ground arith
IsOpposite-rect cols rows (suc (suc (suc zero))) e f h = ground arith
IsOpposite-rect cols rows (suc (suc (suc (suc q)))) e f h = absurd (omega arith)

module _ {M P : Type 0} (cv : OpenCv M) (pixel : M → ℕ → ℕ → P) where
  pub record IsInside (r : Roi) (m : M) : Type 0 where
    pub right : r.x + r.wide ≤ cv.cols m
    pub bottom : r.y + r.high ≤ cv.rows m

  pub record IsDocumented : Type 0 where
    pub crop_rows : (r : Roi) (m : M) → IsInside r m → cv.rows (cv.crop r m) ≡ r.high
    pub crop_cols : (r : Roi) (m : M) → IsInside r m → cv.cols (cv.crop r m) ≡ r.wide
    pub crop_pixel :
        (r : Roi) (m : M) (i j : ℕ)
        → IsInside r m
        → i < r.high
        → j < r.wide
        → pixel (cv.crop r m) i j ≡ pixel m (r.y + i) (r.x + j)
    pub rotate_rows : (m : M) → cv.rows (cv.rotate m) ≡ cv.rows m
    pub rotate_cols : (m : M) → cv.cols (cv.rotate m) ≡ cv.cols m
    pub rotate_pixel :
        (m : M) (i j : ℕ)
        → i < cv.rows m
        → j < cv.cols m
        → pixel (cv.rotate m) i j ≡ pixel m (cv.rows m - 1 - i) (cv.cols m - 1 - j)

  pixel_at : (m : M) {i j k l : ℕ} → i ≡ k → j ≡ l → pixel m i j ≡ pixel m k l
  pixel_at m p q = ap₂ (pixel m) p q

  opposite_pixel :
      (d : IsDocumented) (m : M) (r s : Roi) (i j : ℕ)
      → IsOpposite (cv.cols m) (cv.rows m) r s
      → i < r.high
      → j < r.wide
      → pixel (cv.rotate (cv.crop r m)) i j ≡ pixel (cv.crop s (cv.rotate m)) i j
  opposite_pixel d m r s i j o hi hj =
      let part : M = cv.crop r m in
      let turned : M = cv.rotate m in
      let inside : IsInside r m = record { right = omega arith; bottom = omega arith } in
      let rows_part : cv.rows part ≡ r.high = d.crop_rows r m inside in
      let cols_part : cv.cols part ≡ r.wide = d.crop_cols r m inside in
      let rows_turned : cv.rows turned ≡ cv.rows m = d.rotate_rows m in
      let cols_turned : cv.cols turned ≡ cv.cols m = d.rotate_cols m in
      let within : IsInside s turned = record { right = omega arith; bottom = omega arith } in
      d.rotate_pixel part i j (omega arith) (omega arith)
      ∙ pixel_at part (omega arith) (omega arith)
      ∙ d.crop_pixel r m (r.high - 1 - i) (r.wide - 1 - j) inside (omega arith) (omega arith)
      ∙ pixel_at m (omega arith) (omega arith)
      ∙ sym (d.rotate_pixel m (s.y + i) (s.x + j) (omega arith) (omega arith))
      ∙ sym (d.crop_pixel s turned i j within (omega arith) (omega arith))

  -- For an even number of rows and columns, a quadrant that the tool rotates by itself has the size
  -- and the pixels of the opposite quadrant of the whole frame rotated, where OpenCV crops and
  -- rotates as documented.
  pub quad_image-rotated :
      (cfg : Config) (full : M) (q i j : ℕ)
      → IsDocumented
      → cfg.rotate180 ≡ true
      → cv.cols full % 2 ≡ 0
      → cv.rows full % 2 ≡ 0
      → q < 4
      → i < (quad_rect (cv.cols full) (cv.rows full) q).high
      → j < (quad_rect (cv.cols full) (cv.rows full) q).wide
      → let rect = quad_rect (cv.cols full) (cv.rows full) in
        ((rect (3 - q)).wide ≡ (rect q).wide)
        × ((rect (3 - q)).high ≡ (rect q).high)
        × (pixel (quad_image cv cfg full q) i j
            ≡ pixel (cv.crop (rect (3 - q)) (cv.rotate full)) i j)
  unfolding quad_image
  quad_image-rotated cfg full q i j d r e f h hi hj =
      let o = IsOpposite-rect (cv.cols full) (cv.rows full) q e f h in
      let rect : ℕ → Roi = quad_rect (cv.cols full) (cv.rows full) in
      (
        o.same_wide,
        o.same_high,
        ap (λ b. pixel (if b then cv.rotate (cv.crop (rect q) full) else cv.crop (rect q) full) i j)
              r
            ∙ opposite_pixel d full (rect q) (rect (3 - q)) i j o hi hj,
      )

-- The quadrants that hold the pixel of row `i` and column `j`.
abbrev holds : ℕ → ℕ → ℕ → ℕ → ℕ → ℕ
holds cols rows i j q =
    let r = quad_rect cols rows q in
    if (leb r.y i && ltb i (r.y + r.high)) && (leb r.x j && ltb j (r.x + r.wide)) then 1 else 0

-- Every pixel of a frame lies in exactly one of the four quadrants, odd sizes included.
pub quad_rect-tiles :
    (cols rows i j : ℕ)
    → i < rows
    → j < cols
    → holds cols rows i j 0 + holds cols rows i j 1 + holds cols rows i j 2 + holds cols rows i j 3
      ≡ 1
unfolding quad_rect
quad_rect-tiles cols rows i j h k = ground arith
