-- ===== src/Detect/Views.antt =====
-- The views that the detectors look at (src/frame_processor.cpp) and the detectors themselves
-- (src/checkerboard_detector.cpp and ArucoDetector::detect of src/aruco_detector.cpp). `F` is the
-- type of float, and the calls of OpenCV are parameters.
use cherupi_v4l.Base.{
  Bool, List, [], drop, false, if◌then◌else◌, map, true, ℕ, ◌%◌, ◌*◌, ◌+◌, ◌/◌, ◌∷◌,
}

-- The arithmetic on float.
pub record Floats (F : Type 0) : Type 0 where
  pub add : F → F → F
  pub mul : F → F → F
  pub of_nat : ℕ → F

unfoldable pub has_ids : List ℕ → Bool
has_ids [] = false
has_ids (i ∷ is) = true

-- A cv::Mat over bytes that it does not own: pixel (row, col) is at row * stride + col.
pub record View : Type 0 where
  pub pixels : List ℕ
  pub wide : ℕ
  pub high : ℕ
  pub stride : ℕ

pub record Marker (F : Type 0) : Type 0 where
  pub id : ℕ  -- an int as a bit pattern
  pub corners : List (F × F)

-- findChessboardCornersSB, and detectMarkers, which gives as many quads as ids.
pub record Vision (F : Type 0) : Type 0 where
  pub find_board : View → Bool × List (F × F)
  pub find_markers : View → List ℕ × List (List (F × F))

-- A stride of 0 stands for packed rows.
unfoldable pub whole_view : List ℕ → ℕ → ℕ → View
whole_view plane wide high = record { pixels = plane; wide = wide; high = high; stride = wide }

-- Quadrant `k` in row k / 2 and column k % 2, within rows of the whole width.
unfoldable pub quadrant_view : List ℕ → ℕ → ℕ → ℕ → View
quadrant_view plane full_width full_height k =
    let sub_w = full_width / 2 in
    let sub_h = full_height / 2 in
    record {
      pixels = drop (k / 2 * sub_h * full_width + k % 2 * sub_w) plane;
      wide = sub_w;
      high = sub_h;
      stride = full_width;
    }

module _ {F : Type 0} (vision : Vision F) where
  -- CheckerboardDetector::detect
  unfoldable pub detect_board : View → Bool × List (F × F)
  detect_board v =
      let (detected, corners) = vision.find_board v in (detected, if detected then corners else [])

module _ {F : Type 0} where
  unfoldable pub marked : List ℕ → List (List (F × F)) → List (Marker F)
  marked [] quads = []
  marked (i ∷ is) [] = []
  marked (i ∷ is) (q ∷ qs) = record { id = i; corners = q } ∷ marked is qs

module _ {F : Type 0} (vision : Vision F) (refine : View → List (F × F) → List (F × F)) where
  -- ArucoDetector::detect, where `refine` is refineCornersFromEdges.
  unfoldable pub detect_markers : Bool → View → Bool × List (Marker F)
  detect_markers edge_refine v =
      let (ids, quads) = vision.find_markers v in
      (has_ids ids, marked ids (if edge_refine then map (refine v) quads else quads))
