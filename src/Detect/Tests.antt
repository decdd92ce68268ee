-- ===== src/Detect/Tests.antt =====
-- The detection at concrete frames. A float is a natural number.
use cherupi_v4l.Base.{
  List, [], arith, false, get_or, leb, refl, some, ℕ, ◌*◌, ◌++◌, ◌+◌, ◌∙◌, ◌∷◌, ◌≡◌,
}
use cherupi_v4l.Base.Int.{pos}
use cherupi_v4l.Command.Config.{ProcessConfig, default_config}
use cherupi_v4l.Detect.Luma.{add_byte, extract_y, half_row, half_rows, joined_rows, plane_size}
use cherupi_v4l.Detect.Pipelines.{detect_aruco2x2, detect_checkerboard2x2}
use cherupi_v4l.Detect.Plane.{IsPlane, extract_y-IsPlane}
use cherupi_v4l.Detect.Quadrants.{Finishes, detect2x2-one_by_one}
use cherupi_v4l.Detect.Rows.{source_byte}
use cherupi_v4l.Detect.Slots.{covers}
use cherupi_v4l.Detect.Views.{Floats, Vision}
use cherupi_v4l.Types.{FrameData, checkerboard2x2}

-- Four columns in rows of five bytes, and four rows.
abbrev frame : FrameData
frame = record {
  bytes = 1 ∷ 2 ∷ 3 ∷ 4 ∷ 0 ∷ 5 ∷ 6 ∷ 7 ∷ 8 ∷ 0 ∷ 9 ∷ 10 ∷ 11 ∷ 12 ∷ 0 ∷ 13 ∷ 14 ∷ 15 ∷ 16 ∷ 0 ∷ [];
  frame_id = 0;
  camera_id = 0;
  width = 4;
  height = 4;
  bytes_per_line = 5;
  pixel_format = 0;
  timestamp_us = 0;
  frame_duration_us = 0;
  lens_position = 0;
  af_state = 0;
  focus_fom = 0;
}

extract_y-IsPlane_example :
    IsPlane
      (plane_size false 4)
      (plane_size false 4)
      (source_byte frame false)
      (extract_y frame false)
extract_y-IsPlane_example =
    extract_y-IsPlane frame false (omega arith) (omega arith) (omega arith) (omega arith)

half_plane : extract_y frame false ≡ some (1 ∷ 3 ∷ 9 ∷ 11 ∷ [])
unfolding extract_y half_rows half_row add_byte joined_rows
half_plane = refl

abbrev natural : Floats ℕ
natural = record { add = λ a b. a + b; mul = λ a b. a * b; of_nat = λ n. n }

-- A board is seen where the first pixel is odd, and a marker for each odd first pixel.
abbrev sharp_eyes : Vision ℕ
sharp_eyes = record {
  find_board = λ v. (leb (get_or v.pixels 0 0) 5, (1, 1) ∷ []);
  find_markers = λ v. (get_or v.pixels 0 0 ∷ [], ((1, 2) ∷ []) ∷ []);
}

abbrev config : ProcessConfig ℕ
config = record (default_config 1 checkerboard2x2) {
  checkerboard_num_threads = pos 3;
  aruco_num_threads = pos 2;
}

-- The jobs of a batch are done last one first.
abbrev last_first : List ℕ → List ℕ
last_first [] = []
last_first (i ∷ is) = last_first is ++ i ∷ []

covers-append : (k i : ℕ) (is : List ℕ) → covers k (is ++ i ∷ []) ≡ covers k (i ∷ is)
covers-append k i [] = refl
covers-append k i (j ∷ is) = ground (arith, covers-append k i is)

last_first-Finishes : Finishes last_first
last_first-Finishes [] k = refl
last_first-Finishes (i ∷ is) k =
    covers-append k i (last_first is) ∙ ground (arith, last_first-Finishes is k)

detect2x2-one_by_one_example :
    (detect_checkerboard2x2 natural sharp_eyes config last_first frame
      ≡ detect_checkerboard2x2 natural sharp_eyes
          (record config { checkerboard_num_threads = pos 1 })
          (λ b. b)
          frame)
    × (detect_aruco2x2 natural sharp_eyes config (λ v q. q) last_first frame
        ≡ detect_aruco2x2 natural sharp_eyes
            (record config { aruco_num_threads = pos 1 })
            (λ v q. q)
            (λ b. b)
            frame)
detect2x2-one_by_one_example =
    detect2x2-one_by_one natural sharp_eyes config (λ v q. q) last_first frame last_first-Finishes
