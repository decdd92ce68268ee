-- ===== src/Detect/Quadrants.antt =====
-- The detection in quadrants (detectCheckerboard2x2 and detectAruco2x2 of src/frame_processor.cpp).
use mathlib.Core.Path.{fun_ext}
use cherupi_v4l.Base.{
  Bool, Bool-cases, List, [], ap, arith, false, get_or, get_or-drop, if◌then◌else◌, inl, inr,
  length, length-drop, refl, suc, sym, zero, ℕ, ◌%◌, ◌*◌, ◌+◌, ◌/◌, ◌<◌, ◌==◌, ◌||◌, ◌∙◌, ◌≡◌,
}
use cherupi_v4l.Command.Config.{ProcessConfig}
use cherupi_v4l.Detect.Pipelines.{
  board_of, collect_slots, detect_aruco2x2, detect_aruco2x2_on, detect_checkerboard2x2,
  detect_checkerboard2x2_on, markers_of, on_plane,
}
use cherupi_v4l.Detect.Views.{
  Floats, Marker, View, Vision, detect_board, detect_markers, quadrant_view,
}
use cherupi_v4l.Types.{CornerSet, FrameData}
use cherupi_v4l.Base.Int.{pos, ℤ}
use cherupi_v4l.Detect.Slots.{batches, covers, pool_size, run_jobs, run_jobs-eq}
use cherupi_v4l.Detect.Luma.{extract_y, plane_size}

row_of_quadrant : (k n r : ℕ) → k < 4 → r < n / 2 → k / 2 * (n / 2) + r < n
row_of_quadrant zero n r hk h = omega arith
row_of_quadrant (suc zero) n r hk h = omega arith
row_of_quadrant (suc (suc zero)) n r hk h = omega arith
row_of_quadrant (suc (suc (suc zero))) n r hk h = omega arith
row_of_quadrant (suc (suc (suc (suc k)))) n r hk h = absurd (omega arith)

column_of_quadrant : (k n c : ℕ) → c < n / 2 → k % 2 * (n / 2) + c < n
column_of_quadrant k n c h = elim (Bool-cases (k % 2 == 0)) [
  | inl e ↦ let even : k % 2 ≡ 0 = ground arith in omega (arith, ap (λ m. m * (n / 2)) even)
  | inr e ↦ let odd : k % 2 ≡ 1 = ground arith in omega (arith, ap (λ m. m * (n / 2)) odd)
]

index_below : (row col w h : ℕ) → row < h → col < w → row * w + col < h * w
index_below row col w h p q = grind arith

index_split : (a b w r c : ℕ) → a * w + b + (r * w + c) ≡ (a + r) * w + (b + c)
index_split a b w r c = grind arith

-- A quadrant lies within the plane: each of its pixels is the plane's pixel that far right and down,
-- and is read within the plane's bytes.
pub quadrant_view-fits :
    (plane : List ℕ) (full_width full_height k r c : ℕ)
    → length plane ≡ full_height * full_width
    → k < 4
    → r < full_height / 2
    → c < full_width / 2
    → let v = quadrant_view plane full_width full_height k in
      (r * v.stride + c < length v.pixels)
      × (get_or v.pixels (r * v.stride + c) 0
          ≡ get_or plane
              ((k / 2 * (full_height / 2) + r) * full_width + (k % 2 * (full_width / 2) + c))
              0)
      × (k / 2 * (full_height / 2) + r < full_height)
      × (k % 2 * (full_width / 2) + c < full_width)
unfolding quadrant_view
quadrant_view-fits plane full_width full_height k r c size hk hr hc =
    let row : ℕ = k / 2 * (full_height / 2) in
    let col : ℕ = k % 2 * (full_width / 2) in
    let row_below : row + r < full_height = row_of_quadrant k full_height r hk hr in
    let col_below : col + c < full_width = column_of_quadrant k full_width c hc in
    (
      omega (
        arith,
        length-drop (row * full_width + col) plane,
        index_split row col full_width r c,
        index_below (row + r) (col + c) full_width full_height row_below col_below,
      ),
      get_or-drop plane (row * full_width + col) (r * full_width + c) 0
          ∙ ap (λ i. get_or plane i 0) (index_split row col full_width r c),
      row_below,
      col_below,
    )

collect_slots-eq :
    {F R : Type 0} (sets_of : ℕ → R → List (CornerSet F)) (f g : ℕ → R)
    → ((k : ℕ) → k < 4 → f k ≡ g k)
    → collect_slots sets_of f ≡ collect_slots sets_of g
unfolding collect_slots
collect_slots-eq sets_of f g h =
    cc (h 0 (omega arith), h 1 (omega arith), h 2 (omega arith), h 3 (omega arith))

-- The order of finishing loses and adds no job.
abbrev pub Finishes : (List ℕ → List ℕ) → Type 0
Finishes finish = (b : List ℕ) (k : ℕ) → covers k (finish b) ≡ covers k b

run_jobs-same :
    {R : Type 0} (job : ℕ → R) (finish : List ℕ → List ℕ) (threads : ℤ) (results : ℕ → R) (k : ℕ)
    → Finishes finish
    → k < 4
    → run_jobs job finish (batches 4 (pool_size threads) 0) results k
      ≡ run_jobs job (λ b. b) (batches 4 (pool_size (pos 1)) 0) results k
run_jobs-same job finish threads results k h below =
    run_jobs-eq job finish threads results k (λ b. h b k) below
    ∙ sym (run_jobs-eq job (λ b. b) (pos 1) results k (λ b. refl) below)

module _ {F C : Type 0} (floats : Floats F) (vision : Vision F) (cfg : ProcessConfig C) where
  boards_one_by_one :
      (finish : List ℕ → List ℕ) (frame : FrameData) (plane : List ℕ)
      → Finishes finish
      → detect_checkerboard2x2_on floats vision cfg finish frame plane
        ≡ detect_checkerboard2x2_on floats vision
            (record cfg { checkerboard_num_threads = pos 1 })
            (λ b. b)
            frame
            plane
  unfolding detect_checkerboard2x2_on
  boards_one_by_one finish frame plane h =
      let full_res : Bool = cfg.checkerboard_full_res_detection in
      let full_width : ℕ = plane_size full_res frame.width in
      let full_height : ℕ = plane_size full_res frame.height in
      let job : ℕ → Bool × List (F × F) =
        λ k. detect_board vision (quadrant_view plane full_width full_height k) in
      ap (λ r. if (full_width / 2 == 0) || (full_height / 2 == 0) then (false, []) else r)
        (collect_slots-eq (board_of floats full_res (full_width / 2) (full_height / 2))
          (run_jobs job finish (batches 4 (pool_size cfg.checkerboard_num_threads) 0)
            (λ k. (false, [])))
          (run_jobs job (λ b. b) (batches 4 (pool_size (pos 1)) 0) (λ k. (false, [])))
          (λ k below.
            run_jobs-same job finish cfg.checkerboard_num_threads (λ k. (false, [])) k h below))

  module _ (refine : View → List (F × F) → List (F × F)) where
    markers_one_by_one :
        (finish : List ℕ → List ℕ) (frame : FrameData) (plane : List ℕ)
        → Finishes finish
        → detect_aruco2x2_on floats vision cfg refine finish frame plane
          ≡ detect_aruco2x2_on floats vision
              (record cfg { aruco_num_threads = pos 1 })
              refine
              (λ b. b)
              frame
              plane
    unfolding detect_aruco2x2_on
    markers_one_by_one finish frame plane h =
        let full_res : Bool = cfg.aruco_full_res_detection in
        let full_width : ℕ = plane_size full_res frame.width in
        let full_height : ℕ = plane_size full_res frame.height in
        let job : ℕ → List (Marker F) = λ k.
          (detect_markers vision refine cfg.aruco_edge_refine
            (quadrant_view plane full_width full_height k)).1 in
        ap (λ r. if (full_width / 2 == 0) || (full_height / 2 == 0) then (false, []) else r)
          (collect_slots-eq (markers_of floats full_res (full_width / 2) (full_height / 2))
            (run_jobs job finish (batches 4 (pool_size cfg.aruco_num_threads) 0) (λ k. []))
            (run_jobs job (λ b. b) (batches 4 (pool_size (pos 1)) 0) (λ k. []))
            (λ k below. run_jobs-same job finish cfg.aruco_num_threads (λ k. []) k h below))

    -- Both detections in quadrants find, whatever number of threads is configured and in whatever
    -- order the jobs of a batch are done, what they find with one thread that takes the quadrants
    -- one by one.
    pub detect2x2-one_by_one :
        (finish : List ℕ → List ℕ) (frame : FrameData)
        → Finishes finish
        → (detect_checkerboard2x2 floats vision cfg finish frame
            ≡ detect_checkerboard2x2 floats vision
                (record cfg { checkerboard_num_threads = pos 1 })
                (λ b. b)
                frame)
          × (detect_aruco2x2 floats vision cfg refine finish frame
              ≡ detect_aruco2x2 floats vision
                  (record cfg { aruco_num_threads = pos 1 })
                  refine
                  (λ b. b)
                  frame)
    unfolding detect_checkerboard2x2 detect_aruco2x2
    detect2x2-one_by_one finish frame h = (
      ap (on_plane (extract_y frame cfg.checkerboard_full_res_detection))
          (fun_ext (λ plane. boards_one_by_one finish frame plane h)),
      ap (on_plane (extract_y frame cfg.aruco_full_res_detection))
          (fun_ext (λ plane. markers_one_by_one finish frame plane h)),
    )
