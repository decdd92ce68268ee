-- ===== src/Detect/Pipelines.antt =====
-- detectCheckerboard, detectCheckerboard2x2, detectAruco and detectAruco2x2 of
-- src/frame_processor.cpp. `none` stands for a read outside of the frame's bytes. `finish` is the
-- order in which the jobs of a batch are done.
use cherupi_v4l.Base.{
  Bool, List, Option, [], false, if◌then◌else◌, map, none, some, true, ℕ, ◌%◌, ◌*◌, ◌++◌, ◌-◌, ◌/◌,
  ◌==◌, ◌^◌, ◌||◌, ◌∷◌,
}
use cherupi_v4l.Command.Config.{ProcessConfig}
use cherupi_v4l.Detect.Luma.{extract_y, plane_size}
use cherupi_v4l.Detect.Slots.{batches, pool_size, run_jobs}
use cherupi_v4l.Detect.Views.{
  Floats, Marker, View, Vision, detect_board, detect_markers, quadrant_view, whole_view,
}
use cherupi_v4l.Types.{CornerSet, FrameData}

module _ {F : Type 0} (floats : Floats F) where
  -- 1.0f in full resolution, else 2.0f.
  unfoldable pub scale_of : Bool → F
  scale_of full_res = floats.of_nat (if full_res then 1 else 2)

  unfoldable pub scaled_point : F → F × F → F × F
  scaled_point scale (x, y) = (floats.mul x scale, floats.mul y scale)

  -- From a quadrant's own pixels to the plane's, then to the frame's.
  unfoldable pub placed_point : F → F → F → F × F → F × F
  placed_point ox oy scale (x, y) =
      (floats.mul (floats.add x ox) scale, floats.mul (floats.add y oy) scale)

  -- marker_id is -1 by default.
  unfoldable pub board_set : ℕ → List (F × F) → CornerSet F
  board_set set_id corners = record { set_id = set_id; marker_id = 2 ^ 32 - 1; corners = corners }

  unfoldable pub marker_sets : ℕ → (F × F → F × F) → List (Marker F) → List (CornerSet F)
  marker_sets set_id place [] = []
  marker_sets set_id place (m ∷ ms) =
      record { set_id = set_id; marker_id = m.id; corners = map place m.corners }
      ∷ marker_sets set_id place ms

  -- The offset of quadrant `k`, and the step to the frame's pixels.
  unfoldable pub place_in : Bool → ℕ → ℕ → ℕ → F × F → F × F
  place_in full_res sub_w sub_h k =
      placed_point (floats.of_nat (k % 2 * sub_w)) (floats.of_nat (k / 2 * sub_h))
        (scale_of full_res)

  unfoldable pub board_of : Bool → ℕ → ℕ → ℕ → Bool × List (F × F) → List (CornerSet F)
  board_of full_res sub_w sub_h k (false, corners) = []
  board_of full_res sub_w sub_h k (true, corners) =
      board_set k (map (place_in full_res sub_w sub_h k) corners) ∷ []

  unfoldable pub markers_of : Bool → ℕ → ℕ → ℕ → List (Marker F) → List (CornerSet F)
  markers_of full_res sub_w sub_h k ms = marker_sets k (place_in full_res sub_w sub_h k) ms

-- What the loop over the four slots collects; something is detected when a slot has something.
module _ {F : Type 0} where
  unfoldable pub has_sets : List (CornerSet F) → Bool
  has_sets [] = false
  has_sets (s ∷ sets) = true

  unfoldable pub collect_slots :
      {R : Type 0} → (ℕ → R → List (CornerSet F)) → (ℕ → R) → Bool × List (CornerSet F)
  collect_slots sets_of results =
      let sets =
        sets_of 0 (results 0)
        ++ (sets_of 1 (results 1) ++ (sets_of 2 (results 2) ++ sets_of 3 (results 3))) in
      (has_sets sets, sets)

  unfoldable pub on_plane :
      Option (List ℕ) → (List ℕ → Bool × List (CornerSet F)) → Option (Bool × List (CornerSet F))
  on_plane none detect = none
  on_plane (some plane) detect = some (detect plane)

module _ {F C : Type 0} (floats : Floats F) (vision : Vision F) (cfg : ProcessConfig C) where
  unfoldable pub detect_checkerboard_on : FrameData → List ℕ → Bool × List (CornerSet F)
  detect_checkerboard_on frame plane =
      let full_res = cfg.checkerboard_full_res_detection in
      let (detected, corners) =
        detect_board vision
          (whole_view plane (plane_size full_res frame.width) (plane_size full_res frame.height)) in
      (
        detected,
        if detected
            then board_set floats 0 (
                if full_res
                then corners
                else map (scaled_point floats (scale_of floats false)) corners)
              ∷ []
            else [],
      )

  unfoldable pub detect_checkerboard : FrameData → Option (Bool × List (CornerSet F))
  detect_checkerboard frame =
      on_plane (extract_y frame cfg.checkerboard_full_res_detection) (detect_checkerboard_on frame)

  unfoldable pub detect_checkerboard2x2_on :
      (List ℕ → List ℕ) → FrameData → List ℕ → Bool × List (CornerSet F)
  detect_checkerboard2x2_on finish frame plane =
      let full_res = cfg.checkerboard_full_res_detection in
      let full_width = plane_size full_res frame.width in
      let full_height = plane_size full_res frame.height in
      let sub_w = full_width / 2 in
      let sub_h = full_height / 2 in
      let job : ℕ → Bool × List (F × F) =
        λ k. detect_board vision (quadrant_view plane full_width full_height k) in
      let results =
        run_jobs job finish (batches 4 (pool_size cfg.checkerboard_num_threads) 0)
          (λ k. (false, [])) in
      if (sub_w == 0) || (sub_h == 0)
      then (false, [])
      else collect_slots (board_of floats full_res sub_w sub_h) results

  unfoldable pub detect_checkerboard2x2 :
      (List ℕ → List ℕ) → FrameData → Option (Bool × List (CornerSet F))
  detect_checkerboard2x2 finish frame =
      on_plane (extract_y frame cfg.checkerboard_full_res_detection)
        (detect_checkerboard2x2_on finish frame)

  module _ (refine : View → List (F × F) → List (F × F)) where
    unfoldable pub detect_aruco_on : FrameData → List ℕ → Bool × List (CornerSet F)
    detect_aruco_on frame plane =
        let full_res = cfg.aruco_full_res_detection in
        let (detected, markers) =
          detect_markers vision refine cfg.aruco_edge_refine (
            whole_view plane (plane_size full_res frame.width)
              (plane_size full_res frame.height)) in
        (detected, marker_sets floats 0 (scaled_point floats (scale_of floats full_res)) markers)

    unfoldable pub detect_aruco : FrameData → Option (Bool × List (CornerSet F))
    detect_aruco frame =
        on_plane (extract_y frame cfg.aruco_full_res_detection) (detect_aruco_on frame)

    unfoldable pub detect_aruco2x2_on :
        (List ℕ → List ℕ) → FrameData → List ℕ → Bool × List (CornerSet F)
    detect_aruco2x2_on finish frame plane =
        let full_res = cfg.aruco_full_res_detection in
        let full_width = plane_size full_res frame.width in
        let full_height = plane_size full_res frame.height in
        let sub_w = full_width / 2 in
        let sub_h = full_height / 2 in
        let job : ℕ → List (Marker F) = λ k.
          (detect_markers vision refine cfg.aruco_edge_refine
            (quadrant_view plane full_width full_height k)).1 in
        let results =
          run_jobs job finish (batches 4 (pool_size cfg.aruco_num_threads) 0) (λ k. []) in
        if (sub_w == 0) || (sub_h == 0)
        then (false, [])
        else collect_slots (markers_of floats full_res sub_w sub_h) results

    unfoldable pub detect_aruco2x2 :
        (List ℕ → List ℕ) → FrameData → Option (Bool × List (CornerSet F))
    detect_aruco2x2 finish frame =
        on_plane (extract_y frame cfg.aruco_full_res_detection) (detect_aruco2x2_on finish frame)
