-- ===== src/Manager/Fleet.antt =====
-- configureAll, startAll, stopAll, unconfigureAll, pollStalledCameras and the settings of
-- src/camera_manager.cpp.
use cherupi_v4l.Base.{Bool, List, [], false, if◌then◌else◌, suc, true, ℕ, ◌&&◌, ◌||◌, ◌∷◌}
use cherupi_v4l.Camera.{Camera}
use cherupi_v4l.Camera.Capture.{StartAnswers, start_camera, stop_camera}
use cherupi_v4l.Camera.Setup.{SetupAnswers, configure_camera, unconfigure_camera}
use cherupi_v4l.Camera.Watchdog.{poll_camera}
use cherupi_v4l.Command.Config.{CameraConfig}
use cherupi_v4l.Processor.OutputDir.{is_nil}
use cherupi_v4l.Types.{is_running}

module _ {D : Type 0} where
  unfoldable pub any_running : List (Camera D) → Bool
  any_running [] = false
  any_running (c ∷ cs) = is_running c.state || any_running cs

  abbrev pub set_config : CameraConfig → Camera D → Camera D
  set_config cfg c = record c { width = cfg.width; height = cfg.height }

  -- The first camera that fails ends the loop; those before it stay configured.
  unfoldable pub configure_each :
      CameraConfig → (ℕ → SetupAnswers) → ℕ → List (Camera D) → List (Camera D) × Bool
  configure_each cfg answers i [] = ([], true)
  configure_each cfg answers i (c ∷ cs) =
      let (c', done) = configure_camera (answers i) (set_config cfg c) in
      let (cs', all_done) = configure_each cfg answers (suc i) cs in
      if done then (c' ∷ cs', all_done) else (c' ∷ cs, false)

  unfoldable pub configure_all :
      CameraConfig → (ℕ → SetupAnswers) → List (Camera D) → List (Camera D) × Bool
  configure_all cfg answers cs =
      if is_nil cs
      then (cs, false)
      else if any_running cs
      then (cs, false)
      else configure_each cfg answers 0 cs

  unfoldable pub stop_all : List (Camera D) → List (Camera D)
  stop_all [] = []
  stop_all (c ∷ cs) = stop_camera c ∷ stop_all cs

  unfoldable pub start_each :
      (ℕ → ℕ) → (ℕ → StartAnswers) → ℕ → List (Camera D) → List (Camera D) × Bool
  start_each now answers i [] = ([], true)
  start_each now answers i (c ∷ cs) =
      let (c', done) = start_camera (now i) (answers i) c in
      let (cs', all_done) = start_each now answers (suc i) cs in
      if done then (c' ∷ cs', all_done) else (c' ∷ cs, false)

  unfoldable pub start_all : (ℕ → ℕ) → (ℕ → StartAnswers) → List (Camera D) → List (Camera D) × Bool
  start_all now answers cs =
      let (cs', all_done) = start_each now answers 0 cs in
      if all_done then (cs', true) else (stop_all cs', false)

  unfoldable pub unconfigure_all : List (Camera D) → List (Camera D) × Bool
  unconfigure_all [] = ([], true)
  unconfigure_all (c ∷ cs) =
      let (c', done) = unconfigure_camera c in
      let (cs', all_done) = unconfigure_all cs in (c' ∷ cs', done && all_done)

  -- The ids of the newly stalled cameras.
  unfoldable pub poll_stalled : ℕ → List (Camera D) → List (Camera D) × List ℕ
  poll_stalled now [] = ([], [])
  poll_stalled now (c ∷ cs) =
      let (c', reported) = poll_camera now c in
      let (cs', ids) = poll_stalled now cs in
      (c' ∷ cs', if reported then c.camera_id ∷ ids else ids)

  unfoldable pub for_all : (Camera D → Camera D) → List (Camera D) → List (Camera D)
  for_all f [] = []
  for_all f (c ∷ cs) = f c ∷ for_all f cs

  unfoldable pub reset_camera_counts : List (Camera D) → List (Camera D)
  reset_camera_counts cs = for_all (λ c. record c { frame_counter = 0 }) cs
