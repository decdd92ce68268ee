-- ===== src/Manager/Phase.antt =====
-- What the server relies on: the cameras of the manager are all in one state, and there is one.
use cherupi_v4l.Base.{Bool, List, Option, [], arith, false, refl, suc, true, ℕ, ◌∙◌, ◌∷◌, ◌≡◌}
use cherupi_v4l.Camera.{Camera}
use cherupi_v4l.Camera.Capture.{StartAnswers}
use cherupi_v4l.Camera.Setup.{SetupAnswers, fresh_camera}
use cherupi_v4l.Camera.Watchdog.{mark_capture_failed, poll_camera}
use cherupi_v4l.Command.Config.{CameraConfig}
use cherupi_v4l.Manager.Discover.{discover_cameras, number_matches}
use cherupi_v4l.Manager.Fleet.{
  any_running, configure_all, configure_each, for_all, poll_stalled, start_all, start_each,
  stop_all, unconfigure_all,
}
use cherupi_v4l.Manager.Uniform.{
  AllIn, AllIn-any_running, any_configured, configure_each-AllIn, configure_each-any_running,
  start_all-AllIn, stop_all-AllIn, unconfigure_all-AllIn,
}
use cherupi_v4l.Processor.OutputDir.{is_nil}
use cherupi_v4l.Types.{CameraState, configured, idle, is_running, running}

module _ {D : Type 0} where
  -- There is a camera, and all are in the state.
  unfoldable pub Ready : CameraState → List (Camera D) → Type 0
  Ready s cs = (is_nil cs ≡ false) × AllIn s cs

  unfoldable pub states : List (Camera D) → List CameraState
  states [] = []
  states (c ∷ cs) = c.state ∷ states cs

  -- Whether cameras run, are configured, or are all in a state depends on their states only.
  pub states-any :
      (cs ds : List (Camera D))
      → states ds ≡ states cs
      → (any_running ds ≡ any_running cs) × (any_configured ds ≡ any_configured cs)
  unfolding states any_running any_configured
  states-any [] [] h = (refl, refl)
  states-any [] (d ∷ ds) h = cc
  states-any (c ∷ cs) [] h = cc
  states-any (c ∷ cs) (d ∷ ds) h = ground (arith, h, states-any cs ds)

  states-AllIn :
      (s : CameraState) (cs ds : List (Camera D)) → states ds ≡ states cs → AllIn s cs → AllIn s ds
  unfolding states AllIn
  states-AllIn s [] [] h a = tt
  states-AllIn s [] (d ∷ ds) h a = cc
  states-AllIn s (c ∷ cs) [] h a = tt
  states-AllIn s (c ∷ cs) (d ∷ ds) h (e, a) = ground (arith, h, e, states-AllIn s cs ds)

  states-is_nil : (cs ds : List (Camera D)) → states ds ≡ states cs → is_nil ds ≡ is_nil cs
  unfolding states is_nil
  states-is_nil [] [] h = refl
  states-is_nil [] (d ∷ ds) h = cc
  states-is_nil (c ∷ cs) [] h = cc
  states-is_nil (c ∷ cs) (d ∷ ds) h = refl

  pub states-Ready :
      (s : CameraState) (cs ds : List (Camera D)) → states ds ≡ states cs → Ready s cs → Ready s ds
  unfolding Ready
  states-Ready s cs ds h (n, a) = (states-is_nil cs ds h ∙ n, states-AllIn s cs ds h a)

  pub for_all-states :
      (f : Camera D → Camera D) (cs : List (Camera D))
      → ((c : Camera D) → (f c).state ≡ c.state)
      → states (for_all f cs) ≡ states cs
  unfolding for_all states
  for_all-states f [] k = refl
  for_all-states f (c ∷ cs) k = ground (arith, k c, for_all-states f cs k)

  pub poll_stalled-states :
      (now : ℕ) (cs : List (Camera D)) → states (poll_stalled now cs).0 ≡ states cs
  unfolding poll_stalled states poll_camera mark_capture_failed
  poll_stalled-states now [] = refl
  poll_stalled-states now (c ∷ cs) = ground (arith, poll_stalled-states now cs)

  configure_each-is_nil :
      (cfg : CameraConfig) (answers : ℕ → SetupAnswers) (i : ℕ) (cs : List (Camera D))
      → is_nil (configure_each cfg answers i cs).0 ≡ is_nil cs
  unfolding configure_each is_nil
  configure_each-is_nil cfg answers i [] = refl
  configure_each-is_nil cfg answers i (c ∷ cs) = ground arith

  stop_all-is_nil : (cs : List (Camera D)) → is_nil (stop_all cs) ≡ is_nil cs
  unfolding stop_all is_nil
  stop_all-is_nil [] = refl
  stop_all-is_nil (c ∷ cs) = refl

  start_all-is_nil :
      (now : ℕ → ℕ) (answers : ℕ → StartAnswers) (cs : List (Camera D))
      → is_nil (start_all now answers cs).0 ≡ is_nil cs
  unfolding start_all start_each stop_all is_nil
  start_all-is_nil now answers [] = refl
  start_all-is_nil now answers (c ∷ cs) =
      ground (arith, stop_all-is_nil (start_each now answers 0 (c ∷ cs)).0)

  pub configure_all-Ready :
      (cfg : CameraConfig) (answers : ℕ → SetupAnswers) (cs : List (Camera D))
      → any_running cs ≡ false
      → ((configure_all cfg answers cs).1 ≡ true
          → Ready configured (configure_all cfg answers cs).0)
        × (any_running (configure_all cfg answers cs).0 ≡ false)
  unfolding configure_all Ready
  configure_all-Ready cfg answers cs h = ground (
    arith,
    configure_each-AllIn cfg answers 0 cs,
    configure_each-any_running cfg answers 0 cs h,
    configure_each-is_nil cfg answers 0 cs,
  )

  pub start_all-Ready :
      (now : ℕ → ℕ) (answers : ℕ → StartAnswers) (cs : List (Camera D))
      → Ready configured cs
      → ((start_all now answers cs).1 ≡ true → Ready running (start_all now answers cs).0)
        × ((start_all now answers cs).1 ≡ false → Ready configured (start_all now answers cs).0)
  unfolding Ready
  start_all-Ready now answers cs (n, a) =
      let (t, f) = start_all-AllIn now answers cs a in
      let same = start_all-is_nil now answers cs in (λ e. (same ∙ n, t e), λ e. (same ∙ n, f e))

  pub stop_all-Ready : (cs : List (Camera D)) → Ready running cs → Ready configured (stop_all cs)
  unfolding Ready
  stop_all-Ready cs (n, a) = (stop_all-is_nil cs ∙ n, stop_all-AllIn cs a)

  pub unconfigure_all-Ready :
      (cs : List (Camera D))
      → Ready configured cs
      → (any_running (unconfigure_all cs).0 ≡ false) × ((unconfigure_all cs).1 ≡ true)
  unfolding Ready
  unconfigure_all-Ready cs (n, a) =
      let (i, d) = unconfigure_all-AllIn cs a in
      (AllIn-any_running idle (unconfigure_all cs).0 refl i, d)

  number_matches-any_running :
      (fresh : ℕ → Camera D) (sensor : List ℕ) (models : List (Option (List ℕ))) (id : ℕ)
      → ((i : ℕ) → is_running (fresh i).state ≡ false)
      → any_running (number_matches fresh sensor models id) ≡ false
  unfolding number_matches any_running
  number_matches-any_running fresh sensor [] id h = refl
  number_matches-any_running fresh sensor (m ∷ models) id h = ground (
    arith,
    h id,
    number_matches-any_running fresh sensor models (suc id) h,
    number_matches-any_running fresh sensor models id h,
  )

  pub discover_cameras-any_running :
      (up : Bool) (sensor : List ℕ) (models : List (Option (List ℕ))) (cs : List (Camera D))
      → any_running cs ≡ false
      → any_running (discover_cameras fresh_camera up sensor models cs) ≡ false
  unfolding discover_cameras any_running fresh_camera
  discover_cameras-any_running up sensor models [] h =
      ground (arith, number_matches-any_running fresh_camera sensor models 0 (λ i. refl))
  discover_cameras-any_running up sensor models (c ∷ cs) h = h

  pub discover_cameras-same :
      (up : Bool) (sensor : List ℕ) (models : List (Option (List ℕ))) (cs : List (Camera D))
      → is_nil cs ≡ false
      → discover_cameras fresh_camera up sensor models cs ≡ cs
  unfolding discover_cameras is_nil
  discover_cameras-same up sensor models [] h = cc
  discover_cameras-same up sensor models (c ∷ cs) h = refl
