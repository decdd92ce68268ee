-- ===== src/Manager/Uniform.antt =====
-- The states of the cameras before and after the operations of the manager.
use cherupi_v4l.Base.{
  Bool, Bool-cases, List, [], arith, false, if◌then◌else◌, inl, inr, refl, suc, true, ℕ, ◌||◌, ◌∙◌,
  ◌∷◌, ◌≡◌,
}
use cherupi_v4l.Camera.{Camera}
use cherupi_v4l.Camera.Capture.{StartAnswers, arm_capture, start_camera, stop_camera}
use cherupi_v4l.Camera.Setup.{
  SetupAnswers, commit, configure_camera, release_configured_resources, setup, unconfigure_camera,
}
use cherupi_v4l.Command.Config.{CameraConfig}
use cherupi_v4l.Manager.Fleet.{
  any_running, configure_each, for_all, set_config, start_all, start_each, stop_all,
  unconfigure_all,
}
use cherupi_v4l.Types.{CameraState, configured, idle, is_configured, is_running, running}
use cherupi_v4l.Camera.Life.{adjusted_same}

module _ {D : Type 0} where
  unfoldable pub AllIn : CameraState → List (Camera D) → Type 0
  AllIn s [] = Unit {0}
  AllIn s (c ∷ cs) = (c.state ≡ s) × AllIn s cs

  unfoldable pub any_configured : List (Camera D) → Bool
  any_configured [] = false
  any_configured (c ∷ cs) = is_configured c.state || any_configured cs

  release-state : (c : Camera D) → (release_configured_resources c).state ≡ c.state
  unfolding release_configured_resources
  release-state c = refl

  -- A configure() that succeeds leads to `configured`; one that fails leaves the state, and it fails
  -- on a camera that is not idle.
  configure_camera-state :
      (a : SetupAnswers) (c : Camera D)
      → ((configure_camera a c).1 ≡ true
          → (c.state ≡ idle) × ((configure_camera a c).0.state ≡ configured))
        × ((configure_camera a c).1 ≡ false → (configure_camera a c).0.state ≡ c.state)
  unfolding configure_camera setup commit release_configured_resources
  configure_camera-state a c = ground (arith, adjusted_same a (record c { lcam_acquired = true }))

  pub configure_each-AllIn :
      (cfg : CameraConfig) (answers : ℕ → SetupAnswers) (i : ℕ) (cs : List (Camera D))
      → (configure_each cfg answers i cs).1 ≡ true
      → AllIn configured (configure_each cfg answers i cs).0
  unfolding configure_each AllIn
  configure_each-AllIn cfg answers i [] h = tt
  configure_each-AllIn cfg answers i (c ∷ cs) h = ground (
    arith,
    configure_camera-state (answers i) (set_config cfg c),
    configure_each-AllIn cfg answers (suc i) cs,
  )

  -- Where no camera runs, none runs afterwards.
  pub configure_each-any_running :
      (cfg : CameraConfig) (answers : ℕ → SetupAnswers) (i : ℕ) (cs : List (Camera D))
      → any_running cs ≡ false
      → any_running (configure_each cfg answers i cs).0 ≡ false
  unfolding configure_each any_running
  configure_each-any_running cfg answers i [] h = refl
  configure_each-any_running cfg answers i (c ∷ cs) h = ground (
    arith,
    configure_camera-state (answers i) (set_config cfg c),
    configure_each-any_running cfg answers (suc i) cs,
  )

  -- A camera that is configured makes every configureAll fail, and stays configured.
  pub configure_each-stuck :
      (cfg : CameraConfig) (answers : ℕ → SetupAnswers) (i : ℕ) (cs : List (Camera D))
      → any_configured cs ≡ true
      → ((configure_each cfg answers i cs).1 ≡ false)
        × (any_configured (configure_each cfg answers i cs).0 ≡ true)
  unfolding configure_each any_configured
  configure_each-stuck cfg answers i [] h = cc
  configure_each-stuck cfg answers i (c ∷ cs) h = ground (
    arith,
    configure_camera-state (answers i) (set_config cfg c),
    configure_each-stuck cfg answers (suc i) cs,
  )

  stop_camera-state :
      (c : Camera D) → (stop_camera c).state ≡ (if is_running c.state then configured else c.state)
  unfolding stop_camera
  stop_camera-state c = ground arith

  start_camera-state :
      (now : ℕ) (a : StartAnswers) (c : Camera D)
      → ((start_camera now a c).1 ≡ true → (start_camera now a c).0.state ≡ running)
        × ((start_camera now a c).1 ≡ false → (start_camera now a c).0.state ≡ c.state)
  unfolding start_camera arm_capture
  start_camera-state now a c = ground arith

  pub stop_all-AllIn : (cs : List (Camera D)) → AllIn running cs → AllIn configured (stop_all cs)
  unfolding stop_all AllIn
  stop_all-AllIn [] h = tt
  stop_all-AllIn (c ∷ cs) (e, h) = (ground (arith, stop_camera-state c, e), stop_all-AllIn cs h)

  -- Stopping brings back the cameras that a failed start has started.
  stop_all-configured :
      (cs : List (Camera D)) → AllIn configured cs → AllIn configured (stop_all cs)
  unfolding stop_all AllIn
  stop_all-configured [] h = tt
  stop_all-configured (c ∷ cs) (e, h) =
      (ground (arith, stop_camera-state c, e), stop_all-configured cs h)

  start_each-AllIn :
      (now : ℕ → ℕ) (answers : ℕ → StartAnswers) (i : ℕ) (cs : List (Camera D))
      → AllIn configured cs
      → ((start_each now answers i cs).1 ≡ true → AllIn running (start_each now answers i cs).0)
        × AllIn configured (stop_all (start_each now answers i cs).0)
  unfolding start_each AllIn stop_all
  start_each-AllIn now answers i [] h = (λ e. tt, tt)
  start_each-AllIn now answers i (c ∷ cs) (e, h) =
      let rest = start_each-AllIn now answers (suc i) cs h in
      let started = start_camera-state (now i) (answers i) c in
      let stopped = stop_camera-state (start_camera (now i) (answers i) c).0 in
      elim (Bool-cases (start_camera (now i) (answers i) c).1) [
        | inl t ↦
            rw t (λ g. (started.0 t, rest.0 g), (ground (arith, started.0 t, stopped), rest.1))
        | inr f ↦ rw f (
          λ g. absurd (cc g),
          (ground (arith, started.1 f, stopped, e), stop_all-configured cs h),
        )
      ]

  pub start_all-AllIn :
      (now : ℕ → ℕ) (answers : ℕ → StartAnswers) (cs : List (Camera D))
      → AllIn configured cs
      → ((start_all now answers cs).1 ≡ true → AllIn running (start_all now answers cs).0)
        × ((start_all now answers cs).1 ≡ false → AllIn configured (start_all now answers cs).0)
  unfolding start_all
  start_all-AllIn now answers cs h =
      let each = start_each-AllIn now answers 0 cs h in
      elim (Bool-cases (start_each now answers 0 cs).1) [
        | inl t ↦ rw t (λ g. each.0 t, λ g. absurd (cc g))
        | inr f ↦ rw f (λ g. absurd (cc g), λ g. each.1)
      ]

  unconfigure_camera-idle :
      (c : Camera D)
      → c.state ≡ configured
      → ((unconfigure_camera c).0.state ≡ idle) × ((unconfigure_camera c).1 ≡ true)
  unfolding unconfigure_camera release_configured_resources
  unconfigure_camera-idle c h = ground arith

  pub unconfigure_all-AllIn :
      (cs : List (Camera D))
      → AllIn configured cs
      → AllIn idle (unconfigure_all cs).0 × ((unconfigure_all cs).1 ≡ true)
  unfolding unconfigure_all AllIn
  unconfigure_all-AllIn [] h = (tt, refl)
  unconfigure_all-AllIn (c ∷ cs) (e, h) =
      let one = unconfigure_camera-idle c e in
      let rest = unconfigure_all-AllIn cs h in ((one.0, rest.0), ground (arith, one.1, rest.1))

  pub AllIn-any_running :
      (s : CameraState) (cs : List (Camera D))
      → is_running s ≡ false
      → AllIn s cs
      → any_running cs ≡ false
  unfolding AllIn any_running
  AllIn-any_running s [] n h = refl
  AllIn-any_running s (c ∷ cs) n (e, h) = ground (arith, e, AllIn-any_running s cs n h)

  -- Changes that keep each camera's state.
  pub for_all-AllIn :
      (f : Camera D → Camera D) (s : CameraState) (cs : List (Camera D))
      → ((c : Camera D) → (f c).state ≡ c.state)
      → AllIn s cs
      → AllIn s (for_all f cs)
  unfolding for_all AllIn
  for_all-AllIn f s [] k h = tt
  for_all-AllIn f s (c ∷ cs) k (e, h) = (k c ∙ e, for_all-AllIn f s cs k h)

  for_all-any :
      (f : Camera D → Camera D) (cs : List (Camera D))
      → ((c : Camera D) → (f c).state ≡ c.state)
      → (any_running (for_all f cs) ≡ any_running cs)
        × (any_configured (for_all f cs) ≡ any_configured cs)
  unfolding for_all any_running any_configured
  for_all-any f [] k = (refl, refl)
  for_all-any f (c ∷ cs) k = let rest = for_all-any f cs k in ground (arith, rest, k c)
