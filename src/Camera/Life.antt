-- ===== src/Camera/Life.antt =====
-- The life of a camera: what configure, start, stop and unconfigure keep between its state and what
-- it holds of libcamera.
use cherupi_v4l.Base.{List, [], arith, false, not, true, ℕ, ◌∙◌, ◌∷◌, ◌≡◌, ◌≢◌}
use cherupi_v4l.Camera.{Camera}
use cherupi_v4l.Camera.Capture.{
  Completion, StartAnswers, arm_capture, feed_watchdog, on_request_complete, publish_frame, requeue,
  start_camera, stop_camera,
}
use cherupi_v4l.Camera.Setup.{
  SetupAnswers, adjust, commit, configure_camera, note_sensor_mode, release_configured_resources,
  setup, unconfigure_camera,
}
use cherupi_v4l.Camera.Watchdog.{mark_capture_failed}
use cherupi_v4l.Types.{error, idle, is_idle, is_running}

-- What the camera manager, the watchdog and libcamera's completion thread call.
pub data CameraCall : Type 0 where
  configures : SetupAnswers → CameraCall
  starts_at : ℕ → StartAnswers → CameraCall
  stops_capture unconfigures : CameraCall
  completes_at : ℕ → Completion → CameraCall
  marks_failed : CameraCall

module _ {D : Type 0} where
  -- An idle camera holds nothing; a camera that is not idle has acquired libcamera's, and libcamera
  -- is started, with the completion signal connected, exactly while the camera runs.
  pub record IsOwner (c : Camera D) : Type 0 where
    pub no_error : c.state ≢ error
    pub acquired_iff : c.lcam_acquired ≡ not (is_idle c.state)
    pub started_iff : c.lcam_started ≡ is_running c.state
    pub connected_iff : c.signal_connected ≡ is_running c.state
    pub idle_empty : c.state ≡ idle → c.requests ≡ 0

  unfoldable pub call_camera : CameraCall → Camera D → Camera D
  call_camera (configures a) c = (configure_camera a c).0
  call_camera (starts_at now a) c = (start_camera now a c).0
  call_camera stops_capture c = stop_camera c
  call_camera unconfigures c = (unconfigure_camera c).0
  call_camera (completes_at now r) c = (on_request_complete now r c).0
  call_camera marks_failed c = (mark_capture_failed c).0

  commit-IsOwner :
      (a : SetupAnswers) (c : Camera D)
      → c.state ≡ idle
      → c.lcam_acquired ≡ true
      → c.lcam_started ≡ false
      → c.signal_connected ≡ false
      → IsOwner (commit a c).0
  unfolding commit release_configured_resources
  commit-IsOwner a c i q s k = ground arith

  pub adjusted_same :
      (a : SetupAnswers) (c : Camera D)
      → let q = note_sensor_mode a (adjust a.status c) in
        (q.state ≡ c.state)
        × (q.lcam_acquired ≡ c.lcam_acquired)
        × (q.lcam_started ≡ c.lcam_started)
        × (q.signal_connected ≡ c.signal_connected)
  unfolding note_sensor_mode adjust
  adjusted_same a c = ground arith

  setup-IsOwner :
      (a : SetupAnswers) (c : Camera D)
      → c.state ≡ idle
      → c.lcam_acquired ≡ true
      → c.lcam_started ≡ false
      → c.signal_connected ≡ false
      → IsOwner (setup a c).0
  unfolding setup release_configured_resources
  setup-IsOwner a c i q s k =
      let (e, f, g, h) = adjusted_same a c in
      let done =
        commit-IsOwner a (note_sensor_mode a (adjust a.status c)) (e ∙ i) (f ∙ q) (g ∙ s) (h ∙ k) in
      ground (arith, done)

  configure_camera-IsOwner :
      (a : SetupAnswers) (c : Camera D) → IsOwner c → IsOwner (configure_camera a c).0
  unfolding configure_camera
  configure_camera-IsOwner a c v =
      ground (arith, setup-IsOwner a (record c { lcam_acquired = true }))

  start_camera-IsOwner :
      (now : ℕ) (a : StartAnswers) (c : Camera D) → IsOwner c → IsOwner (start_camera now a c).0
  unfolding start_camera arm_capture
  start_camera-IsOwner now a c v = ground arith

  on_request_complete-IsOwner :
      (now : ℕ) (r : Completion) (c : Camera D)
      → IsOwner c
      → IsOwner (on_request_complete now r c).0
  unfolding on_request_complete requeue publish_frame feed_watchdog
  on_request_complete-IsOwner now r c v = ground arith

  call_camera-IsOwner : (k : CameraCall) (c : Camera D) → IsOwner c → IsOwner (call_camera k c)
  unfolding call_camera stop_camera unconfigure_camera release_configured_resources
      mark_capture_failed
  call_camera-IsOwner (configures a) c v = configure_camera-IsOwner a c v
  call_camera-IsOwner (starts_at now a) c v = start_camera-IsOwner now a c v
  call_camera-IsOwner stops_capture c v = ground arith
  call_camera-IsOwner unconfigures c v = ground arith
  call_camera-IsOwner (completes_at now r) c v = on_request_complete-IsOwner now r c v
  call_camera-IsOwner marks_failed c v = ground arith

  unfoldable pub call_all : List CameraCall → Camera D → Camera D
  call_all [] c = c
  call_all (k ∷ ks) c = call_all ks (call_camera k c)

  -- In whatever order the manager, the watchdog and libcamera call, an idle camera holds no libcamera
  -- resource, a camera that is not idle holds them, and libcamera is started, with the completion
  -- signal connected, exactly while the camera is running.
  pub call_all-IsOwner : (ks : List CameraCall) (c : Camera D) → IsOwner c → IsOwner (call_all ks c)
  unfolding call_all
  call_all-IsOwner [] c v = v
  call_all-IsOwner (k ∷ ks) c v = call_all-IsOwner ks (call_camera k c) (call_camera-IsOwner k c v)
