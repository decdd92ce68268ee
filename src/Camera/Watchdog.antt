-- ===== src/Camera/Watchdog.antt =====
-- captureStalledForUs and markCaptureFailed of src/camera.cpp: the arithmetic of the watchdog.
use cherupi_v4l.Base.{
  Bool, false, if◌then◌else◌, leb, ltb, none, not, some, true, ℕ, ◌%◌, ◌*◌, ◌-◌, ◌==◌, ◌^◌, ◌||◌,
}
use cherupi_v4l.Camera.{Camera}
use cherupi_v4l.Types.{is_running}

abbrev pub larger : ℕ → ℕ → ℕ
larger a b = if ltb a b then b else a

module _ {D : Type 0} where
  unfoldable pub shutter : Camera D → ℕ
  shutter c = elim c.exposure.wanted [ none ↦ 0 | some us ↦ us ]

  -- The slowest cadence of what is seen, what was asked for, and what a manual shutter forces; a
  -- second where nothing is known.
  unfoldable pub expected_interval : Camera D → ℕ
  expected_interval c =
      let known = larger (larger c.observed_interval_us c.duration.wanted) (shutter c) in
      if known == 0 then 1000000 else known

  -- 0 stands for a camera that is not stalled.
  unfoldable pub capture_stalled_for_us : ℕ → Camera D → ℕ
  capture_stalled_for_us now c =
      let last = c.last_frame_wall_us in
      let elapsed = now - last in
      let limit = larger (expected_interval c * 10 % 2 ^ 64) 3000000 in
      if not (is_running c.state) || (last == 0) || leb now last
      then 0
      else if ltb limit elapsed
      then elapsed
      else 0

  unfoldable pub mark_capture_failed : Camera D → Camera D × Bool
  mark_capture_failed c =
      if c.capture_failed then (c, false) else (record c { capture_failed = true }, true)

  -- One camera's part of CameraManager::pollStalledCameras.
  unfoldable pub poll_camera : ℕ → Camera D → Camera D × Bool
  poll_camera now c =
      if capture_stalled_for_us now c == 0 then (c, false) else mark_capture_failed c
