-- ===== src/Camera/Publication.antt =====
-- What a streamer takes of a camera's frames, and what the watchdog reports, over any run.
use cherupi_v4l.Base.{
  Bool, List, [], arith, false, if◌then◌else◌, inl, inr, length, none, not, refl, some, true, ℕ,
  ◌%◌, ◌*◌, ◌+◌, ◌<◌, ◌==◌, ◌^◌, ◌||◌, ◌∷◌, ◌≡◌, ◌≤◌, ◌⊎◌,
}
use cherupi_v4l.Camera.{Camera}
use cherupi_v4l.Camera.Capture.{
  arm_capture, feed_watchdog, get_frame_for_streaming, on_request_complete, publish_frame, requeue,
  start_camera, stop_camera,
}
use cherupi_v4l.Camera.Life.{
  CameraCall, call_all, call_camera, completes_at, configures, marks_failed, starts_at,
  stops_capture, unconfigures,
}
use cherupi_v4l.Camera.Setup.{
  adjust, commit, configure_camera, note_sensor_mode, release_configured_resources, setup,
  unconfigure_camera,
}
use cherupi_v4l.Camera.Watchdog.{
  capture_stalled_for_us, expected_interval, mark_capture_failed, poll_camera, shutter,
}
use cherupi_v4l.Types.{FrameData, running}

module _ {D : Type 0} where
  call_camera-latest_seq :
      (k : CameraCall) (c : Camera D)
      → ((call_camera k c).latest_seq ≡ c.latest_seq)
        ⊎ ((call_camera k c).latest_seq ≡ (c.latest_seq + 1) % 2 ^ 64)
  unfolding call_camera configure_camera setup commit release_configured_resources note_sensor_mode
      adjust start_camera arm_capture stop_camera unconfigure_camera on_request_complete requeue
      publish_frame feed_watchdog mark_capture_failed
  call_camera-latest_seq (configures a) c = ground arith
  call_camera-latest_seq (starts_at now a) c = ground arith
  call_camera-latest_seq stops_capture c = ground arith
  call_camera-latest_seq unconfigures c = ground arith
  call_camera-latest_seq (completes_at now r) c = ground arith
  call_camera-latest_seq marks_failed c = ground arith

  -- A call publishes one frame at most.
  call_camera-seq :
      (k : CameraCall) (c : Camera D)
      → c.latest_seq + 1 < 2 ^ 64
      → (c.latest_seq ≤ (call_camera k c).latest_seq)
        × ((call_camera k c).latest_seq ≤ c.latest_seq + 1)
  call_camera-seq k c h = elim (call_camera-latest_seq k c) [
    | inl e ↦ (omega (arith, e), omega (arith, e))
    | inr e ↦ (omega (arith, e), omega (arith, e))
  ]

  call_all-seq :
      (ks : List CameraCall) (c : Camera D)
      → c.latest_seq + length ks < 2 ^ 64
      → (c.latest_seq ≤ (call_all ks c).latest_seq)
        × ((call_all ks c).latest_seq ≤ c.latest_seq + length ks)
  unfolding call_all
  call_all-seq [] c h = (omega arith, omega arith)
  call_all-seq (k ∷ ks) c h =
      let one = call_camera-seq k c (omega arith) in
      let rest = call_all-seq ks (call_camera k c) (omega (arith, one.1)) in
      (omega (arith, one.0, rest.0), omega (arith, one.1, rest.1))

  complete-published :
      (now : ℕ) (picture : FrameData) (c : Camera D) (k : ℕ)
      → c.should_stop ≡ false
      → k ≤ c.latest_seq
      → c.latest_seq + 1 < 2 ^ 64
      → get_frame_for_streaming
          (on_request_complete now
            (record { cancelled_request = false; picture = some picture })
            c).0
          k
        ≡ some (
          record picture { camera_id = c.camera_id; frame_id = c.frame_counter },
          c.latest_seq + 1,
        )
  unfolding get_frame_for_streaming on_request_complete requeue publish_frame feed_watchdog
  complete-published now picture c k h le fits = ground arith

  -- A streamer that took a frame has nothing more to take at once; and whatever happens to the camera
  -- meanwhile, the next frame that is completed while the camera is not stopping is what it gets,
  -- under the camera's id and frame count, as long as the 64-bit sequence number does not run over.
  pub get_frame_for_streaming-next :
      (ks : List CameraCall) (c : Camera D) (k k' now : ℕ) (f picture : FrameData)
      → get_frame_for_streaming c k ≡ some (f, k')
      → (call_all ks c).should_stop ≡ false
      → c.latest_seq + length ks + 1 < 2 ^ 64
      → (get_frame_for_streaming c k' ≡ none)
        × (get_frame_for_streaming
              (on_request_complete now
                (record { cancelled_request = false; picture = some picture })
                (call_all ks c)).0
              k'
            ≡ some (
              record picture {
                camera_id = (call_all ks c).camera_id;
                frame_id = (call_all ks c).frame_counter;
              },
              (call_all ks c).latest_seq + 1,
            ))
  unfolding get_frame_for_streaming
  get_frame_for_streaming-next ks c k k' now f picture h going fits =
      let cursor : k' ≡ c.latest_seq = ground (arith, h) in
      (
        ground (arith, cursor),
        complete-published now picture (call_all ks c) k' going
            (omega (arith, cursor, (call_all-seq ks c (omega arith)).0))
            (omega (arith, (call_all-seq ks c (omega arith)).1)),
      )

  -- The reports of a supervisor that looks at the times `ts`, while no frame arrives.
  unfoldable pub reports : List ℕ → Camera D → ℕ
  reports [] c = 0
  reports (now ∷ ts) c = (if (poll_camera now c).1 then 1 else 0) + reports ts (poll_camera now c).0

  unfoldable pub stalls_at : List ℕ → Camera D → Bool
  stalls_at [] c = false
  stalls_at (now ∷ ts) c = not (capture_stalled_for_us now c == 0) || stalls_at ts c

  reports-failed : (ts : List ℕ) (c : Camera D) → c.capture_failed ≡ true → reports ts c ≡ 0
  unfolding reports poll_camera mark_capture_failed
  reports-failed [] c h = refl
  reports-failed (now ∷ ts) c h = ground (arith, reports-failed ts c h)

  -- A stall is reported exactly once, however often the supervisor looks, and without a stall there
  -- is no report.
  reports-once :
      (ts : List ℕ) (c : Camera D)
      → c.capture_failed ≡ false
      → reports ts c ≡ (if stalls_at ts c then 1 else 0)
  unfolding reports stalls_at poll_camera mark_capture_failed
  reports-once [] c h = refl
  reports-once (now ∷ ts) c h =
      ground (arith, reports-once ts c h, reports-failed ts (record c { capture_failed = true }))

  -- A camera is reported as stalled only while it runs, and only when the last frame is more than
  -- three seconds old and more than ten times the interval that was observed, that was asked for,
  -- and that a manual shutter forces, where ten times the expected interval fits into 64 bits.
  capture_stalled_for_us-late :
      (now : ℕ) (c : Camera D)
      → expected_interval c * 10 < 2 ^ 64
      → 0 < capture_stalled_for_us now c
      → (c.state ≡ running)
        × (capture_stalled_for_us now c + c.last_frame_wall_us ≡ now)
        × (3000000 < capture_stalled_for_us now c)
        × (c.observed_interval_us * 10 < capture_stalled_for_us now c)
        × (c.duration.wanted * 10 < capture_stalled_for_us now c)
        × (shutter c * 10 < capture_stalled_for_us now c)
  unfolding capture_stalled_for_us expected_interval
  capture_stalled_for_us-late now c fits h = ground arith
