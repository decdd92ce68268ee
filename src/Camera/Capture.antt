-- ===== src/Camera/Capture.antt =====
-- start, stop, onRequestComplete and getFrameForStreaming of src/camera.cpp.
-- What libcamera answers to start() and to the queueing of each request.
use cherupi_v4l.Base.{
  Bool, Option, false, if◌then◌else◌, leb, ltb, none, not, some, true, ℕ, ◌%◌, ◌&&◌, ◌*◌, ◌+◌, ◌-◌,
  ◌/◌, ◌==◌, ◌^◌, ◌||◌,
}
use cherupi_v4l.Camera.{Camera}
use cherupi_v4l.Types.{FrameData, configured, is_configured, is_running, running}
use cherupi_v4l.Camera.Settings.{attach, hand_over}

pub record StartAnswers : Type 0 where
  pub starts_up : Bool
  pub queues_all : Bool

-- What a completed request carries: its buffer's frame as far as the camera does not number it, or
-- `none` where it has no buffer. `cancelled_request` is RequestCancelled.
pub record Completion : Type 0 where
  pub cancelled_request : Bool
  pub picture : Option FrameData

-- The moving average of the interval between frames.
unfoldable pub next_interval : ℕ → ℕ → ℕ
next_interval ema interval = if ema == 0 then interval else (ema * 3 + interval) % 2 ^ 64 / 4

module _ {D : Type 0} where
  -- The three settings go along, and the watchdog is readied before the first request goes out.
  unfoldable pub arm_capture : ℕ → Camera D → Camera D
  arm_capture now c = record c {
    signal_connected = true;
    lens = hand_over c.lens;
    exposure = hand_over c.exposure;
    duration = hand_over c.duration;
    last_frame_wall_us = now;
    observed_interval_us = 0;
    capture_failed = false;
    should_stop = false;
  }

  unfoldable pub start_camera : ℕ → StartAnswers → Camera D → Camera D × Bool
  start_camera now a c =
      let readied = arm_capture now c in
      if not (is_configured c.state)
      then (c, false)
      else if not a.starts_up
      then (record readied { signal_connected = false }, false)
      else if not a.queues_all
      then (record readied { signal_connected = false; lcam_started = false }, false)
      else (record readied { lcam_started = true; state = running }, true)

  -- The published frame is dropped, the sequence number is kept.
  unfoldable pub stop_camera : Camera D → Camera D
  stop_camera c =
      if is_running c.state
      then record c {
        should_stop = true;
        lcam_started = false;
        signal_connected = false;
        latest_frame = none;
        state = configured;
      }
      else c

  unfoldable pub feed_watchdog : ℕ → Camera D → Camera D
  feed_watchdog now c =
      let prev = c.last_frame_wall_us in
      record c {
        last_frame_wall_us = now;
        capture_failed = false;
        observed_interval_us =
            if ltb 0 prev && ltb prev now
            then next_interval c.observed_interval_us (now - prev)
            else c.observed_interval_us;
      }

  -- The frame gets its number, is handed to onFrameCaptured (the second part), and is published.
  unfoldable pub publish_frame : FrameData → Camera D → Camera D × FrameData
  publish_frame picture c =
      let f : FrameData = record picture { camera_id = c.camera_id; frame_id = c.frame_counter } in
      (
        record c {
          frame_counter = (c.frame_counter + 1) % 2 ^ 32;
          latest_frame = some f;
          latest_seq = (c.latest_seq + 1) % 2 ^ 64;
        },
        f,
      )

  -- The request goes back with the settings that changed.
  unfoldable pub requeue : Camera D → Camera D
  requeue c = if c.should_stop then c else record c {
    lens = attach c.lens;
    exposure = attach c.exposure;
    duration = attach c.duration;
  }

  unfoldable pub on_request_complete : ℕ → Completion → Camera D → Camera D × Option FrameData
  on_request_complete now r c =
      if c.should_stop || r.cancelled_request then (c, none) else elim r.picture [
        | none ↦ (requeue c, none)
        | some picture ↦ (
          requeue (publish_frame picture (feed_watchdog now c)).0,
          some (publish_frame picture (feed_watchdog now c)).1,
        )
      ]

  -- The frame, and the cursor to keep.
  unfoldable pub get_frame_for_streaming : Camera D → ℕ → Option (FrameData × ℕ)
  get_frame_for_streaming c last_seen =
      if leb c.latest_seq last_seen
      then none
      else elim c.latest_frame [ none ↦ none | some f ↦ some (f, c.latest_seq) ]
