-- ===== src/Camera/Tests.antt =====
-- A camera at concrete states.
use cherupi_v4l.Base.{List, [], arith, false, none, refl, some, true, ℕ, ◌+◌, ◌∷◌, ◌≡◌}
use cherupi_v4l.Camera.{Camera}
use cherupi_v4l.Camera.Capture.{
  Completion, feed_watchdog, get_frame_for_streaming, on_request_complete, publish_frame, requeue,
}
use cherupi_v4l.Camera.Life.{
  CameraCall, IsOwner, call_all, call_all-IsOwner, call_camera, completes_at, configures,
  marks_failed, starts_at, stops_capture, unconfigures,
}
use cherupi_v4l.Camera.Publication.{get_frame_for_streaming-next}
use cherupi_v4l.Camera.Setup.{SetupAnswers, adjusted, fresh_camera}
use cherupi_v4l.Types.{FrameData, running}

abbrev new_camera : Camera ℕ
new_camera = fresh_camera 3

abbrev one_buffer : SetupAnswers
one_buffer = record {
  acquires = true;
  generates = true;
  raw_formats = none;
  status = adjusted 4 2;
  raw_size = (4, 2);
  configures = true;
  allocates = true;
  allocates_raw = true;
  buffers =
      record { maps = true; creates_request = true; adds_buffer = true; adds_raw_buffer = true }
      ∷ [];
}

abbrev frame : FrameData
frame = record {
  bytes = 1 ∷ 2 ∷ [];
  frame_id = 0;
  camera_id = 0;
  width = 0;
  height = 0;
  bytes_per_line = 4;
  pixel_format = 0;
  timestamp_us = 0;
  frame_duration_us = 0;
  lens_position = 0;
  af_state = 255;
  focus_fom = 0;
}

abbrev delivered : Completion
delivered = record { cancelled_request = false; picture = some frame }

abbrev life : List CameraCall
life =
    configures one_buffer
    ∷ starts_at 5 (record { starts_up = true; queues_all = true })
    ∷ completes_at 9 delivered
    ∷ marks_failed
    ∷ stops_capture
    ∷ unconfigures
    ∷ []

new_camera-IsOwner : IsOwner new_camera
unfolding fresh_camera
new_camera-IsOwner = ground arith

call_all-IsOwner_example : IsOwner (call_all life new_camera)
call_all-IsOwner_example = call_all-IsOwner life new_camera new_camera-IsOwner

-- It runs, and its last frame came at 1000.
abbrev running_camera : Camera ℕ
running_camera = record new_camera {
  state = running;
  last_frame_wall_us = 1000;
  latest_frame = some frame;
  latest_seq = 1;
}

get_frame_for_streaming-next_example :
    let later = call_all (completes_at 9 delivered ∷ []) running_camera in
    (get_frame_for_streaming running_camera 1 ≡ none)
    × (get_frame_for_streaming (on_request_complete 20 delivered later).0 1
        ≡ some (
          record frame { camera_id = later.camera_id; frame_id = later.frame_counter },
          later.latest_seq + 1,
        ))
unfolding fresh_camera get_frame_for_streaming call_all call_camera on_request_complete requeue
    publish_frame feed_watchdog
get_frame_for_streaming-next_example =
    get_frame_for_streaming-next (completes_at 9 delivered ∷ []) running_camera 0 1 20 frame frame
      refl refl (omega arith)
