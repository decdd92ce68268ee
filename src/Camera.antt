-- ===== src/Camera.antt =====
-- src/camera.hpp and src/camera.cpp: one camera. libcamera is a third-party library: what it answers
-- to a call is an argument of the step that makes the call, and what it holds on to (started, the
-- controls in force) is kept in the record. The children hold the operations and their properties.
pub mod Settings
pub mod Setup
pub mod Capture
pub mod Watchdog
pub mod Life
pub mod Publication
mod Tests
use cherupi_v4l.Base.{Bool, Option, ℕ}
use cherupi_v4l.Types.{CameraState, FrameData}

-- A value that the server sets, with its generation counters (uint64_t). `in_force` is the value of
-- the controls that libcamera has been given last.
pub record Setting (V : Type 0) : Type 0 where
  pub wanted : V
  pub generation : ℕ
  pub applied_generation : ℕ
  pub in_force : V

-- `D` is the type of a lens position. The wanted lens position is `none` for continuous autofocus,
-- the wanted exposure time `none` for automatic exposure, and the wanted duration 0 when unset.
pub record Camera (D : Type 0) : Type 0 where
  pub camera_id : ℕ
  pub width : ℕ
  pub height : ℕ
  pub sensor_width : ℕ
  pub sensor_height : ℕ
  pub state : CameraState
  pub lcam_acquired : Bool
  -- The number of requests, each with its buffers mapped.
  pub requests : ℕ
  pub signal_connected : Bool
  pub lcam_started : Bool
  pub frame_counter : ℕ
  pub latest_frame : Option FrameData
  pub latest_seq : ℕ
  pub should_stop : Bool
  pub last_frame_wall_us : ℕ
  pub observed_interval_us : ℕ
  pub capture_failed : Bool
  pub lens : Setting (Option D)
  pub exposure : Setting (Option ℕ)
  pub duration : Setting ℕ
