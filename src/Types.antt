-- ===== src/Types.antt =====
-- src/types.hpp: the enumerations of the program and the small functions on them.
use cherupi_v4l.Base.{Bool, List, false, true, ℕ}

-- CameraState; it is also the server's system state.
pub data CameraState : Type 0 where
  idle configured running error : CameraState

pub data ClientRole : Type 0 where
  commander observer : ClientRole

pub data ProcessMode : Type 0 where
  none_mode buffer batch trigger checkerboard checkerboard2x2 aruco aruco2x2 : ProcessMode

pub data DetectionKind : Type 0 where
  no_detection checkerboard_kind aruco_kind : DetectionKind

-- static_cast<uint8_t>(DetectionKind)
unfoldable pub detection_code : DetectionKind → ℕ
detection_code no_detection = 0
detection_code checkerboard_kind = 1
detection_code aruco_kind = 2

unfoldable pub detection_kind_for_mode : ProcessMode → DetectionKind
detection_kind_for_mode checkerboard = checkerboard_kind
detection_kind_for_mode checkerboard2x2 = checkerboard_kind
detection_kind_for_mode aruco = aruco_kind
detection_kind_for_mode aruco2x2 = aruco_kind
detection_kind_for_mode other = no_detection

unfoldable pub is_detector_mode : ProcessMode → Bool
is_detector_mode checkerboard = true
is_detector_mode checkerboard2x2 = true
is_detector_mode aruco = true
is_detector_mode aruco2x2 = true
is_detector_mode other = false

unfoldable pub uses_writer_pool : ProcessMode → Bool
unfolding is_detector_mode
uses_writer_pool batch = true
uses_writer_pool trigger = true
uses_writer_pool other = is_detector_mode other

abbrev pub is_none_mode : ProcessMode → Bool
is_none_mode none_mode = true
is_none_mode other = false

abbrev pub is_buffer : ProcessMode → Bool
is_buffer buffer = true
is_buffer other = false

abbrev pub is_batch : ProcessMode → Bool
is_batch batch = true
is_batch other = false

abbrev pub is_trigger : ProcessMode → Bool
is_trigger trigger = true
is_trigger other = false

abbrev pub is_running : CameraState → Bool
is_running running = true
is_running other = false

abbrev pub is_configured : CameraState → Bool
is_configured configured = true
is_configured other = false

abbrev pub is_idle : CameraState → Bool
is_idle idle = true
is_idle other = false

abbrev pub is_observer : ClientRole → Bool
is_observer observer = true
is_observer commander = false

-- A `float` travels as the bit pattern of its 32 bits, and so does `focus_fom`, an int32_t.
pub record FrameData : Type 0 where
  pub bytes : List ℕ  -- the field `data`
  pub frame_id : ℕ
  pub camera_id : ℕ
  pub width : ℕ
  pub height : ℕ
  pub bytes_per_line : ℕ
  pub pixel_format : ℕ
  pub timestamp_us : ℕ
  pub frame_duration_us : ℕ
  pub lens_position : ℕ
  pub af_state : ℕ
  pub focus_fom : ℕ

-- CornerSet of src/frame_processor.hpp; `D` is the type of the coordinates, and a marker id is an
-- int32_t as a bit pattern.
pub record CornerSet (D : Type 0) : Type 0 where
  pub set_id : ℕ
  pub marker_id : ℕ
  pub corners : List (D × D)
