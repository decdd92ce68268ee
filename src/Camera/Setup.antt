-- ===== src/Camera/Setup.antt =====
-- configure, releaseConfiguredResources and unconfigure of src/camera.cpp.
use cherupi_v4l.Base.{
  Bool, List, Option, [], false, if◌then◌else◌, length, none, not, some, true, ℕ, ◌&&◌, ◌||◌, ◌∷◌,
}
use cherupi_v4l.Camera.{Camera, Setting}
use cherupi_v4l.Sensor.{RawFormat, select_raw_mode}
use cherupi_v4l.Types.{configured, idle, is_idle, is_running}

-- Before the first start a setting that nobody made counts as in force.
unfoldable pub fresh_setting : {V : Type 0} → V → Setting V
fresh_setting v = record { wanted = v; generation = 0; applied_generation = 0; in_force = v }

-- A new camera, with the default CameraConfig.
unfoldable pub fresh_camera : {D : Type 0} → ℕ → Camera D
fresh_camera id = record {
  camera_id = id;
  width = 2328;
  height = 1748;
  sensor_width = 2328;
  sensor_height = 1748;
  state = idle;
  lcam_acquired = false;
  requests = 0;
  signal_connected = false;
  lcam_started = false;
  frame_counter = 0;
  latest_frame = none;
  latest_seq = 0;
  should_stop = false;
  last_frame_wall_us = 0;
  observed_interval_us = 0;
  capture_failed = false;
  lens = fresh_setting none;
  exposure = fresh_setting none;
  duration = fresh_setting 0;
}

pub data Status : Type 0 where
  valid invalid : Status
  adjusted : ℕ → ℕ → Status  -- with the size that the stream got

-- What libcamera and mmap answer for one buffer.
pub record BufferAnswers : Type 0 where
  pub maps : Bool
  pub creates_request : Bool
  pub adds_buffer : Bool
  pub adds_raw_buffer : Bool

-- What libcamera answers to the calls of one configure(), in their order.
pub record SetupAnswers : Type 0 where
  pub acquires : Bool
  pub generates : Bool
  -- The formats of the raw stream, where the configuration has one.
  pub raw_formats : Option (List RawFormat)
  pub status : Status
  -- The size of the raw stream after validate().
  pub raw_size : ℕ × ℕ
  pub configures : Bool
  pub allocates : Bool
  pub allocates_raw : Bool
  pub buffers : List BufferAnswers

unfoldable pub has_raw : SetupAnswers → Bool
has_raw a = elim a.raw_formats [ none ↦ false | some formats ↦ true ]

-- An empty list of formats keeps the default; otherwise the size must be that of a sensor mode.
unfoldable pub mode_in : List RawFormat → ℕ → ℕ → Bool
mode_in [] width height = true
mode_in (fmt ∷ formats) width height = elim (select_raw_mode (fmt ∷ formats) width height) [
  | none ↦ false
  | some s ↦ true
]

unfoldable pub finds_mode : Option (List RawFormat) → ℕ → ℕ → Bool
finds_mode none width height = true
finds_mode (some formats) width height = mode_in formats width height

unfoldable pub is_invalid : Status → Bool
is_invalid invalid = true
is_invalid valid = false
is_invalid (adjusted w h) = false

unfoldable pub buffer_ready : Bool → BufferAnswers → Bool
buffer_ready raw b = b.maps && b.creates_request && b.adds_buffer && (not raw || b.adds_raw_buffer)

unfoldable pub all_ready : Bool → List BufferAnswers → Bool
all_ready raw [] = true
all_ready raw (b ∷ bs) = buffer_ready raw b && all_ready raw bs

module _ {D : Type 0} where
  unfoldable pub release_configured_resources : Camera D → Camera D
  release_configured_resources c = record c { requests = 0; lcam_acquired = false }

  unfoldable pub adjust : Status → Camera D → Camera D
  adjust valid c = c
  adjust invalid c = c
  adjust (adjusted w h) c = record c { width = w; height = h }

  unfoldable pub note_sensor_mode : SetupAnswers → Camera D → Camera D
  note_sensor_mode a c =
      if has_raw a
      then record c { sensor_width = a.raw_size.0; sensor_height = a.raw_size.1 }
      else record c { sensor_width = c.width; sensor_height = c.height }

  -- From a validated configuration on.
  unfoldable pub commit : SetupAnswers → Camera D → Camera D × Bool
  commit a c =
      if not a.configures
      then (release_configured_resources c, false)
      else if not a.allocates
      then (release_configured_resources c, false)
      else if has_raw a && not a.allocates_raw
      then (release_configured_resources c, false)
      else if not (all_ready (has_raw a) a.buffers)
      then (release_configured_resources c, false)
      else (record c { requests = length a.buffers; state = configured }, true)

  -- A configuration that was adjusted keeps the size it got, also where a later step fails.
  unfoldable pub setup : SetupAnswers → Camera D → Camera D × Bool
  setup a c =
      if not a.generates
      then (release_configured_resources c, false)
      else if not (finds_mode a.raw_formats c.width c.height)
      then (release_configured_resources c, false)
      else if is_invalid a.status
      then (release_configured_resources c, false)
      else commit a (note_sensor_mode a (adjust a.status c))

  unfoldable pub configure_camera : SetupAnswers → Camera D → Camera D × Bool
  configure_camera a c =
      if not (is_idle c.state)
      then (c, false)
      else if not a.acquires
      then (c, false)
      else setup a (record c { lcam_acquired = true })

  unfoldable pub unconfigure_camera : Camera D → Camera D × Bool
  unconfigure_camera c =
      if is_running c.state
      then (c, false)
      else if is_idle c.state
      then (c, true)
      else (record (release_configured_resources c) { state = idle }, true)
