-- ===== src/Command/Config.antt =====
-- buildCameraConfig, buildSensorFilter and buildProcessConfig of src/command_parser.cpp.
use cherupi_v4l.Base.{
  Bool, Option, String, arith, false, if◌then◌else◌, none, refl, some, true, ℕ, ◌↔◌, ◌≡◌,
}
use cherupi_v4l.Base.Int.{max_zero, pos, ℤ}
use cherupi_v4l.Base.Result.{>>=-eq-ok, Result, err, ok, ◌>>=◌}
use cherupi_v4l.Types.{ProcessMode}
use cherupi_v4l.Command.{parse_process_mode}
use cherupi_v4l.Command.Json.{Json}

pub record CameraConfig : Type 0 where
  pub width : ℕ
  pub height : ℕ

-- ProcessConfig of src/types.hpp; `D` is the type of `float`.
pub record ProcessConfig (D : Type 0) : Type 0 where
  pub mode : ProcessMode
  pub save_frames : Bool
  pub output_dir : String
  pub prepend_timestamp_to_dir : Bool
  pub batch_size : ℕ
  pub writer_threads : ℕ
  pub checkerboard_rows : ℤ
  pub checkerboard_cols : ℤ
  pub checkerboard_full_res_detection : Bool
  pub checkerboard_num_threads : ℤ
  pub aruco_full_res_detection : Bool
  pub aruco_num_threads : ℤ
  pub aruco_corner_refine : Bool
  pub aruco_edge_refine : Bool
  pub aruco_edge_gamma : D
  pub backlog_max_bytes : ℕ
  pub disk_write_bytes_per_sec : ℕ
  pub allow_overcommit : Bool
  pub trigger_skip_frames : ℕ

-- The member initialisers of ProcessConfig.
abbrev pub default_config : {D : Type 0} → D → ProcessMode → ProcessConfig D
default_config gamma mode = record {
  mode = mode;
  save_frames = true;
  output_dir = ".";
  prepend_timestamp_to_dir = false;
  batch_size = 10;
  writer_threads = 4;
  checkerboard_rows = pos 8;
  checkerboard_cols = pos 11;
  checkerboard_full_res_detection = false;
  checkerboard_num_threads = pos 4;
  aruco_full_res_detection = false;
  aruco_num_threads = pos 4;
  aruco_corner_refine = false;
  aruco_edge_refine = true;
  aruco_edge_gamma = gamma;
  backlog_max_bytes = 0;
  disk_write_bytes_per_sec = 0;
  allow_overcommit = false;
  trigger_skip_frames = 0;
}

-- `if (params.contains(k)) field = params[k];`, where a conversion that fails throws.
abbrev assigned {ℓ κ} : {V : Type ℓ} {A : Type κ} → Option V → (V → Option A) → A → Result A
assigned none convert old = ok old
assigned (some v) convert old = elim (convert v) [ none ↦ err "type_error" | some a ↦ ok a ]

-- `if (params.contains(k) && params[k].is_T()) field = params[k].get<T>();`
abbrev if_typed {ℓ κ} : {V : Type ℓ} {A : Type κ} → Option V → (V → Option A) → A → A
if_typed none query old = old
if_typed (some v) query old = elim (query v) [ none ↦ old | some a ↦ a ]

module _ (J : Json) where
  open J use {Value, Double, field, string, boolean, integer, unsigned, number}
  open J use {to_int, to_size, to_u32, lt, of_ℕ, to_float, gamma_default}

  unfoldable pub build_camera_config : Value → Result CameraConfig
  build_camera_config params = do
    width ← assigned (field params "width") to_u32 2328
    height ← assigned (field params "height") to_u32 1748
    ok (record { width = width; height = height })

  unfoldable pub build_sensor_filter : Value → String
  build_sensor_filter params = if_typed (field params "sensor") string "imx519"

  -- A non-positive exponent is taken for 1.
  read_gamma : Value → Option Double
  read_gamma v = elim (number v) [
    | none ↦ none
    | some g ↦ some (if lt (of_ℕ 0) g then to_float g else of_ℕ 1)
  ]

  read_skip : Value → Option ℕ
  read_skip v = elim (integer v) [
    | none ↦ none
    | some z ↦ elim (to_int v) [ none ↦ none | some n ↦ some (max_zero n) ]
  ]

  read_output : Value → ProcessConfig Double → Result (ProcessConfig Double)
  read_output params c = do
    output_dir ← assigned (field params "output_dir") string c.output_dir
    prepend ← assigned (field params "prepend_timestamp_to_dir") boolean c.prepend_timestamp_to_dir
    batch_size ← assigned (field params "batch_size") to_size c.batch_size
    writer_threads ← assigned (field params "writer_threads") to_size c.writer_threads
    ok (record c {
      save_frames = if_typed (field params "save_frames") boolean c.save_frames;
      output_dir = output_dir;
      prepend_timestamp_to_dir = prepend;
      batch_size = batch_size;
      writer_threads = writer_threads;
    })

  read_checkerboard : Value → ProcessConfig Double → Result (ProcessConfig Double)
  read_checkerboard params c = do
    rows ← assigned (field params "checkerboard_rows") to_int c.checkerboard_rows
    cols ← assigned (field params "checkerboard_cols") to_int c.checkerboard_cols
    full_res ←
        assigned (field params "checkerboard_full_res_detection") boolean
          c.checkerboard_full_res_detection
    threads ← assigned (field params "checkerboard_num_threads") to_int c.checkerboard_num_threads
    ok (record c {
      checkerboard_rows = rows;
      checkerboard_cols = cols;
      checkerboard_full_res_detection = full_res;
      checkerboard_num_threads = threads;
    })

  read_aruco : Value → ProcessConfig Double → Result (ProcessConfig Double)
  unfolding read_gamma
  read_aruco params c = do
    full_res ← assigned (field params "aruco_full_res_detection") boolean c.aruco_full_res_detection
    threads ← assigned (field params "aruco_num_threads") to_int c.aruco_num_threads
    corner_refine ← assigned (field params "aruco_corner_refine") boolean c.aruco_corner_refine
    edge_refine ← assigned (field params "aruco_edge_refine") boolean c.aruco_edge_refine
    ok (record c {
      aruco_full_res_detection = full_res;
      aruco_num_threads = threads;
      aruco_corner_refine = corner_refine;
      aruco_edge_refine = edge_refine;
      aruco_edge_gamma = if_typed (field params "aruco_edge_gamma") read_gamma c.aruco_edge_gamma;
    })

  read_guards : Value → ProcessConfig Double → ProcessConfig Double
  unfolding read_skip
  read_guards params c = record c {
    trigger_skip_frames =
        if_typed (field params "trigger_skip_frames") read_skip c.trigger_skip_frames;
    backlog_max_bytes = if_typed (field params "backlog_max_bytes") unsigned c.backlog_max_bytes;
    disk_write_bytes_per_sec =
        if_typed (field params "disk_write_bytes_per_sec") unsigned c.disk_write_bytes_per_sec;
    allow_overcommit = if_typed (field params "allow_overcommit") boolean c.allow_overcommit;
  }

  read_params : Value → ProcessConfig Double → Result (ProcessConfig Double)
  read_params params c = do
    with_output ← read_output params c
    with_board ← read_checkerboard params with_output
    with_aruco ← read_aruco params with_board
    ok (read_guards params with_aruco)

  pub mode_field : Value → Option ProcessMode
  mode_field message = elim (field message "mode") [
    | none ↦ none
    | some v ↦ elim (string v) [ none ↦ none | some s ↦ parse_process_mode s ]
  ]

  configured_from : Option Value → ProcessConfig Double → Result (ProcessConfig Double)
  configured_from none c = ok c
  configured_from (some params) c = read_params params c

  configured_as : Option ProcessMode → Option Value → Result (Option (ProcessConfig Double))
  configured_as none params = ok none
  configured_as (some mode) params =
      configured_from params (default_config gamma_default mode) >>= λ c. ok (some c)

  -- `ok none` is std::nullopt, and `err` an exception of the JSON library.
  pub build_process_config : Value → Result (Option (ProcessConfig Double))
  build_process_config message = configured_as (mode_field message) (field message "params")

  read_output-mode :
      (v : Value) (c d : ProcessConfig Double) → read_output v c ≡ ok d → d.mode ≡ c.mode
  unfolding read_output
  read_output-mode v c d h = ground arith

  read_checkerboard-mode :
      (v : Value) (c d : ProcessConfig Double) → read_checkerboard v c ≡ ok d → d.mode ≡ c.mode
  unfolding read_checkerboard
  read_checkerboard-mode v c d h = ground arith

  read_aruco-mode :
      (v : Value) (c d : ProcessConfig Double) → read_aruco v c ≡ ok d → d.mode ≡ c.mode
  unfolding read_aruco
  read_aruco-mode v c d h = ground arith

  read_params-mode :
      (v : Value) (c d : ProcessConfig Double) → read_params v c ≡ ok d → d.mode ≡ c.mode
  unfolding read_params read_guards
  read_params-mode v c d h =
      let (c₁, e₁, h₁) = >>=-eq-ok (read_output v c) _ h in
      let (c₂, e₂, h₂) = >>=-eq-ok (read_checkerboard v c₁) _ h₁ in
      let (c₃, e₃, h₃) = >>=-eq-ok (read_aruco v c₂) _ h₂ in
      ground
        (arith, read_output-mode v c c₁, read_checkerboard-mode v c₁ c₂, read_aruco-mode v c₂ c₃)

  configured_from-mode :
      (o : Option Value) (c d : ProcessConfig Double) → configured_from o c ≡ ok d → d.mode ≡ c.mode
  unfolding configured_from
  configured_from-mode none c d h = ground arith
  configured_from-mode (some v) c d h = read_params-mode v c d h

  configured_as-mode :
      (m : Option ProcessMode) (o : Option Value)
      → ((configured_as m o ≡ ok none) ↔ (m ≡ none))
        × ((c : ProcessConfig Double) → configured_as m o ≡ ok (some c) → m ≡ some c.mode)
  unfolding configured_as
  configured_as-mode none o = ((λ _. refl, λ _. refl), λ c h. cc)
  configured_as-mode (some m) o = ((λ h. some_case h, λ h. cc), λ c h. built c h)
    where
      some_case :
          (configured_from o (default_config gamma_default m) >>= λ c. ok (some c)) ≡ ok none
          → some m ≡ none
      some_case h =
          let (c, _, e) = >>=-eq-ok (configured_from o (default_config gamma_default m)) _ h in cc

      built :
          (c : ProcessConfig Double)
          → (configured_from o (default_config gamma_default m) >>= λ c. ok (some c)) ≡ ok (some c)
          → some m ≡ some c.mode
      built c h =
          let (d, e, k) = >>=-eq-ok (configured_from o (default_config gamma_default m)) _ h in
          ground (arith, configured_from-mode o (default_config gamma_default m) d)

  -- No configuration is built exactly when the mode is missing or unknown, and a configuration that
  -- is built has the mode that the message names.
  build_process_config-mode :
      (message : Value)
      → ((build_process_config message ≡ ok none) ↔ (mode_field message ≡ none))
        × ((c : ProcessConfig Double)
            → build_process_config message ≡ ok (some c)
            → mode_field message ≡ some c.mode)
  unfolding build_process_config
  build_process_config-mode message =
      configured_as-mode (mode_field message) (field message "params")
