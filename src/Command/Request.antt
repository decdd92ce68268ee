-- ===== src/Command/Request.antt =====
-- buildStreamRequest of src/command_parser.cpp: the fields of start_stream and stop_stream.
use cherupi_v4l.Base.{
  Bool, Option, String, ap, arith, false, if◌then◌else◌, inl, ltb, none, not, refl, some, true, ℕ,
  ◌%◌, ◌&&◌, ◌+◌, ◌<◌, ◌==◌, ◌^◌, ◌||◌, ◌≡◌, ◌⊎◌,
}
use cherupi_v4l.Base.Int.{negsuc, pos, to_uint32, ℤ}
use cherupi_v4l.Base.Result.{>>=-eq-ok, Result, err, ok, require, ◌>>=◌, ◌>>◌}
use cherupi_v4l.Command.Json.{Json}

-- StreamOptions of src/types.hpp; `D` is the type of `double`.
pub record StreamOptions (D : Type 0) : Type 0 where
  pub max_fps : D
  pub subsample : ℕ

pub record StreamRequest (D : Type 0) : Type 0 where
  pub camera_id : ℕ
  pub options : StreamOptions D

abbrev or_error {ℓ} : {A : Type ℓ} → Option A → String → Result A
or_error none e = err e
or_error (some a) e = ok a

-- isValidFactor of src/frame_subsample.hpp.
unfoldable pub is_valid_factor : ℕ → Bool
is_valid_factor factor = factor == 1 || factor == 2 || factor == 4 || factor == 8

-- The camera id is cast from int64_t to uint32_t.
unfoldable pub check_camera : ℤ → Result ℕ
check_camera (negsuc n) = err "camera_id must be non-negative"
check_camera (pos n) = ok (to_uint32 (pos n))

unfoldable pub check_subsample : Option ℤ → Result ℕ
unfolding is_valid_factor
check_subsample none = err "subsample must be 1, 2, 4 or 8"
check_subsample (some (negsuc n)) = err "subsample must be 1, 2, 4 or 8"
check_subsample (some (pos n)) =
    if ltb n 1 || ltb 8 n
    then err "subsample must be 1, 2, 4 or 8"
    else if is_valid_factor (n % 2 ^ 32)
    then ok (n % 2 ^ 32)
    else err "subsample must be 1, 2, 4 or 8"

module _ (J : Json) where
  open J use {Value, Double, field, integer, number, le, lt, of_ℕ}

  unfoldable pub integer_field : Option Value → Option ℤ
  integer_field none = none
  integer_field (some v) = integer v

  unfoldable pub fps_in_range : Double → Bool
  fps_in_range fps = le (of_ℕ 0) fps && not (lt (of_ℕ 1000) fps)

  unfoldable pub read_max_fps : Option Value → Result Double
  unfolding fps_in_range
  read_max_fps none = ok (of_ℕ 0)
  read_max_fps (some v) = do
    fps ← or_error (number v) "max_fps must be a number"
    require (fps_in_range fps) "max_fps out of range (expected 0 for uncapped, or (0, 1000])"
    ok fps

  unfoldable pub read_subsample : Option Value → Result ℕ
  unfolding check_subsample
  read_subsample none = ok 1
  read_subsample (some v) = check_subsample (integer v)

  unfoldable pub build_stream_request : Value → Result (StreamRequest Double)
  build_stream_request message = do
    requested ←
        or_error (integer_field (field message "camera_id"))
          "Missing or non-integer 'camera_id' field"
    camera_id ← check_camera requested
    max_fps ← read_max_fps (field message "max_fps")
    subsample ← read_subsample (field message "subsample")
    ok (record {
      camera_id = camera_id;
      options = record { max_fps = max_fps; subsample = subsample };
    })

  -- What an accepted request promises: a 32-bit camera id, a decimation factor of 1, 2, 4 or 8 and
  -- a rate from 0 to 1000.
  pub record IsWellFormed (r : StreamRequest Double) : Type 0 where
    pub id_fits : r.camera_id < 2 ^ 32
    pub factor_valid :
        (r.options.subsample ≡ 1)
        ⊎ (r.options.subsample ≡ 2)
        ⊎ (r.options.subsample ≡ 4)
        ⊎ (r.options.subsample ≡ 8)
    pub rate_valid :
        (r.options.max_fps ≡ of_ℕ 0)
        ⊎ ((le (of_ℕ 0) r.options.max_fps ≡ true) × (lt (of_ℕ 1000) r.options.max_fps ≡ false))

  read_max_fps-valid :
      (o : Option Value) (fps : Double)
      → read_max_fps o ≡ ok fps
      → (fps ≡ of_ℕ 0) ⊎ ((le (of_ℕ 0) fps ≡ true) × (lt (of_ℕ 1000) fps ≡ false))
  unfolding read_max_fps fps_in_range
  read_max_fps-valid none fps h = inl (ground arith)
  read_max_fps-valid (some v) fps h = ground arith

  read_subsample-valid :
      (o : Option Value) (n : ℕ) → read_subsample o ≡ ok n → (n ≡ 1) ⊎ (n ≡ 2) ⊎ (n ≡ 4) ⊎ (n ≡ 8)
  unfolding read_subsample check_subsample is_valid_factor
  read_subsample-valid none n h = ground arith
  read_subsample-valid (some v) n h = ground arith

  check_camera-fits : (z : ℤ) (n : ℕ) → check_camera z ≡ ok n → n < 2 ^ 32
  unfolding check_camera
  check_camera-fits (negsuc k) n h = cc
  check_camera-fits (pos k) n h = ground arith

  -- Every accepted request has a camera id of 32 bits, a decimation factor of 1, 2, 4 or 8, and a rate
  -- of 0 or one that is not below 0 and not above 1000.
  pub build_stream_request-IsWellFormed :
      (message : Value) (r : StreamRequest Double)
      → build_stream_request message ≡ ok r
      → IsWellFormed r
  unfolding build_stream_request
  build_stream_request-IsWellFormed message r h =
      let (z, _, hz) = >>=-eq-ok (or_error (integer_field (field message "camera_id")) _) _ h in
      let (c, ec, hc) = >>=-eq-ok (check_camera z) _ hz in
      let (fps, ef, hf) = >>=-eq-ok (read_max_fps (field message "max_fps")) _ hc in
      let (n, en, hn) = >>=-eq-ok (read_subsample (field message "subsample")) _ hf in
      ground (
        arith,
        check_camera-fits z c,
        read_max_fps-valid (field message "max_fps") fps,
        read_subsample-valid (field message "subsample") n,
      )

  check_camera-wraps : (n : ℕ) → check_camera (pos (n + 2 ^ 32)) ≡ check_camera (pos n)
  unfolding check_camera
  check_camera-wraps n = ap ok (ground arith)

  -- A request for camera n + 2^32 is treated as one for camera n is: where two messages agree on
  -- max_fps and subsample, and name these cameras, both are refused alike or lead to the same request.
  pub build_stream_request-wraps :
      (low high v w : Value) (n : ℕ)
      → field low "camera_id" ≡ some v
      → field high "camera_id" ≡ some w
      → integer v ≡ some (pos n)
      → integer w ≡ some (pos (n + 2 ^ 32))
      → field high "max_fps" ≡ field low "max_fps"
      → field high "subsample" ≡ field low "subsample"
      → build_stream_request high ≡ build_stream_request low
  unfolding build_stream_request integer_field
  build_stream_request-wraps low high v w n hl hh el eh fps factor =
      rw (hl, hh, el, eh, fps, factor, check_camera-wraps n) refl
