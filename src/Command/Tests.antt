-- ===== src/Command/Tests.antt =====
-- The command parser at concrete messages, with a small document type for the JSON library.
use Prim.Native.String.{String}
use text.Mathlib.Text.{◌==◌ as str_eq}
use cherupi_v4l.Base.{Option, String, if◌then◌else◌, leb, ltb, none, refl, some, ℕ, ◌≡◌}
use cherupi_v4l.Base.Int.{pos, ℤ}
use cherupi_v4l.Command.Json.{Json}
use cherupi_v4l.Command.Request.{
  IsWellFormed, build_stream_request, build_stream_request-IsWellFormed, build_stream_request-wraps,
  check_camera, check_subsample, fps_in_range, integer_field, is_valid_factor, read_max_fps,
  read_subsample,
}

data Doc : Type 0 where
  no_entries : Doc
  entry : String → Doc → Doc → Doc
  word : String → Doc
  whole : ℤ → Doc

abbrev doc_field : Doc → String → Option Doc
doc_field (entry k v rest) key = if str_eq k key then some v else doc_field rest key
doc_field other key = none

abbrev doc_string : Doc → Option String
doc_string (word s) = some s
doc_string other = none

abbrev doc_integer : Doc → Option ℤ
doc_integer (whole z) = some z
doc_integer other = none

abbrev doc_unsigned : Doc → Option ℕ
doc_unsigned (whole (pos n)) = some n
doc_unsigned other = none

-- `double` holds the whole numbers here.
abbrev docs : Json
docs = record {
  Value = Doc;
  Double = ℕ;
  parse = λ s. some (word s);
  field = doc_field;
  string = doc_string;
  boolean = λ v. none;
  integer = doc_integer;
  unsigned = doc_unsigned;
  number = doc_unsigned;
  to_int = doc_integer;
  to_size = doc_unsigned;
  to_u32 = doc_unsigned;
  le = leb;
  lt = ltb;
  of_ℕ = λ n. n;
  to_float = λ n. n;
  gamma_default = 2;
}

abbrev stream_message : Doc
stream_message =
    entry "camera_id" (whole (pos 3))
      (entry "max_fps" (whole (pos 30)) (entry "subsample" (whole (pos 4)) no_entries))

abbrev small_message : Doc
small_message = entry "camera_id" (whole (pos 2)) no_entries

abbrev large_message : Doc
large_message = entry "camera_id" (whole (pos 4294967298)) no_entries

build_stream_request-IsWellFormed_example :
    IsWellFormed docs (record { camera_id = 3; options = record { max_fps = 30; subsample = 4 } })
unfolding build_stream_request read_max_fps read_subsample check_subsample check_camera
    integer_field is_valid_factor fps_in_range
build_stream_request-IsWellFormed_example =
    build_stream_request-IsWellFormed docs stream_message
      (record { camera_id = 3; options = record { max_fps = 30; subsample = 4 } }) refl

build_stream_request-wraps_example :
    build_stream_request docs large_message ≡ build_stream_request docs small_message
build_stream_request-wraps_example =
    build_stream_request-wraps docs small_message large_message (whole (pos 2))
      (whole (pos 4294967298)) 2 refl refl refl refl refl refl
