-- ===== src/Detect/Luma.antt =====
-- extractYFromYUV420 of src/frame_processor_helpers.cpp: the luma plane of a frame, whole or every
-- second pixel of every second row. The sizes fit an int. A read outside of the frame's bytes, which
-- the code does not guard against, answers `none`.
use cherupi_v4l.Base.{
  Bool, List, Option, [], drop, get_elem?, if◌then◌else◌, leb, length, none, replicate, some, suc,
  take, zero, ℕ, ◌*◌, ◌++◌, ◌+◌, ◌/◌, ◌==◌, ◌||◌, ◌∷◌,
}
use cherupi_v4l.Types.{FrameData}

-- memcpy of `count` bytes from `at` on.
unfoldable pub whole_row : List ℕ → ℕ → ℕ → Option (List ℕ)
whole_row src at count =
    if leb (at + count) (length src) then some (take count (drop at src)) else none

unfoldable pub add_byte : Option ℕ → Option (List ℕ) → Option (List ℕ)
add_byte (some b) (some bs) = some (b ∷ bs)
add_byte (some b) none = none
add_byte none bs = none

-- dst[col] = src[col * 2], for the columns from `col` on.
unfoldable pub half_row : List ℕ → ℕ → ℕ → ℕ → Option (List ℕ)
unfolding add_byte
half_row src at col zero = some []
half_row src at col (suc n) = add_byte (get_elem? src (at + col * 2)) (half_row src at (suc col) n)

unfoldable pub joined_rows : Option (List ℕ) → Option (List ℕ) → Option (List ℕ)
joined_rows (some r) (some rs) = some (r ++ rs)
joined_rows (some r) none = none
joined_rows none rs = none

-- The rows go one behind the other into the plane.
unfoldable pub whole_rows : FrameData → ℕ → ℕ → Option (List ℕ)
unfolding joined_rows
whole_rows frame row zero = some []
whole_rows frame row (suc n) =
    joined_rows (whole_row frame.bytes (row * frame.bytes_per_line) frame.width)
      (whole_rows frame (suc row) n)

unfoldable pub half_rows : FrameData → ℕ → ℕ → Option (List ℕ)
unfolding joined_rows
half_rows frame row zero = some []
half_rows frame row (suc n) =
    joined_rows (half_row frame.bytes (row * 2 * frame.bytes_per_line) 0 (frame.width / 2))
      (half_rows frame (suc row) n)

-- The width and the height of the plane.
unfoldable pub plane_size : Bool → ℕ → ℕ
plane_size full_res n = if full_res then n else n / 2

unfoldable pub extract_y : FrameData → Bool → Option (List ℕ)
extract_y frame full_res =
    if (length frame.bytes == 0) || (frame.bytes_per_line == 0)
    then some (replicate (plane_size full_res frame.width * plane_size full_res frame.height) 0)
    else if full_res
    then whole_rows frame 0 frame.height
    else half_rows frame 0 (frame.height / 2)
