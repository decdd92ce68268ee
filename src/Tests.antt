-- ===== src/Tests.antt =====
-- The small components at concrete values.
use mathlib.Core.List.Memᴰ.{head}
use cherupi_v4l.Base.{
  List, [], arith, ltb, refl, replicate, some, ℕ, ◌*◌, ◌++◌, ◌+◌, ◌/◌, ◌∷◌, ◌≡◌, ◌≤◌,
}
use cherupi_v4l.Focus.{fom_region, fom_region-fits}
use cherupi_v4l.Sensor.{
  IsOf, RawFormat, Selection, bit_depth_of, has_size, read_number, select_raw_mode,
  select_raw_mode-best, skip_to_digit,
}
use cherupi_v4l.Subsample.{
  block_sum, decimate_plane, decimated_byte, decimated_row, decimated_rows, even_below,
  needed_bytes, row_sum, subsample_yuv420, subsampled_geometry, subsampled_planes,
}
use cherupi_v4l.Types.{FrameData}
use cherupi_v4l.Rate.{
  Controller, Doubles, IsBounded, IsOrdered, RateEvent, observe_all, observe_all-IsBounded,
  pressed_at, resets, sent_at,
}

fom_region-fits_example :
    let r = fom_region 4608 2592 2304 1296 8 in
    (r.sensor.x + r.sensor.rect_width ≤ 4608)
    × (r.sensor.y + r.sensor.rect_height ≤ 2592)
    × (r.in_frame.x + r.in_frame.rect_width ≤ 2304)
    × (r.in_frame.y + r.in_frame.rect_height ≤ 1296)
fom_region-fits_example =
    fom_region-fits 4608 2592 2304 1296 8 (omega arith) (omega arith) (omega arith) (omega arith)
      (omega arith) (omega arith) (omega arith)

-- SBGGR10 reaches the size.
abbrev bggr10 : RawFormat
bggr10 = record {
  name = 83 ∷ 66 ∷ 71 ∷ 71 ∷ 82 ∷ 49 ∷ 48 ∷ [];
  sizes = (640, 480) ∷ (1536, 864) ∷ [];
}

abbrev bggr8 : RawFormat
bggr8 = record { name = 83 ∷ 66 ∷ 71 ∷ 71 ∷ 82 ∷ 56 ∷ []; sizes = (640, 480) ∷ [] }

select_raw_mode-best_example :
    (s : Selection) × (select_raw_mode ((bggr8 ∷ []) ++ bggr10 ∷ []) 640 480 ≡ some s)
    × IsOf (bggr8 ∷ bggr10 ∷ []) 640 480 s
    × (bit_depth_of bggr10.name ≤ s.bit_depth)
unfolding has_size bit_depth_of skip_to_digit read_number
select_raw_mode-best_example =
    select_raw_mode-best (bggr8 ∷ []) [] bggr10 640 480 (head refl) (omega arith)

-- Rates in tenths, as whole numbers.
abbrev tenths : Doubles
tenths = record {
  Double = ℕ;
  lt = ltb;
  times = λ a b. a * b / 100;
  smooth = λ a b. (7 * a + 3 * b) / 10;
  min_rate = 500;
  max_rate = 40000;
  increase = 110;
  decrease = 50;
  sharp_decrease = 35;
}

tenths-IsOrdered : IsOrdered tenths
tenths-IsOrdered = record {
  irreflexive = λ a. ground arith;
  asymmetric = λ a b h. ground arith;
  bounds_apart = refl;
}

abbrev new_controller : Controller tenths
new_controller = record {
  chunk_send_times = [];
  last_backpressure_time = 0;
  current_rate = 40000;
  smoothed_rate = 40000;
  consecutive_successes = 0;
  backpressure_events = 0;
}

new_controller-IsBounded : IsBounded tenths new_controller
new_controller-IsBounded = record {
  not_slow = refl;
  not_fast = refl;
  few_times = omega arith;
  few_successes = omega arith;
}

abbrev rate_events : List RateEvent
rate_events = sent_at 10000 ∷ pressed_at 10005 ∷ pressed_at 10400 ∷ sent_at 10500 ∷ resets ∷ []

observe_all-IsBounded_example : IsBounded tenths (observe_all tenths rate_events new_controller)
observe_all-IsBounded_example =
    observe_all-IsBounded tenths tenths-IsOrdered rate_events new_controller
      new_controller-IsBounded

-- Four by four samples, and two planes of two by two.
abbrev small_frame : FrameData
small_frame = record {
  bytes = replicate 24 10;
  frame_id = 1;
  camera_id = 0;
  width = 4;
  height = 4;
  bytes_per_line = 4;
  pixel_format = 0;
  timestamp_us = 0;
  frame_duration_us = 0;
  lens_position = 0;
  af_state = 255;
  focus_fom = 0;
}

subsample_yuv420-small : (subsample_yuv420 small_frame 2).bytes ≡ replicate 6 10
unfolding subsample_yuv420 subsampled_planes needed_bytes subsampled_geometry even_below
    decimate_plane decimated_rows decimated_row decimated_byte block_sum row_sum
subsample_yuv420-small = refl
