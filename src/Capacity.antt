-- ===== src/Capacity.antt =====
-- src/capacity.cpp without its I/O: the resource arithmetic. A rate in frames per second is kept as
-- the period in microseconds that it is computed from. The test `seconds >= 2.0`, which the source makes
-- on a quotient of type `double`, is an argument, `lasts`. The text of a refusal is left out.
use cherupi_v4l.Base.{Bool, arith, if◌then◌else◌, leb, ltb, not, true, ℕ, ◌*◌, ◌/◌, ◌==◌, ◌||◌, ◌≤◌}
use cherupi_v4l.Base.Int.{max_zero, ℤ}
use cherupi_v4l.Types.{ProcessMode, is_batch, is_buffer}

abbrev pub mib : ℕ
mib = 1024 * 1024

unfoldable pub frame_bytes : ℕ → ℕ → ℕ
frame_bytes width height = width * height * 3 / 2

unfoldable pub clamp : ℕ → ℕ → ℕ → ℕ
clamp v lo hi = if ltb v lo then lo else if ltb hi v then hi else v

unfoldable pub default_backlog_budget_bytes : ℕ → ℕ
default_backlog_budget_bytes mem_available =
    if mem_available == 0 then 64 * mib else clamp (mem_available / 2) (64 * mib) (2048 * mib)

pub record Demand : Type 0 where
  pub bytes_per_frame : ℕ
  pub period_us : ℕ  -- of frames_per_second; 0 when that is 0
  pub camera_count : ℕ
  pub bytes_per_second : ℕ

-- A duration is an int64_t, of which the source uses the positive ones.
unfoldable pub compute_demand : ℕ → ℕ → ℕ → ℤ → ℤ → Demand
compute_demand width height cameras frame_duration_us hw_min_frame_duration_us =
    let bytes = frame_bytes width height in
    let locked = max_zero frame_duration_us in
    let period = if ltb 0 locked then locked else max_zero hw_min_frame_duration_us in
    record {
      bytes_per_frame = bytes;
      period_us = period;
      camera_count = cameras;
      bytes_per_second =
          if period == 0
          then 0
          else bytes * 1000000 * (if cameras == 0 then 1 else cameras) / period;
    }

unfoldable pub check_disk_throughput : ProcessMode → Bool → Demand → ℕ → Bool
check_disk_throughput mode save_frames demand disk_bytes_per_second =
    if not (is_batch mode) || not save_frames
    then true
    else if (demand.bytes_per_second == 0) || (disk_bytes_per_second == 0)
    then true
    else leb demand.bytes_per_second disk_bytes_per_second

-- `lasts budget rate` says whether the budget over the rate is at least two seconds.
unfoldable pub check_buffer_headroom : (ℕ → ℕ → Bool) → ProcessMode → Bool → Demand → ℕ → Bool
check_buffer_headroom lasts mode save_frames demand budget_bytes =
    if not (is_buffer mode) || not save_frames
    then true
    else if (demand.bytes_per_frame == 0) || (budget_bytes == 0)
    then true
    else if demand.bytes_per_second == 0
    then true
    else lasts budget_bytes demand.bytes_per_second

-- The default budget is between 64 MiB and 2 GiB, and takes at most half of the available memory
-- unless that is below 128 MiB.
default_backlog_budget_bytes-bounds :
    (mem_available : ℕ)
    → let budget = default_backlog_budget_bytes mem_available in
      (64 * mib ≤ budget)
      × (budget ≤ 2048 * mib)
      × (128 * mib ≤ mem_available → 2 * budget ≤ mem_available)
unfolding default_backlog_budget_bytes clamp
default_backlog_budget_bytes-bounds mem_available = ground arith
