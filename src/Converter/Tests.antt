-- ===== src/Converter/Tests.antt =====
-- The converter at concrete files. A Mat is its rows, each a list of bytes.
use cherupi_v4l.Base.{
  Bool, List, [], arith, get_or, if◌then◌else◌, length, ltb, none, refl, replicate, some, true, ℕ,
  ◌*◌, ◌++◌, ◌+◌, ◌-◌, ◌<◌, ◌∷◌, ◌≡◌, ◌≤◌, ◌⊎◌,
}
use cherupi_v4l.Converter.Batch.{
  Task, fetched, run_batch, set_worker, start_batch, step_worker, succeeds,
}
use cherupi_v4l.Converter.Decode.{
  Config, Conversion, OpenCv, expected_data, i420_size, pack_i420, returns, throws,
}
use cherupi_v4l.Converter.Names.{parse_yuv_stem-make_filename}
use cherupi_v4l.Converter.Number.{read_digits, read_signed, read_unsigned, stoul}
use cherupi_v4l.Converter.Packing.{pack_i420-eq}
use cherupi_v4l.Converter.Progress.{IsActiveRun, run_batch-finishes}
use cherupi_v4l.Converter.Quadrants.{quad_image, quad_rect}
use cherupi_v4l.Converter.Rotation.{IsDocumented, quad_image-rotated}
use cherupi_v4l.Converter.Stem.{parse_yuv_stem, split_first, stem}
use cherupi_v4l.Converter.Workers.{
  AllDone, fails_count, occurs, run_batch-eq, succeeds_count, sum_below, sum_of,
}
use cherupi_v4l.Processor.Filename.{make_filename}

parse_yuv_stem-make_filename_example :
    parse_yuv_stem (stem (make_filename (b'/' ∷ b't' ∷ b'.' ∷ b'd' ∷ []) 12 40007))
    ≡ some (12, 40007)
parse_yuv_stem-make_filename_example =
    parse_yuv_stem-make_filename (b'/' ∷ b't' ∷ b'.' ∷ b'd' ∷ []) 12 40007 (omega arith)
      (omega arith)

-- A stem without a dash, and one whose number is none.
parse_fails :
    (parse_yuv_stem (b'c' ∷ b'a' ∷ b'm' ∷ b'1' ∷ []) ≡ none)
    × (parse_yuv_stem (b'c' ∷ b'a' ∷ b'm' ∷ b'-' ∷ b'1' ∷ []) ≡ none)
unfolding parse_yuv_stem split_first stoul read_signed read_unsigned read_digits
parse_fails = (refl, refl)

-- Four columns and two rows, of which three columns are valid.
abbrev small : Config
small = record { width = 3; height = 2; stride = 4; rotate180 = true; split2x2 = true }

abbrev bytes : List ℕ
bytes = 1 ∷ 2 ∷ 3 ∷ 4 ∷ 5 ∷ 6 ∷ 7 ∷ 8 ∷ 9 ∷ 10 ∷ 11 ∷ 12 ∷ []

sizes_agree : length bytes ≡ expected_data small
unfolding expected_data
sizes_agree = refl

pack_i420-eq_example :
    pack_i420 small bytes ≡ some (bytes ++ replicate (i420_size small - length bytes) 0)
pack_i420-eq_example = pack_i420-eq small bytes sizes_agree

abbrev Mat : Type 0
Mat = ℕ × ℕ × (ℕ → ℕ → ℕ)

abbrev plain_cv : OpenCv Mat
plain_cv = record {
  rows = λ m. m.0;
  cols = λ m. m.1;
  view = λ r c bs pitch. some (r, c, λ i j. get_or bs (i * pitch + j) 0);
  to_bgr = λ r c bs. some (r, c, λ i j. get_or bs (i * c + j) 0);
  crop = λ roi m. (roi.high, roi.wide, λ i j. m.2 (roi.y + i) (roi.x + j));
  rotate = λ m. (m.0, m.1, λ i j. m.2 (m.0 - 1 - i) (m.1 - 1 - j));
  writes = λ path m. some true;
}

plain_cv-IsDocumented : IsDocumented plain_cv (λ m. m.2)
plain_cv-IsDocumented = record {
  crop_rows = λ r m h. refl;
  crop_cols = λ r m h. refl;
  crop_pixel = λ r m i j h p q. refl;
  rotate_rows = λ m. refl;
  rotate_cols = λ m. refl;
  rotate_pixel = λ m i j p q. refl;
}

abbrev picture : Mat
picture = (4, 6, λ i j. i * 6 + j)

quadrant_high : 1 < (quad_rect 6 4 1).high
unfolding quad_rect
quadrant_high = omega arith

quadrant_wide : 2 < (quad_rect 6 4 1).wide
unfolding quad_rect
quadrant_wide = omega arith

quad_image-rotated_example :
    let rect = quad_rect 6 4 in
    ((rect (3 - 1)).wide ≡ (rect 1).wide)
    × ((rect (3 - 1)).high ≡ (rect 1).high)
    × ((quad_image plain_cv small picture 1).2 1 2
        ≡ (plain_cv.crop (rect (3 - 1)) (plain_cv.rotate picture)).2 1 2)
quad_image-rotated_example =
    quad_image-rotated plain_cv (λ m. m.2) small picture 1 1 2 plain_cv-IsDocumented refl refl refl
      (omega arith) quadrant_high quadrant_wide

-- Three tasks, of which the one with the empty path throws, and two workers.
abbrev tries : Task → Conversion Bool
tries task = if ltb 0 (length task.input) then returns true else throws

abbrev tasks : List Task
tasks =
    record { input = 1 ∷ []; output = 2 ∷ [] }
    ∷ record { input = []; output = 3 ∷ [] }
    ∷ record { input = 4 ∷ []; output = 5 ∷ [] }
    ∷ []

abbrev schedule : List ℕ
schedule = 0 ∷ 1 ∷ 1 ∷ 1 ∷ 0 ∷ 1 ∷ 0 ∷ 1 ∷ []

both_done : AllDone (run_batch tries tasks schedule (start_batch 2)).workers
unfolding run_batch step_worker fetched set_worker start_batch succeeds
both_done = (refl, (refl, tt))

run_batch-eq_example :
    let b = run_batch tries tasks schedule (start_batch 2) in
    (sum_of (occurs 1) b.finished ≡ (if ltb 1 3 then 1 else 0))
    × (b.ok_count ≡ sum_below (succeeds_count tries tasks) 3)
    × (b.fail_count ≡ sum_below (fails_count tries tasks) 3)
    × (b.ok_count + b.fail_count ≡ 3)
run_batch-eq_example = run_batch-eq tries tasks 2 schedule 1 (omega arith) both_done

always_active : IsActiveRun tries tasks schedule (start_batch 2)
unfolding step_worker fetched set_worker start_batch succeeds
always_active = omega arith

run_batch-finishes_example :
    (length schedule ≤ 2 * length tasks + 2)
    × ((length schedule < 2 * length tasks + 2)
        ⊎ AllDone (run_batch tries tasks schedule (start_batch 2)).workers)
run_batch-finishes_example = run_batch-finishes tries tasks 2 schedule always_active
