-- ===== src/Converter/Quadrants.antt =====
-- writeQuadrants of src/tools/yuv420_convert.cpp.
use cherupi_v4l.Base.{
  Bool, List, Option, [], false, if◌then◌else◌, none, some, suc, true, zero, ℕ, ◌%◌, ◌&&◌, ◌*◌,
  ◌++◌, ◌+◌, ◌-◌, ◌/◌, ◌^◌, ◌∷◌,
}
use cherupi_v4l.Converter.Decode.{
  Config, Conversion, OpenCv, Roi, decode_yuv_frame, or_throw, returns, throws,
}
use cherupi_v4l.Converter.Stem.{extension, parse_yuv_stem, split_last, stem, wants_grayscale}
use cherupi_v4l.Processor.Filename.{decimal}

-- Left and top extents are halved, right and bottom take the rest.
unfoldable pub quad_rect : ℕ → ℕ → ℕ → Roi
quad_rect cols rows zero = record { x = 0; y = 0; wide = cols / 2; high = rows / 2 }
quad_rect cols rows (suc zero) = record {
  x = cols / 2;
  y = 0;
  wide = cols - cols / 2;
  high = rows / 2;
}
quad_rect cols rows (suc (suc zero)) = record {
  x = 0;
  y = rows / 2;
  wide = cols / 2;
  high = rows - rows / 2;
}
quad_rect cols rows (suc (suc (suc q))) = record {
  x = cols / 2;
  y = rows / 2;
  wide = cols - cols / 2;
  high = rows - rows / 2;
}

-- parent_path() / name: no slash is put before the name where there is no parent.
before_slash : Option (List ℕ × List ℕ) → List ℕ → List ℕ
before_slash none name = name
before_slash (some (dir, base)) name = dir ++ b'/' ∷ name

unfoldable pub beside : List ℕ → List ℕ → List ℕ
unfolding before_slash
beside path name = before_slash (split_last b'/' path) name

unfoldable pub quadrant_camera_id : ℕ → ℕ → ℕ
quadrant_camera_id camera_id q = (camera_id * 4 + q) % 2 ^ 32

unfoldable pub quadrant_path : List ℕ → ℕ → ℕ → ℕ → List ℕ
unfolding beside
quadrant_path base_output camera_id frame_id q = beside base_output (
    b'c'
    ∷ b'a'
    ∷ b'm'
    ∷ (decimal (quadrant_camera_id camera_id q)
        ++ b'-' ∷ (decimal frame_id ++ extension base_output)))

-- An image that the tool hands to imwrite, and what came of it.
pub record Written (M : Type 0) : Type 0 where
  pub path : List ℕ
  pub image : M

module _ {M : Type 0} (cv : OpenCv M) where
  unfoldable pub quad_image : Config → M → ℕ → M
  quad_image cfg full q =
      let quad = cv.crop (quad_rect (cv.cols full) (cv.rows full) q) full in
      if cfg.rotate180 then cv.rotate quad else quad

  unfoldable pub quadrant : Config → M → List ℕ → ℕ → ℕ → ℕ → Written M
  quadrant cfg full base_output camera_id frame_id q = record {
    path = quadrant_path base_output camera_id frame_id q;
    image = quad_image cfg full q;
  }

  -- A write that fails spoils the result and the loop goes on; one that throws leaves the loop.
  unfoldable pub write_images : List (Written M) → Bool → Conversion Bool
  write_images [] all_ok = returns all_ok
  write_images (w ∷ ws) all_ok = elim (cv.writes w.path w.image) [
    | none ↦ throws
    | some done ↦ write_images ws (all_ok && done)
  ]

  unfoldable pub quadrants : Config → M → List ℕ → ℕ → ℕ → List (Written M)
  quadrants cfg full base_output camera_id frame_id =
      quadrant cfg full base_output camera_id frame_id 0
      ∷ quadrant cfg full base_output camera_id frame_id 1
      ∷ quadrant cfg full base_output camera_id frame_id 2
      ∷ quadrant cfg full base_output camera_id frame_id 3
      ∷ []

  unfoldable pub write_quadrants : M → List ℕ → List ℕ → Config → Conversion Bool
  write_quadrants full input base_output cfg = elim (parse_yuv_stem (stem input)) [
    | none ↦ returns false
    | some (camera_id, frame_id) ↦
        write_images (quadrants cfg full base_output camera_id frame_id) true
  ]

  -- convertYuvFile. Nothing is written where the frame cannot be decoded.
  unfoldable pub write_image : M → List ℕ → List ℕ → Config → Conversion Bool
  write_image full input output cfg =
      if cfg.split2x2
      then write_quadrants full input output cfg
      else or_throw (cv.writes output (if cfg.rotate180 then cv.rotate full else full))

  unfoldable pub convert_yuv_file : Option (List ℕ) → List ℕ → List ℕ → Config → Conversion Bool
  convert_yuv_file file input output cfg =
      elim (decode_yuv_frame cv file cfg (wants_grayscale output)) [
        | throws ↦ throws
        | returns none ↦ returns false
        | returns (some full) ↦ write_image full input output cfg
      ]
