-- ===== src/Stream/Block.antt =====
-- The detection block of a frame header (sendChunkHeader of src/stream_manager.cpp, with
-- CornerSetHeader and MarkerSetHeader of src/types.hpp): how it is written, and how a client reads
-- it. `bits` gives the bit pattern of a float.
use cherupi_v4l.Base.{
  Bool, List, [], arith, false, length, length-append, refl, true, ℕ, ◌%◌, ◌*◌, ◌++◌, ◌+◌, ◌<◌, ◌^◌,
  ◌∷◌, ◌≡◌,
}
use cherupi_v4l.Types.{CornerSet}
use cherupi_v4l.Stream.Wire.{encode_fields, le_bytes}

-- sizeof(MarkerSetHeader) and sizeof(CornerSetHeader)
abbrev pub record_header_size : Bool → ℕ
record_header_size true = 8
record_header_size false = 4

-- The fields marker_id, quadrant or set_id, flags and num_corners.
abbrev pub record_fields : Bool → ℕ → ℕ → ℕ → List (ℕ × ℕ)
record_fields true marker_id set_id n = (4, marker_id) ∷ (1, set_id) ∷ (1, 1) ∷ (2, n) ∷ []
record_fields false marker_id set_id n = (1, set_id) ∷ (1, 1) ∷ (2, n) ∷ []

module _ {D : Type 0} (bits : D → ℕ) where
  abbrev pub point_fields : List (D × D) → List (ℕ × ℕ)
  point_fields [] = []
  point_fields ((x, y) ∷ ps) = (4, bits x) ∷ (4, bits y) ∷ point_fields ps

  unfoldable pub encode_set : Bool → CornerSet D → List ℕ
  encode_set is_aruco s =
      encode_fields (record_fields is_aruco s.marker_id s.set_id (length s.corners))
      ++ encode_fields (point_fields s.corners)

  unfoldable pub encode_block : Bool → List (CornerSet D) → List ℕ
  encode_block is_aruco [] = []
  encode_block is_aruco (s ∷ ss) = encode_set is_aruco s ++ encode_block is_aruco ss

  -- corner_block_size, a uint32_t.
  unfoldable pub corner_block_size : Bool → List (CornerSet D) → ℕ
  corner_block_size is_aruco [] = 0
  corner_block_size is_aruco (s ∷ ss) =
      (record_header_size is_aruco + length s.corners * 8 + corner_block_size is_aruco ss) % 2 ^ 32

  length-point_fields :
      (ps : List (D × D)) → length (encode_fields (point_fields ps)) ≡ length ps * 8
  unfolding encode_fields le_bytes
  length-point_fields [] = omega arith
  length-point_fields ((x, y) ∷ ps) = omega (arith, length-point_fields ps)

  length-encode_set :
      (b : Bool) (s : CornerSet D)
      → length (encode_set b s) ≡ record_header_size b + length s.corners * 8
  unfolding encode_set encode_fields le_bytes
  length-encode_set true s = omega (arith, length-point_fields s.corners)
  length-encode_set false s = omega (arith, length-point_fields s.corners)

  -- The size that the frame header announces is the number of bytes of the block, for every block
  -- below 4 GiB.
  pub length-encode_block :
      (b : Bool) (ss : List (CornerSet D))
      → length (encode_block b ss) < 2 ^ 32
      → length (encode_block b ss) ≡ corner_block_size b ss
  unfolding encode_block corner_block_size
  length-encode_block b [] h = refl
  length-encode_block b (s ∷ ss) h =
      let whole = length-append (encode_set b s) (encode_block b ss) in
      omega (arith, whole, length-encode_set b s, length-encode_block b ss (omega (arith, whole)))
