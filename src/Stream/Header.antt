-- ===== src/Stream/Header.antt =====
-- The messages of a frame (sendChunkHeader and sendChunkData of src/stream_manager.cpp, with
-- ChunkStartMarker, ChunkHeader and ChunkData of src/types.hpp), as lists of bytes.
use cherupi_v4l.Base.{
  Bool, List, [], ap₂, if◌then◌else◌, length, length-append, refl, ℕ, ◌++◌, ◌+◌, ◌<◌, ◌==◌, ◌^◌,
  ◌∙◌, ◌∷◌, ◌≡◌,
}
use cherupi_v4l.Stream.Block.{corner_block_size, encode_block, length-encode_block}
use cherupi_v4l.Stream.Chunks.{chunk_payload, chunk_size}
use cherupi_v4l.Stream.Wire.{encode_fields, le_bytes}
use cherupi_v4l.Types.{CornerSet, FrameData, aruco_kind, detection_code}

abbrev start_marker : List (ℕ × ℕ)
start_marker = (4, 1128813902) ∷ (4, 7) ∷ []  -- 0x4348554E

-- detection_kind == static_cast<uint8_t>(DetectionKind::ARUCO)
abbrev pub is_aruco_code : ℕ → Bool
is_aruco_code code = code == detection_code aruco_kind

module _ {D : Type 0} (bits : D → ℕ) where
  -- What sendChunkHeader reads: the transfer, and the counter of the saved frames.
  pub record Transfer : Type 0 where
    pub frame : FrameData
    pub corner_sets : List (CornerSet D)
    pub transfer_detection_kind : ℕ
    pub frame_uuid : ℕ
    pub transfer_chunks : ℕ

  unfoldable pub header_fields : Transfer → Bool → ℕ → List (ℕ × ℕ)
  header_fields transfer header_only frames_saved =
      let frame = transfer.frame in
      let sets = transfer.corner_sets in
      (4, transfer.frame_uuid)
      ∷ (4, frame.frame_id)
      ∷ (4, frame.camera_id)
      ∷ (4, if header_only then 0 else transfer.transfer_chunks)
      ∷ (4, if header_only then 0 else length frame.bytes)
      ∷ (4, frame.bytes_per_line)
      ∷ (4, frame.width)
      ∷ (4, frame.height)
      ∷ (4, frame.pixel_format)
      ∷ (4, frames_saved)
      ∷ (8, frame.timestamp_us)
      ∷ (4, frame.frame_duration_us)
      ∷ (4, corner_block_size bits (is_aruco_code transfer.transfer_detection_kind) sets)
      ∷ (2, length sets)
      ∷ (2, 0)
      ∷ (4, frame.lens_position)
      ∷ (1, frame.af_state)
      ∷ (1, transfer.transfer_detection_kind)
      ∷ (1, 0)
      ∷ (1, 0)
      ∷ (4, frame.focus_fom)
      ∷ []

  unfoldable pub header_message : Transfer → Bool → ℕ → List ℕ
  header_message transfer header_only frames_saved =
      (encode_fields start_marker
        ++ encode_fields (header_fields transfer header_only frames_saved))
      ++ encode_block bits (is_aruco_code transfer.transfer_detection_kind) transfer.corner_sets

  unfoldable pub data_message : Transfer → ℕ → List ℕ
  data_message transfer index =
      let payload = chunk_payload chunk_size transfer.frame.bytes index in
      encode_fields
        ((4, 1128812107) ∷ (4, transfer.frame_uuid) ∷ (4, index) ∷ (4, length payload) ∷ [])
      ++ payload

  -- A header message is 8 + 72 bytes and the detection block, of the size the header announces.
  length-header_message :
      (transfer : Transfer) (header_only : Bool) (frames_saved : ℕ)
      → length
          (encode_block bits (is_aruco_code transfer.transfer_detection_kind) transfer.corner_sets)
        < 2 ^ 32
      → length (header_message transfer header_only frames_saved)
        ≡ 80
          + corner_block_size bits
              (is_aruco_code transfer.transfer_detection_kind)
              transfer.corner_sets
  unfolding header_message header_fields encode_fields le_bytes
  length-header_message transfer header_only frames_saved h =
      let is_aruco : Bool = is_aruco_code transfer.transfer_detection_kind in
      let block : List ℕ = encode_block bits is_aruco transfer.corner_sets in
      let fixed : List ℕ =
        encode_fields start_marker
        ++ encode_fields (header_fields transfer header_only frames_saved) in
      let front : length fixed ≡ 80 = refl in
      length-append fixed block
      ∙ ap₂ (λ a b. a + b) front (length-encode_block bits is_aruco transfer.corner_sets h)
