-- ===== src/Stream/HeaderOnly.antt =====
-- sendHeaderOnlyFrame of src/stream_manager.cpp beside sendChunkedFrame: the transfers they describe
-- to sendChunkHeader.
use cherupi_v4l.Base.{List, [], ap, arith, false, length, refl, sym, true, ℕ, ◌∙◌, ◌≡◌}
use cherupi_v4l.Stream.Chunks.{chunk_size, total_chunks}
use cherupi_v4l.Stream.Header.{Transfer, header_fields, header_message}
use cherupi_v4l.Stream.Visit.{header_only_geometry, shape_frame}
use cherupi_v4l.Subsample.{subsample_yuv420}
use cherupi_v4l.Types.{CornerSet, FrameData}

without_bytes : FrameData → FrameData
without_bytes frame = record frame { bytes = [] }

shape_frame-agrees :
    (factor : ℕ) (frame : FrameData)
    → without_bytes (shape_frame true factor frame) ≡ without_bytes (shape_frame false factor frame)
unfolding shape_frame header_only_geometry subsample_yuv420 without_bytes
shape_frame-agrees factor frame = ground arith

module _ {D : Type 0} (bits : D → ℕ) where
  unfoldable pub header_only_transfer : FrameData → List (CornerSet D) → ℕ → ℕ → Transfer bits
  header_only_transfer frame sets kind uuid = record {
    frame = frame;
    corner_sets = sets;
    transfer_detection_kind = kind;
    frame_uuid = uuid;
    transfer_chunks = 0;
  }

  unfoldable pub chunked_transfer : FrameData → List (CornerSet D) → ℕ → ℕ → Transfer bits
  chunked_transfer frame sets kind uuid = record {
    frame = frame;
    corner_sets = sets;
    transfer_detection_kind = kind;
    frame_uuid = uuid;
    transfer_chunks = total_chunks chunk_size (length frame.bytes);
  }

  header_only_header : List (CornerSet D) → ℕ → ℕ → ℕ → FrameData → List ℕ
  header_only_header sets kind uuid frames_saved frame =
      header_message bits (header_only_transfer frame sets kind uuid) true frames_saved

  header_only_header-bytes :
      (sets : List (CornerSet D)) (kind uuid frames_saved : ℕ) (frame : FrameData)
      → (header_only_header sets kind uuid frames_saved frame
          ≡ header_only_header sets kind uuid frames_saved (without_bytes frame))
        × (header_message bits (chunked_transfer frame sets kind uuid) true frames_saved
            ≡ header_only_header sets kind uuid frames_saved (without_bytes frame))
  unfolding header_only_header header_message header_fields header_only_transfer chunked_transfer
      without_bytes
  header_only_header-bytes sets kind uuid frames_saved frame = (refl, refl)

  -- The header of a header-only stream says of the frame, of its size in pixels and of its corners
  -- what the header of the subsampled frame itself says; only the number of chunks and of bytes are
  -- 0. So no pixel has to be decimated for it.
  pub header_only-agrees :
      (frame : FrameData) (factor : ℕ) (sets : List (CornerSet D)) (kind uuid frames_saved : ℕ)
      → header_message bits
          (header_only_transfer (shape_frame true factor frame) sets kind uuid)
          true
          frames_saved
        ≡ header_message bits
            (chunked_transfer (shape_frame false factor frame) sets kind uuid)
            true
            frames_saved
  unfolding header_only_header
  header_only-agrees frame factor sets kind uuid frames_saved =
      (header_only_header-bytes sets kind uuid frames_saved (shape_frame true factor frame)).0
      ∙ ap (header_only_header sets kind uuid frames_saved) (shape_frame-agrees factor frame)
      ∙ sym
          (header_only_header-bytes sets kind uuid frames_saved (shape_frame false factor frame)).1
