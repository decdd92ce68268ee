-- ===== src/Processor/Detection.antt =====
-- detectionWorkerFunc and processDetection of src/frame_processor.cpp, and
-- getDetectedFrameForStreaming of src/frame_processor.hpp. The four detectors are arguments
-- here; Detect models them.
use cherupi_v4l.Base.{
  Bool, List, Option, [], erase, false, if◌then◌else◌, insert, leb, lookup, none, some, suc, true,
  upper_bound, zero, ℕ, ◌+◌, ◌∷◌,
}
use cherupi_v4l.Types.{
  CornerSet, FrameData, ProcessMode, aruco, aruco2x2, checkerboard, checkerboard2x2,
}
use cherupi_v4l.Processor.{DetectedFrame, Processor}
use cherupi_v4l.Processor.Trigger.{queue_write}

-- detectCheckerboard, detectCheckerboard2x2, detectAruco and detectAruco2x2.
pub record Detectors (D : Type 0) : Type 0 where
  pub detect_checkerboard : FrameData → Bool × List (CornerSet D)
  pub detect_checkerboard2x2 : FrameData → Bool × List (CornerSet D)
  pub detect_aruco : FrameData → Bool × List (CornerSet D)
  pub detect_aruco2x2 : FrameData → Bool × List (CornerSet D)

-- The next camera after the one that was served last, or else the first one.
unfoldable pub next_pending : ℕ → List (ℕ × FrameData) → Option (ℕ × FrameData)
next_pending last [] = none
next_pending last (e ∷ es) = elim (upper_bound last (e ∷ es)) [
  | none ↦ some e
  | some found ↦ some found
]

module _ {D : Type 0} where
  -- One pass of the worker's loop under the lock: the frame to detect on, if there is one.
  unfoldable pub take_pending : Processor D → Option (FrameData × Processor D)
  take_pending p = elim (next_pending p.last_detected_camera p.pending_detection) [
    | none ↦ none
    | some (camera_id, f) ↦ some (
      f,
      record p {
        last_detected_camera = camera_id;
        pending_detection = erase camera_id p.pending_detection;
      },
    )
  ]

  unfoldable pub run_detector : Detectors D → ProcessMode → FrameData → Bool × List (CornerSet D)
  run_detector d checkerboard f = d.detect_checkerboard f
  run_detector d checkerboard2x2 f = d.detect_checkerboard2x2 f
  run_detector d aruco f = d.detect_aruco f
  run_detector d aruco2x2 f = d.detect_aruco2x2 f
  run_detector d other f = (false, [])

  unfoldable pub publish : Processor D → FrameData → List (CornerSet D) → Processor D
  publish p f sets = record p {
    detected_seq_counter = p.detected_seq_counter + 1;
    detected_for_stream =
        insert f.camera_id (record { frame = f; sets = sets; seq = p.detected_seq_counter + 1 })
          p.detected_for_stream;
  }

  unfoldable pub note_detected : Bool → Processor D → FrameData → Processor D
  note_detected false p f = p
  note_detected true p f = queue_write (record p { frames_detected = p.frames_detected + 1 }) f

  unfoldable pub process_detection : Detectors D → Processor D → FrameData → Processor D
  process_detection d p f =
      let (detected, sets) = run_detector d p.config.mode f in
      publish (note_detected detected (record p { frames_checked = p.frames_checked + 1 }) f) f sets

  -- The worker's passes until nothing is pending, on fuel.
  unfoldable pub drain_detection : ℕ → Detectors D → Processor D → Processor D
  drain_detection zero d p = p
  drain_detection (suc n) d p = elim (take_pending p) [
    | none ↦ p
    | some (f, q) ↦ drain_detection n d (process_detection d q f)
  ]

  -- The frame and the cursor that the caller holds afterwards.
  unfoldable pub get_detected_frame_for_streaming :
      Processor D → ℕ → ℕ → Option (DetectedFrame D × ℕ)
  get_detected_frame_for_streaming p camera_id last_seen_seq =
      elim (lookup camera_id p.detected_for_stream) [
        | none ↦ none
        | some df ↦ if leb df.seq last_seen_seq then none else some (df, df.seq)
      ]
