-- ===== src/Processor/Publishing.antt =====
-- The slots from which detected frames are streamed, and the detection worker's round.
use cherupi_v4l.Base.{
  Bool, Option-cases, ap, ap₂, arith, false, inl, inr, insert, lookup, lookup-insert, none, refl,
  some, true, ℕ, ◌+◌, ◌<◌, ◌∙◌, ◌≡◌, ◌≢◌, ◌≤◌,
}
use cherupi_v4l.Processor.{DetectedFrame, Processor}
use cherupi_v4l.Processor.Detection.{
  Detectors, get_detected_frame_for_streaming, note_detected, process_detection, publish,
  run_detector,
}
use cherupi_v4l.Processor.Backlog.{reserve_backlog}
use cherupi_v4l.Processor.Trigger.{queue_write}
use cherupi_v4l.Types.{FrameData}

module _ {D : Type 0} where
  -- What process_detection leaves alone, and the slot that it writes.
  pub record IsPublished (d : Detectors D) (p q : Processor D) (f : FrameData) : Type 0 where
    pub same_pending : q.pending_detection ≡ p.pending_detection
    pub next_seq : q.detected_seq_counter ≡ p.detected_seq_counter + 1
    pub slot :
        q.detected_for_stream
        ≡ insert f.camera_id
            (record {
              frame = f;
              sets = (run_detector d p.config.mode f).1;
              seq = p.detected_seq_counter + 1;
            })
            p.detected_for_stream

  note_detected-same :
      (b : Bool) (p : Processor D) (f : FrameData)
      → ((note_detected b p f).pending_detection ≡ p.pending_detection)
        × ((note_detected b p f).detected_seq_counter ≡ p.detected_seq_counter)
        × ((note_detected b p f).detected_for_stream ≡ p.detected_for_stream)
  unfolding note_detected queue_write reserve_backlog
  note_detected-same false p f = (refl, refl, refl)
  note_detected-same true p f = ground arith

  pub process_detection-IsPublished :
      (d : Detectors D) (p : Processor D) (f : FrameData)
      → IsPublished d p (process_detection d p f) f
  unfolding process_detection publish
  process_detection-IsPublished d p f =
      let same =
        note_detected-same (run_detector d p.config.mode f).0
          (record p { frames_checked = p.frames_checked + 1 }) f in
      record {
        same_pending = same.0;
        next_seq = ap (λ k. k + 1) same.1;
        slot =
            ap₂
              (λ k m.
                insert f.camera_id
                  (record { frame = f; sets = (run_detector d p.config.mode f).1; seq = k + 1 }) m)
              same.1 same.2;
      }

  -- A frame that a consumer takes is newer than its cursor, and the cursor that it holds afterwards
  -- gets nothing more from the same slot.
  get_detected_frame-once :
      (p : Processor D) (c k k' : ℕ) (df : DetectedFrame D)
      → get_detected_frame_for_streaming p c k ≡ some (df, k')
      → (k < k') × (df.seq ≡ k') × (get_detected_frame_for_streaming p c k' ≡ none)
  unfolding get_detected_frame_for_streaming
  get_detected_frame-once p c k k' df h = elim (Option-cases (lookup c p.detected_for_stream)) [
    | inl e ↦ absurd (ground arith)
    | inr (df', e) ↦ (ground arith, ground arith, ground arith)
  ]

  -- A frame that the detector has processed is what every consumer gets next for its camera, with the
  -- sets that the detector found, whatever of the older frames it has seen; the slots of the other
  -- cameras are as before.
  process_detection-streams :
      (d : Detectors D) (p : Processor D) (f : FrameData) (k : ℕ)
      → k ≤ p.detected_seq_counter
      → (get_detected_frame_for_streaming (process_detection d p f) f.camera_id k
          ≡ some (
            record {
              frame = f;
              sets = (run_detector d p.config.mode f).1;
              seq = p.detected_seq_counter + 1;
            },
            p.detected_seq_counter + 1,
          ))
        × ((c : ℕ)
            → c ≢ f.camera_id
            → get_detected_frame_for_streaming (process_detection d p f) c k
              ≡ get_detected_frame_for_streaming p c k)
  unfolding get_detected_frame_for_streaming
  process_detection-streams d p f k h =
      let slot : DetectedFrame D = record {
        frame = f;
        sets = (run_detector d p.config.mode f).1;
        seq = p.detected_seq_counter + 1;
      } in
      let done = process_detection-IsPublished d p f in
      let found = λ (c : ℕ).
        ap (lookup c) done.slot ∙ lookup-insert f.camera_id c slot p.detected_for_stream in
      (ground (arith, found f.camera_id), λ c ne. ground (arith, found c))
