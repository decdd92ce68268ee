-- ===== src/Processor/Session.antt =====
-- A capture session of FrameProcessor as an explicit interleaving of what its threads do between
-- `start` and `stop`.
use cherupi_v4l.Base.{Bool, List, [], none, some, ℕ, ◌∷◌}
use cherupi_v4l.Base.Int.{ℤ}
use cherupi_v4l.Types.{FrameData}
use cherupi_v4l.Processor.{Processor}
use cherupi_v4l.Processor.Trigger.{arm_trigger}
use cherupi_v4l.Processor.Save.{save_frame}
use cherupi_v4l.Processor.Writer.{finish_task, flush_buffered_frames, take_task}
use cherupi_v4l.Processor.Detection.{Detectors, process_detection, take_pending}
use cherupi_v4l.Processor.Lifecycle.{reset_frames_saved_counts}

pub data Event : Type 0 where
  -- a capture thread delivers a frame
  captured : FrameData → Event
  -- a writer thread takes a task, or is done with the one at a place of `writing`
  taken : Event
  finished : Bool → ℕ → Event
  -- the detection worker picks a pending frame, or publishes the one that it picked
  picked : Event
  worked : FrameData → Event
  -- the server arms a trigger, flushes the buffer, or resets the counts
  armed : List ℕ → ℤ → Event
  flushed : (List ℕ → Bool) → Event
  counts_reset : Event

module _ {D : Type 0} where
  unfoldable pub pick : Processor D → Processor D
  pick p = elim (take_pending p) [ none ↦ p | some (f, q) ↦ q ]

  unfoldable pub step : Detectors D → Event → Processor D → Processor D
  step d (captured f) p = save_frame p f
  step d taken p = take_task p
  step d (finished written i) p = finish_task written i p
  step d picked p = pick p
  step d (worked f) p = process_detection d p f
  step d (armed camera_ids skip) p = (arm_trigger p camera_ids skip).0
  step d (flushed opened) p = flush_buffered_frames opened p
  step d counts_reset p = reset_frames_saved_counts p

  unfoldable pub run : Detectors D → List Event → Processor D → Processor D
  run d [] p = p
  run d (e ∷ es) p = run d es (step d e p)
