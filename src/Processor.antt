-- ===== src/Processor.antt =====
-- src/frame_processor.hpp: the state of FrameProcessor. One record holds all members, those that
-- its threads share too. The children hold one operation each, or proofs.
pub mod Filename
pub mod Backlog
pub mod Trigger
pub mod Save
pub mod Writer
pub mod Detection
pub mod OutputDir
pub mod Lifecycle
pub mod Session
pub mod Accounting
pub mod Interleaving
pub mod Stopping
pub mod Buffer
pub mod Serving
pub mod Completion
pub mod Arming
pub mod Publishing
pub mod Restart
pub mod Threads
pub mod Joining
pub mod Rounds
pub mod Draining
pub mod Tests
use cherupi_v4l.Base.{Bool, List, Option, ℕ}
use cherupi_v4l.Types.{CornerSet, FrameData}
use cherupi_v4l.Command.Config.{ProcessConfig}

pub record WriteTask : Type 0 where
  pub filename : List ℕ
  pub payload : List ℕ  -- the field `data`
  pub camera_id : ℕ
  pub frame_id : ℕ

-- TriggerResult::Capture; an empty file name stands for a capture that is not saved.
pub record Capture : Type 0 where
  pub camera_id : ℕ
  pub frame_id : ℕ
  pub filename : List ℕ

pub record TriggerResult : Type 0 where
  pub trigger_id : ℕ
  pub captures : List Capture
  pub cancelled : Bool

-- `waiting` maps a camera to the frames that it still has to discard.
pub record PendingTrigger : Type 0 where
  pub id : ℕ
  pub waiting : List (ℕ × ℕ)
  pub result : TriggerResult

pub record DetectedFrame (D : Type 0) : Type 0 where
  pub frame : FrameData
  pub sets : List (CornerSet D)
  pub seq : ℕ

pub record Processor (D : Type 0) : Type 0 where
  pub config : ProcessConfig D
  pub enabled : Bool
  pub actual_output_dir : List ℕ
  pub buffered_frames : List FrameData
  pub write_queue : List WriteTask
  pub pending_batch : List WriteTask
  -- The tasks that writer threads have taken from the queue and not yet accounted for.
  pub writing : List WriteTask
  -- The tasks that writer threads are done with, oldest first (what the disk has seen).
  pub attempted : List WriteTask
  -- The number of joinable writer threads, and whether the detection thread is joinable.
  pub writer_threads : ℕ
  pub stop_threads : Bool
  pub detection_thread : Bool
  pub stop_detection : Bool
  pub frames_saved : ℕ
  pub bytes_written : ℕ
  pub frames_checked : ℕ
  pub frames_detected : ℕ
  pub backlog_bytes : ℕ
  pub backlog_budget : ℕ
  pub frames_dropped_backlog : ℕ
  pub backlog_warned : Bool
  pub frames_saved_per_camera : List (ℕ × ℕ)
  -- Ordered by camera.
  pub pending_detection : List (ℕ × FrameData)
  pub last_detected_camera : ℕ
  pub detected_for_stream : List (ℕ × DetectedFrame D)
  pub detected_seq_counter : ℕ
  pub pending_trigger : Option PendingTrigger
  pub next_trigger_id : ℕ
  -- The results that were handed to on_complete, oldest first.
  pub acks : List TriggerResult
