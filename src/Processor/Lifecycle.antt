-- ===== src/Processor/Lifecycle.antt =====
-- configure, start, stop and resetFramesSavedCounts of src/frame_processor.cpp and .hpp.
use Prim.Native.Char.{code}
use cherupi_v4l.Base.{
  List, Option, String, [], false, if◌then◌else◌, length, ltb, none, not, some, true, ℕ, ◌&&◌, ◌++◌,
  ◌+◌, ◌-◌, ◌==◌, ◌^◌, ◌∷◌,
}
use cherupi_v4l.Types.{ProcessMode, buffer, is_detector_mode, is_none_mode, uses_writer_pool}
use cherupi_v4l.Capacity.{default_backlog_budget_bytes}
use cherupi_v4l.Command.Config.{ProcessConfig}
use cherupi_v4l.Processor.{Processor}
use cherupi_v4l.Processor.Writer.{Writers, finish_all}
use cherupi_v4l.Processor.Detection.{Detectors, drain_detection}
use cherupi_v4l.Processor.OutputDir.{FileSystem, create_output_directory}

-- The bytes of an ASCII text.
abbrev pub codes : String → List ℕ
codes String.[] = []
codes (String.◌∷◌ letter rest) = code letter ∷ codes rest

unfoldable pub zero_counts : List (ℕ × ℕ) → List (ℕ × ℕ)
zero_counts [] = []
zero_counts ((camera_id, n) ∷ m) = (camera_id, 0) ∷ zero_counts m

module _ {D : Type 0} where
  unfoldable pub configure : FileSystem → ProcessConfig D → Processor D → Processor D
  configure fs cfg p =
      if not (is_none_mode cfg.mode) && cfg.save_frames
      then record p {
        config = cfg;
        actual_output_dir =
            elim (create_output_directory fs (codes cfg.output_dir) cfg.prepend_timestamp_to_dir) [
              | none ↦ codes "."
              | some dir ↦ dir
            ];
      }
      else record p { config = cfg }

  -- What every session but one in mode `none` begins with.
  unfoldable pub reset_session : ℕ → Processor D → Processor D
  reset_session mem_available p = record p {
    enabled = true;
    stop_threads = false;
    frames_checked = 0;
    frames_detected = 0;
    backlog_bytes = 0;
    frames_dropped_backlog = 0;
    backlog_warned = false;
    backlog_budget =
        if ltb 0 p.config.backlog_max_bytes
        then p.config.backlog_max_bytes
        else default_backlog_budget_bytes mem_available;
    frames_saved = 0;
    bytes_written = 0;
    frames_saved_per_camera = [];
    pending_trigger = none;
    pending_detection = [];
    stop_detection = false;
    last_detected_camera = 2 ^ 32 - 1;
    detected_for_stream = [];
  }

  unfoldable pub start_writers : Processor D → Processor D
  start_writers p =
      if p.config.save_frames
      then record p {
        pending_batch = [];
        writer_threads = p.writer_threads + p.config.writer_threads;
      }
      else p

  -- Assigning to a std::thread that is joinable calls std::terminate: that is `none`.
  unfoldable pub start_detection : Processor D → Option (Processor D)
  start_detection p =
      if p.detection_thread then none else some (record p { detection_thread = true })

  unfoldable pub start_mode : ProcessMode → Processor D → Option (Processor D)
  start_mode buffer p = some (record p { buffered_frames = [] })
  start_mode mode p =
      if uses_writer_pool mode
      then (if is_detector_mode mode
          then start_detection (start_writers p)
          else some (start_writers p))
      else some p

  -- `mem_available` is what capacity::availableMemoryBytes() reports.
  unfoldable pub start : ℕ → Processor D → Option (Processor D)
  start mem_available p =
      if is_none_mode p.config.mode
      then some (record p { enabled = false })
      else start_mode p.config.mode (reset_session mem_available p)

  -- A pending trigger is handed out as cancelled.
  unfoldable pub cancel_trigger : Processor D → Processor D
  cancel_trigger p = elim p.pending_trigger [
    | none ↦ p
    | some t ↦ record p {
      pending_trigger = none;
      acks = p.acks ++ record t.result { cancelled = true } ∷ [];
    }
  ]

  -- stop_detection, and the join in which the worker drains what is pending.
  unfoldable pub stop_worker : Detectors D → Processor D → Processor D
  stop_worker d p =
      if is_detector_mode p.config.mode
      then (let q = record p { stop_detection = true } in
          let r =
            if q.detection_thread then drain_detection (length q.pending_detection) d q else q in
          record r { detection_thread = false; detected_for_stream = [] })
      else p

  -- The partial batch is flushed, and the writer threads, if there are any, finish the queue, each
  -- at its own pace.
  unfoldable pub stop_writers : Writers → Processor D → Processor D
  stop_writers written p =
      if uses_writer_pool p.config.mode && p.config.save_frames
      then (let q = record p {
        write_queue = p.write_queue ++ p.pending_batch;
        pending_batch = [];
        stop_threads = true;
      } in
          if q.writer_threads == 0
          then q
          else record (finish_all written.can_write (written.finishing (q.writing ++ q.write_queue))
              (record q { writing = []; write_queue = [] })) { writer_threads = 0 })
      else p

  unfoldable pub stop : Detectors D → Writers → Processor D → Processor D
  stop d written p =
      stop_writers written (stop_worker d (cancel_trigger (record p { enabled = false })))

  unfoldable pub reset_frames_saved_counts : Processor D → Processor D
  reset_frames_saved_counts p = record p {
    frames_saved_per_camera = zero_counts p.frames_saved_per_camera;
    pending_detection = [];
    detected_for_stream = [];
  }
