-- ===== src/Processor/Tests.antt =====
-- The frame processor at concrete states.
use mathlib.Core.List.Permᴰ
use mathlib.Core.List.Permᴰ.{Permᴰ}
use cherupi_v4l.Base.{
  List, [], arith, false, if◌then◌else◌, lookup, none, refl, some, true, ℕ, ◌++◌, ◌+◌, ◌<◌, ◌==◌,
  ◌∷◌, ◌≡◌,
}
use cherupi_v4l.Command.Config.{ProcessConfig, default_config}
use cherupi_v4l.Processor.{PendingTrigger, Processor, TriggerResult, WriteTask}
use cherupi_v4l.Processor.Accounting.{Accounted}
use cherupi_v4l.Processor.Detection.{Detectors, run_detector}
use cherupi_v4l.Processor.Lifecycle.{
  configure, reset_session, start, start_detection, start_mode, start_writers, stop, stop_worker,
}
use cherupi_v4l.Processor.Serving.{Progress, Serves, captures_of, deliver, frames_of}
use cherupi_v4l.Processor.Session.{Event, captured, finished, run, taken}
use cherupi_v4l.Processor.Stopping.{run-start-Accounted}
use cherupi_v4l.Processor.Writer.{Writers}
use cherupi_v4l.Types.{
  FrameData, ProcessMode, aruco, batch, checkerboard, is_detector_mode, none_mode, trigger,
  uses_writer_pool,
}
use cherupi_v4l.Base.Int.{max_zero, pos}
use cherupi_v4l.Processor.Arming.{
  arm_trigger-Progress, arm_trigger-completes, handle_trigger_frame-lost, names, once,
}
use cherupi_v4l.Processor.Filename.{make_filename}
use cherupi_v4l.Processor.OutputDir.{FileSystem}
use cherupi_v4l.Processor.Restart.{restart-terminates}
use cherupi_v4l.Processor.Draining.{stop_worker-drains}
use cherupi_v4l.Processor.Trigger.{
  arm_trigger, capture_of, handle_trigger_frame, has_pending_trigger,
}

abbrev config_of : ProcessMode → ProcessConfig ℕ
config_of mode = default_config 2 mode

abbrev pub processor_of : ProcessMode → Processor ℕ
processor_of m = record {
  config = config_of m;
  enabled = true;
  actual_output_dir = 46 ∷ [];
  buffered_frames = [];
  write_queue = [];
  pending_batch = [];
  writing = [];
  attempted = [];
  writer_threads = 0;
  stop_threads = false;
  detection_thread = false;
  stop_detection = false;
  frames_saved = 0;
  bytes_written = 0;
  frames_checked = 0;
  frames_detected = 0;
  backlog_bytes = 0;
  backlog_budget = 10;
  frames_dropped_backlog = 0;
  backlog_warned = false;
  frames_saved_per_camera = [];
  pending_detection = [];
  last_detected_camera = 0;
  detected_for_stream = [];
  detected_seq_counter = 0;
  pending_trigger = none;
  next_trigger_id = 1;
  acks = [];
}

abbrev frame_of : ℕ → ℕ → FrameData
frame_of camera n = record {
  bytes = 1 ∷ 2 ∷ 3 ∷ 4 ∷ [];
  frame_id = n;
  camera_id = camera;
  width = 2;
  height = 1;
  bytes_per_line = 2;
  pixel_format = 0;
  timestamp_us = 0;
  frame_duration_us = 0;
  lens_position = 0;
  af_state = 255;
  focus_fom = 0;
}

abbrev pub no_detectors : Detectors ℕ
no_detectors = record {
  detect_checkerboard = λ f. (true, []);
  detect_checkerboard2x2 = λ f. (true, []);
  detect_aruco = λ f. (true, []);
  detect_aruco2x2 = λ f. (true, []);
}

abbrev frames : List FrameData
frames = frame_of 0 1 ∷ frame_of 0 2 ∷ frame_of 0 3 ∷ []

abbrev task : ℕ → WriteTask
task n = record { filename = []; payload = 1 ∷ 2 ∷ 3 ∷ 4 ∷ []; camera_id = 0; frame_id = n }

abbrev overtaking : List WriteTask → List WriteTask
overtaking [] = []
overtaking (t ∷ []) = t ∷ []
overtaking (t ∷ u ∷ ts) = u ∷ t ∷ ts

-- The second thread is done first.
abbrev pub writers : Writers
writers = record { can_write = λ t. true; finishing = overtaking }

-- A batch session: one task taken by a thread, one queued.
abbrev batch_session : Processor ℕ
batch_session = record (processor_of batch) {
  writing = task 1 ∷ [];
  write_queue = task 2 ∷ [];
  writer_threads = 4;
  backlog_bytes = 8;
}

abbrev some_events : List Event
some_events = captured (frame_of 0 1) ∷ captured (frame_of 1 1) ∷ taken ∷ finished true 0 ∷ []

run-start-Accounted_example :
    Accounted (run no_detectors some_events (start_writers (reset_session 0 (processor_of batch))))
unfolding start start_mode uses_writer_pool is_detector_mode
run-start-Accounted_example =
    run-start-Accounted no_detectors 0 some_events (processor_of batch)
      (start_writers (reset_session 0 (processor_of batch)))
      (record { no_frames = refl; no_queue = refl; no_batch = refl; no_writing = refl }) refl refl

-- A trigger that awaits camera 0 and skips one of its frames.
abbrev armed_trigger : PendingTrigger
armed_trigger = record {
  id = 1;
  waiting = (0, 1) ∷ [];
  result = record { trigger_id = 1; captures = []; cancelled = false };
}

abbrev armed_processor : Processor ℕ
armed_processor = record (processor_of trigger) { pending_trigger = some armed_trigger }

abbrev only_zero : ℕ → ℕ
only_zero c = if 0 == c then 1 else 0

armed_trigger-Serves : Serves only_zero armed_trigger
armed_trigger-Serves = record {
  accounted = λ c. ground arith;
  some_left = λ e. cc;
  not_cancelled = refl;
}

waited_enough : (c n : ℕ) → lookup c armed_trigger.waiting ≡ some n → n < frames_of c frames
waited_enough c n h = ground arith

arm_trigger-Progress_example :
    Progress
      (once (0 ∷ []))
      []
      (deliver frames (arm_trigger (processor_of trigger) (0 ∷ []) (pos 1)).0)
unfolding arm_trigger has_pending_trigger
arm_trigger-Progress_example =
    arm_trigger-Progress (processor_of trigger) (0 ∷ []) (pos 1) 1 frames refl

delivered_enough : (c : ℕ) → names c (0 ∷ []) ≡ true → max_zero (pos 1) < frames_of c frames
delivered_enough c h = ground arith

arm_trigger-completes_example :
    (r : TriggerResult) × ((deliver frames
        (arm_trigger (processor_of trigger) (0 ∷ []) (pos 1)).0).acks
      ≡ [] ++ r ∷ [])
    × ((c : ℕ) → captures_of c r.captures ≡ once (0 ∷ []) c)
    × (r.cancelled ≡ false)
unfolding arm_trigger has_pending_trigger
arm_trigger-completes_example =
    arm_trigger-completes (processor_of trigger) (0 ∷ []) (pos 1) 1 frames refl delivered_enough

-- The budget of ten bytes holds no further frame of four.
abbrev full_processor : Processor ℕ
full_processor = record (processor_of trigger) {
  backlog_bytes = 8;
  pending_trigger = some (record armed_trigger { waiting = (0, 0) ∷ [] });
}

handle_trigger_frame-lost_example :
    ((handle_trigger_frame full_processor (frame_of 0 1)).write_queue ≡ [])
    × ((handle_trigger_frame full_processor (frame_of 0 1)).acks
        ≡ []
          ++ record armed_trigger.result {
            captures = [] ++ capture_of full_processor (frame_of 0 1) ∷ [];
          }
            ∷ [])
    × ((capture_of full_processor (frame_of 0 1)).filename ≡ make_filename (46 ∷ []) 0 1)
handle_trigger_frame-lost_example =
    handle_trigger_frame-lost full_processor (record armed_trigger { waiting = (0, 0) ∷ [] })
      (frame_of 0 1) refl refl refl (omega arith) (omega arith)

abbrev pub disk : FileSystem
disk = record {
  exists = λ path. some true;
  is_directory = λ path. true;
  create_directory = λ path. some true;
  timestamped = λ path. path;
}

abbrev detecting : Processor ℕ
detecting = start_writers (record (reset_session 0 (processor_of aruco)) {
  stop_detection = false;
  detection_thread = true;
})

restart-terminates_example :
    start 0 (
      configure disk
        (config_of checkerboard)
        (stop no_detectors writers (configure disk (config_of none_mode) detecting)))
    ≡ none
unfolding start start_mode start_detection start_writers reset_session uses_writer_pool
    is_detector_mode
restart-terminates_example =
    restart-terminates no_detectors writers disk 0 (config_of none_mode) (config_of checkerboard)
      (processor_of aruco) detecting refl refl refl refl

abbrev waiting_frames : List (ℕ × FrameData)
waiting_frames = (0, frame_of 0 1) ∷ (2, frame_of 2 1) ∷ []

abbrev detecting_two : Processor ℕ
detecting_two = record (processor_of checkerboard) {
  detection_thread = true;
  pending_detection = waiting_frames;
}

stop_worker-drains_example :
    let q = stop_worker no_detectors detecting_two in
    (q.frames_checked ≡ detecting_two.frames_checked + 2)
    × (q.frames_detected ≡ detecting_two.frames_detected + 2)
    × (q.pending_detection ≡ [])
    × (q.detection_thread ≡ false)
    × (q.detected_for_stream ≡ [])
unfolding is_detector_mode run_detector
stop_worker-drains_example =
    stop_worker-drains no_detectors detecting_two refl refl (omega arith, (omega arith, tt))
