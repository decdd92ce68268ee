-- ===== src/Stream/Tests.antt =====
-- The stream at concrete frames. A coordinate is its own bit pattern.
use cherupi_v4l.Base.{
  List, [], arith, false, get_or, leb, length, lookup, ltb, none, refl, some, suc, true, ℕ, ◌++◌,
  ◌+◌, ◌<◌, ◌∷◌, ◌≡◌,
}
use cherupi_v4l.Stream.Chunks.{joined, joined-all, total_chunks}
use cherupi_v4l.Stream.Delivery.{SentPrefix, send_chunked_frame-prefix}
use cherupi_v4l.Stream.Finishing.{
  HasDeadline, IsCalm, IsFinished, send_chunked_frame-arrives, send_chunked_frame-finishes,
}
use cherupi_v4l.Stream.Header.{Transfer}
use cherupi_v4l.Stream.Send.{Environment, Streamer, send_chunked_frame, wait_for_buffer_drain}
use cherupi_v4l.Types.{CornerSet, FrameData}
use cherupi_v4l.Stream.Session.{
  Call, IsConsistent, Session, attaches, calls, calls-IsConsistent, detaches, has_subscription,
  starts, stops,
}
use cherupi_v4l.Camera.{Camera}
use cherupi_v4l.Camera.Capture.{get_frame_for_streaming}
use cherupi_v4l.Camera.Setup.{fresh_camera}
use cherupi_v4l.Stream.Cursors.{MovesUp, visit-MovesUp}
use cherupi_v4l.Stream.Fairness.{GoesRound}
use cherupi_v4l.Stream.Freshness.{Sends, visit-Sends}
use cherupi_v4l.Stream.Loop.{
  Look, Loop, advance, changed_by, end_turn, fetch, keys, may_fetch, no_cameras, pass_guards,
  refresh_order, round, same_keys, search_cameras, streaming_loop, turn_camera,
}
use cherupi_v4l.Stream.RoundRobin.{KeepsOrder}
use cherupi_v4l.Stream.Subscriptions.{HasCursors}
use cherupi_v4l.Stream.Visit.{
  CameraStream, Pacing, Streaming, Visit, change, change_all, changed_before, conclude_turn,
  find_frame, find_taken, is_paced, note_answer, persist_cursors, persisted, send_taken, shape,
  store_at, subscribes, take_captured, take_frame, unsubscribes, update_stream, visit, with_options,
}
use cherupi_v4l.Stream.Reach.{IsOpen, streaming_loop-reaches}

abbrev sample : FrameData
sample = record {
  bytes = 1 ∷ 2 ∷ 3 ∷ 4 ∷ 5 ∷ [];
  frame_id = 7;
  camera_id = 1;
  width = 2;
  height = 1;
  bytes_per_line = 2;
  pixel_format = 0;
  timestamp_us = 1000;
  frame_duration_us = 33333;
  lens_position = 0;
  af_state = 255;
  focus_fom = 0;
}

abbrev sets : List (CornerSet ℕ)
sets = record { set_id = 0; marker_id = 9; corners = (1, 2) ∷ (3, 4) ∷ [] } ∷ []

abbrev transfer : Transfer {D = ℕ} (λ d. d)
transfer = record {
  frame = sample;
  corner_sets = sets;
  transfer_detection_kind = 2;
  frame_uuid = 77;
  transfer_chunks = 1;
}

joined-all_example : joined 2 sample.bytes 0 (total_chunks 2 (length sample.bytes)) ≡ sample.bytes
joined-all_example = joined-all 2 sample.bytes (omega arith)

-- The calm server, and one whose client goes away at tick 9.
abbrev calm_server : Environment
calm_server t = record {
  should_stop = false;
  is_streaming = true;
  has_backpressure = false;
  has_sink = true;
  buffered_amount = 0;
  is_priority_clear = true;
  is_past_deadline = ltb 3 t;
  accepts = true;
}

abbrev closing_server : Environment
closing_server t = record (calm_server t) { has_sink = ltb t 9 }

abbrev streamer : Streamer ℕ
streamer = record {
  wire = [];
  bytes_sent = 0;
  chunks_sent = 0;
  priority_abandoned = 0;
  current_transfer = none;
  rate = 0;
}

abbrev messages : List (List ℕ)
messages = (1 ∷ []) ∷ (2 ∷ []) ∷ []

send_chunked_frame-prefix_example :
    SentPrefix
      ((0 ∷ []) ∷ messages)
      streamer
      (send_chunked_frame suc closing_server 5 (0 ∷ []) messages streamer)
send_chunked_frame-prefix_example =
    send_chunked_frame-prefix suc closing_server 5 (0 ∷ []) messages streamer

calm_server-HasDeadline : HasDeadline calm_server 4
calm_server-HasDeadline t h = ground arith

send_chunked_frame-finishes_example :
    IsFinished (send_chunked_frame suc calm_server 5 (0 ∷ []) messages streamer)
send_chunked_frame-finishes_example =
    send_chunked_frame-finishes suc calm_server 4 4 (0 ∷ []) messages streamer
      calm_server-HasDeadline (omega arith)

calm_server-IsCalm : (t : ℕ) → IsCalm (calm_server t)
calm_server-IsCalm t = (refl, refl, refl, refl, omega arith, refl, refl)

send_chunked_frame-arrives_example :
    ((send_chunked_frame suc calm_server 5 (0 ∷ []) messages streamer).success ≡ some true)
    × ((send_chunked_frame suc calm_server 5 (0 ∷ []) messages streamer).streamer.wire
        ≡ [] ++ (0 ∷ []) ∷ messages)
send_chunked_frame-arrives_example =
    send_chunked_frame-arrives suc calm_server 4 (0 ∷ []) messages streamer calm_server-IsCalm

abbrev new_session : Session ℕ
new_session = record {
  camera_count = 2;
  sink_attached = false;
  subscriptions = [];
  streaming_active = false;
  should_stop_loop = false;
  thread_joinable = false;
  transfer_camera = none;
  transfer_in_progress = false;
  under_pressure = false;
  pressure_since = 0;
}

new_session-IsConsistent : IsConsistent new_session
unfolding has_subscription
new_session-IsConsistent = record {
  thread_matches = refl;
  active_attached = λ h. cc;
  serves = λ h. cc;
  not_stopping = λ h. cc;
}

abbrev some_calls : List (Call ℕ)
some_calls = starts 0 1 ∷ attaches ∷ stops 0 ∷ detaches ∷ attaches ∷ starts 1 4 ∷ []

calls-IsConsistent_example :
    (q : Session ℕ) × (calls some_calls new_session ≡ some q) × IsConsistent q
calls-IsConsistent_example = calls-IsConsistent some_calls new_session new_session-IsConsistent

-- A session of two cameras, of which camera 2 has a new frame. A time is a tick.
abbrev pacing : Pacing ℕ ℕ ℕ
pacing = record {
  is_limited = λ d. ltb 0 d;
  is_due = λ d last now. leb (last + d) now;
  scaled = λ k x. x;
  epoch = 0;
}

abbrev subscription : CameraStream ℕ ℕ
subscription = record {
  options = record { max_fps = 0; subsample = 1 };
  camera_cursor = 3;
  detected_cursor = 0;
  last_sent = 0;
}

abbrev capturing : Camera ℕ
capturing = record (fresh_camera 2) { latest_frame = some sample; latest_seq = 4 }

-- Camera 1 is unsubscribed while the frame goes out.
abbrev turn : Visit ℕ ℕ ℕ ℕ
turn = record {
  should_stop = false;
  changes_before = subscribes 5 (record { max_fps = 2; subsample = 2 }) ∷ [];
  changes_between = [];
  changes_during = unsubscribes 1 ∷ [];
  now = 8;
  camera = some capturing;
  processor = none;
  shapes_header_only = false;
  sends_header_only = false;
  sends = true;
  sent_time = 9;
}

abbrev streaming : Streaming ℕ ℕ ℕ
streaming = record {
  streams = (1, record subscription { camera_cursor = 4 }) ∷ (2, subscription) ∷ [];
  frames_sent = 0;
  frames_dropped = 0;
  header_only_frames = 0;
  handed = [];
}

visit-Sends_example : let r = visit pacing turn 2 streaming in Sends pacing turn 2 streaming r.0 r.1
visit-Sends_example = visit-Sends pacing turn 2 streaming

turn_sends : (visit pacing turn 2 streaming).1 ≡ true
unfolding visit find_taken conclude_turn changed_before find_frame is_paced take_frame take_captured
    get_frame_for_streaming send_taken note_answer persisted change_all change with_options
    fresh_camera
turn_sends = refl

visit-MovesUp_example :
    MovesUp subscription (visit pacing turn 2 streaming) 2
    × HasCursors (lookup 2 (visit pacing turn 1 streaming).0.streams) subscription
visit-MovesUp_example =
    visit-MovesUp pacing turn 2 1 streaming subscription refl (omega arith)
      ((tt, tt), tt, ((omega arith), tt))

-- A round without a sink, and one that finds nothing at camera 1 and a frame at camera 2.
abbrev look : Look ℕ ℕ ℕ ℕ
look = record {
  should_stop = false;
  has_backpressure = false;
  has_sink = true;
  changes = [];
  is_transfer_timed_out = false;
  drain = calm_server;
  is_priority_clear = true;
  has_transfer_in_progress = false;
  turns = λ n. record turn { changes_before = []; changes_during = [] };
}

abbrev looks : List (Look ℕ ℕ ℕ ℕ)
looks = look ∷ look ∷ []

abbrev loop : Loop ℕ ℕ ℕ
loop = record { camera_order = 1 ∷ 2 ∷ []; current_index = 0; streaming = streaming }

loop-KeepsOrder : KeepsOrder pacing looks loop
unfolding round pass_guards changed_by change_all refresh_order keys same_keys fetch no_cameras
    may_fetch wait_for_buffer_drain search_cameras end_turn turn_camera advance visit find_taken
    conclude_turn changed_before find_frame is_paced take_frame take_captured
    get_frame_for_streaming send_taken note_answer shape persisted update_stream store_at
    persist_cursors fresh_camera
loop-KeepsOrder = (refl, (refl, tt))

look-IsOpen : IsOpen pacing look
unfolding may_fetch wait_for_buffer_drain
look-IsOpen = record {
  runs = refl;
  flows = refl;
  connected = refl;
  fetches = refl;
  turns_begin = refl;
}

streaming_loop-reaches_example :
    let r = streaming_loop pacing looks loop in
    GoesRound (1 ∷ 2 ∷ []) 0 r.0 (r.1).current_index × ((j : ℕ) × (j < 2) × (get_or r.0 j 0 ≡ 2))
streaming_loop-reaches_example =
    streaming_loop-reaches pacing looks loop 1 (omega arith) loop-KeepsOrder
      (look-IsOpen, (look-IsOpen, tt)) (omega arith) (omega arith)
