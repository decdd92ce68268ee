-- ===== src/Stream/Visit.antt =====
-- One turn of the inner loop of StreamManager::streamingLoop (src/stream_manager.cpp): what is done
-- for the camera whose turn it is. The server's threads may change the subscriptions before each of
-- the turn's looks at them, `Visit` says how. `D` is the type of max_fps, `F` of a coordinate, `L` of
-- a lens position and `T` of a point in time.
use cherupi_v4l.Base.{
  Bool, List, Option, [], erase, false, if◌then◌else◌, insert_sorted, leb, lookup, none, not, some,
  true, ℕ, ◌%◌, ◌++◌, ◌+◌, ◌^◌, ◌||◌, ◌∷◌,
}
use cherupi_v4l.Camera.{Camera}
use cherupi_v4l.Camera.Capture.{get_frame_for_streaming}
use cherupi_v4l.Command.Request.{StreamOptions}
use cherupi_v4l.Processor.{Processor}
use cherupi_v4l.Processor.Detection.{get_detected_frame_for_streaming}
use cherupi_v4l.Subsample.{scale_corner_sets, subsample_yuv420, subsampled_geometry}
use cherupi_v4l.Types.{
  CornerSet, FrameData, ProcessMode, detection_code, detection_kind_for_mode, is_detector_mode,
  none_mode,
}

-- The arithmetic on floating-point numbers and times: `max_fps > 0.0`, whether the period of
-- max_fps has passed between two points in time, and the scaling of a coordinate.
pub record Pacing (D F T : Type 0) : Type 0 where
  pub is_limited : D → Bool
  pub is_due : D → T → T → Bool
  pub scaled : ℕ → F → F
  pub epoch : T

pub record CameraStream (D T : Type 0) : Type 0 where
  pub options : StreamOptions D
  pub camera_cursor : ℕ
  pub detected_cursor : ℕ
  pub last_sent : T

pub data Change (D : Type 0) : Type 0 where
  subscribes : ℕ → StreamOptions D → Change D
  unsubscribes : ℕ → Change D
  unsubscribes_all : Change D

-- What a turn meets: the changes before each of its three looks at the subscriptions, the time, the
-- camera (or none), the frame processor (or none), header_only_mode at its two looks, and the answer
-- of sendHeaderOnlyFrame or sendChunkedFrame with the time after it.
pub record Visit (D F L T : Type 0) : Type 0 where
  pub should_stop : Bool
  pub changes_before : List (Change D)
  pub changes_between : List (Change D)
  pub changes_during : List (Change D)
  pub now : T
  pub camera : Option (Camera L)
  pub processor : Option (Processor F)
  pub shapes_header_only : Bool
  pub sends_header_only : Bool
  pub sends : Bool
  pub sent_time : T

-- What goes to sendHeaderOnlyFrame or sendChunkedFrame.
pub record Handed (F : Type 0) : Type 0 where
  pub frame : FrameData
  pub camera_id : ℕ
  pub corner_sets : List (CornerSet F)
  pub detection_kind : ℕ
  pub is_header_only : Bool

pub record Taken (D F T : Type 0) : Type 0 where
  pub frame : FrameData
  pub corner_sets : List (CornerSet F)
  pub detection_kind : ℕ
  pub stream : CameraStream D T  -- with the cursor advanced

-- `handed` is the frames that went out.
pub record Streaming (D F T : Type 0) : Type 0 where
  pub streams : List (ℕ × CameraStream D T)  -- streaming_cameras
  pub frames_sent : ℕ
  pub frames_dropped : ℕ
  pub header_only_frames : ℕ
  pub handed : List (Handed F)

module _ {D T : Type 0} where
  unfoldable pub store_at :
      ℕ
      → (CameraStream D T → CameraStream D T)
      → Option (CameraStream D T)
      → List (ℕ × CameraStream D T)
      → List (ℕ × CameraStream D T)
  store_at camera_id f none m = m
  store_at camera_id f (some cs) m = insert_sorted camera_id (f cs) m

  -- it->second, where the camera is still there.
  unfoldable pub update_stream :
      ℕ
      → (CameraStream D T → CameraStream D T)
      → List (ℕ × CameraStream D T)
      → List (ℕ × CameraStream D T)
  update_stream camera_id f m = store_at camera_id f (lookup camera_id m) m

  unfoldable pub with_options : T → StreamOptions D → Option (CameraStream D T) → CameraStream D T
  with_options epoch options none = record {
    options = options;
    camera_cursor = 0;
    detected_cursor = 0;
    last_sent = epoch;
  }
  with_options epoch options (some cs) = record cs { options = options }

  -- `streaming_cameras[camera_id].options = options`, and the two ways to unsubscribe.
  unfoldable pub change : T → Change D → List (ℕ × CameraStream D T) → List (ℕ × CameraStream D T)
  change epoch (subscribes camera_id options) m =
      insert_sorted camera_id (with_options epoch options (lookup camera_id m)) m
  change epoch (unsubscribes camera_id) m = erase camera_id m
  change epoch unsubscribes_all m = []

  unfoldable pub change_all :
      T → List (Change D) → List (ℕ × CameraStream D T) → List (ℕ × CameraStream D T)
  change_all epoch [] m = m
  change_all epoch (c ∷ cs) m = change_all epoch cs (change epoch c m)

-- The frame for a header without data: its geometry is that of the subsampled frame.
unfoldable pub header_only_geometry : FrameData → ℕ → FrameData
header_only_geometry frame factor =
    let g = subsampled_geometry frame.width frame.height factor in
    record frame {
      width = g.out_width;
      height = g.out_height;
      bytes_per_line = g.out_width;
      bytes = [];
    }

unfoldable pub shape_frame : Bool → ℕ → FrameData → FrameData
shape_frame header_only factor frame =
    if leb factor 1
    then frame
    else if header_only
    then header_only_geometry frame factor
    else subsample_yuv420 frame factor

-- frame_processor && isDetectorMode(frame_processor->getMode())
unfoldable pub is_detector_gated : {F : Type 0} → Option (Processor F) → Bool
is_detector_gated none = false
is_detector_gated (some p) = is_detector_mode p.config.mode

module _ {D T : Type 0} where
  unfoldable pub persist_cursors : CameraStream D T → CameraStream D T → CameraStream D T
  persist_cursors advanced cs = record cs {
    camera_cursor = advanced.camera_cursor;
    detected_cursor = advanced.detected_cursor;
  }

module _ {D F T : Type 0} where
  unfoldable pub is_paced : Pacing D F T → T → CameraStream D T → Bool
  is_paced pace now cs =
      not (pace.is_limited cs.options.max_fps) || pace.is_due cs.options.max_fps cs.last_sent now

  unfoldable pub take_detected :
      ProcessMode → Processor F → ℕ → CameraStream D T → Option (Taken D F T)
  take_detected mode p camera_id cs =
      elim (get_detected_frame_for_streaming p camera_id cs.detected_cursor) [
        | none ↦ none
        | some (df, cursor) ↦ some (record {
          frame = df.frame;
          corner_sets = df.sets;
          detection_kind = detection_code (detection_kind_for_mode mode);
          stream = record cs { detected_cursor = cursor };
        })
      ]

module _ {D F L T : Type 0} where
  unfoldable pub take_captured : ProcessMode → Camera L → CameraStream D T → Option (Taken D F T)
  take_captured mode c cs = elim (get_frame_for_streaming c cs.camera_cursor) [
    | none ↦ none
    | some (frame, cursor) ↦ some (record {
      frame = frame;
      corner_sets = [];
      detection_kind = detection_code (detection_kind_for_mode mode);
      stream = record cs { camera_cursor = cursor };
    })
  ]

  -- Detector modes stream only what the detector has processed.
  unfoldable pub take_frame :
      Option (Processor F) → Camera L → ℕ → CameraStream D T → Option (Taken D F T)
  take_frame none c camera_id cs = take_captured none_mode c cs
  take_frame (some p) c camera_id cs =
      if is_detector_gated (some p)
      then take_detected p.config.mode p camera_id cs
      else take_captured p.config.mode c cs

module _ {D F L T : Type 0} (pace : Pacing D F T) where
  unfoldable pub shape : Visit D F L T → ℕ → Taken D F T → Handed F
  shape v camera_id t = record {
    frame = shape_frame v.shapes_header_only t.stream.options.subsample t.frame;
    camera_id = camera_id;
    corner_sets = scale_corner_sets pace.scaled t.corner_sets t.stream.options.subsample;
    detection_kind = t.detection_kind;
    is_header_only = v.sends_header_only;
  }

  -- The subscriptions after the cursors are persisted and the frame is sent.
  unfoldable pub persisted : Visit D F L T → ℕ → Taken D F T → Streaming D F T → Streaming D F T
  persisted v camera_id t s = record s {
    streams = change_all pace.epoch v.changes_during (
        update_stream camera_id (persist_cursors t.stream)
          (change_all pace.epoch v.changes_between s.streams));
  }

  -- After the send, by its answer, which is `found_frame` too.
  unfoldable pub note_answer :
      Bool → Visit D F L T → Handed F → Streaming D F T → Streaming D F T × Bool
  note_answer true v h s = (
    record s {
      streams = update_stream h.camera_id (λ cs. record cs { last_sent = v.sent_time }) s.streams;
      frames_sent = (s.frames_sent + 1) % 2 ^ 64;
      header_only_frames =
          if h.is_header_only then (s.header_only_frames + 1) % 2 ^ 64 else s.header_only_frames;
      handed = s.handed ++ h ∷ [];
    },
    true,
  )
  note_answer false v h s = (record s { frames_dropped = (s.frames_dropped + 1) % 2 ^ 64 }, false)

  unfoldable pub send_taken :
      Visit D F L T → ℕ → Taken D F T → Streaming D F T → Streaming D F T × Bool
  send_taken v camera_id t s =
      note_answer v.sends v (shape v camera_id t) (persisted v camera_id t s)

  -- The frame that the turn takes of a subscribed camera, if any.
  unfoldable pub find_frame : Visit D F L T → ℕ → CameraStream D T → Option (Taken D F T)
  find_frame v camera_id cs =
      if is_paced pace v.now cs
      then elim v.camera [ none ↦ none | some c ↦ take_frame v.processor c camera_id cs ]
      else none

  unfoldable pub find_taken : Visit D F L T → ℕ → Streaming D F T → Option (Taken D F T)
  find_taken v camera_id s = elim (lookup camera_id s.streams) [
    | none ↦ none
    | some cs ↦ find_frame v camera_id cs
  ]

  unfoldable pub conclude_turn :
      Visit D F L T → ℕ → Streaming D F T → Option (Taken D F T) → Streaming D F T × Bool
  conclude_turn v camera_id s none = (s, false)
  conclude_turn v camera_id s (some t) = send_taken v camera_id t s

  unfoldable pub changed_before : Visit D F L T → Streaming D F T → Streaming D F T
  changed_before v s = record s { streams = change_all pace.epoch v.changes_before s.streams }

  unfoldable pub visit : Visit D F L T → ℕ → Streaming D F T → Streaming D F T × Bool
  visit v camera_id s =
      let s' = changed_before v s in conclude_turn v camera_id s' (find_taken v camera_id s')
