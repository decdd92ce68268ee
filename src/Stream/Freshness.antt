-- ===== src/Stream/Freshness.antt =====
-- What a turn of StreamManager::streamingLoop (src/stream_manager.cpp) sends, and what it leaves of
-- the session's cursors.
use cherupi_v4l.Base.{
  Bool, Bool-cases, Option, Option-cases, [], arith, false, inl, inr, lookup, none, refl, some,
  true, ℕ, ◌%◌, ◌++◌, ◌+◌, ◌<◌, ◌^◌, ◌∷◌, ◌≡◌, ◌≤◌, ◌⊎◌,
}
use cherupi_v4l.Camera.{Camera}
use cherupi_v4l.Camera.Capture.{get_frame_for_streaming}
use cherupi_v4l.Processor.{DetectedFrame, Processor}
use cherupi_v4l.Processor.Detection.{get_detected_frame_for_streaming}
use cherupi_v4l.Stream.Visit.{
  CameraStream, Pacing, Streaming, Taken, Visit, changed_before, conclude_turn, find_frame,
  find_taken, is_detector_gated, is_paced, note_answer, persisted, send_taken, shape, take_captured,
  take_detected, take_frame, visit,
}
use cherupi_v4l.Types.{FrameData, ProcessMode, is_detector_mode, none_mode}

module _ {D T : Type 0} where
  -- One cursor has moved up, and all else is as before.
  abbrev pub Advances : CameraStream D T → CameraStream D T → Type 0
  Advances cs cs' =
      (cs'.options ≡ cs.options)
      × (cs.camera_cursor ≤ cs'.camera_cursor)
      × (cs.detected_cursor ≤ cs'.detected_cursor)
      × (cs.camera_cursor + cs.detected_cursor < cs'.camera_cursor + cs'.detected_cursor)

module _ {D F T : Type 0} where
  take_detected-new :
      (mode : ProcessMode) (p : Processor F) (camera_id : ℕ) (cs : CameraStream D T)
      (t : Taken D F T)
      → take_detected mode p camera_id cs ≡ some t
      → (df : DetectedFrame F) × (lookup camera_id p.detected_for_stream ≡ some df)
        × (df.frame ≡ t.frame)
        × (cs.detected_cursor < df.seq)
        × Advances cs t.stream
  unfolding take_detected get_detected_frame_for_streaming
  take_detected-new mode p camera_id cs t h =
      elim (Option-cases (lookup camera_id p.detected_for_stream)) [
        | inl e ↦ ground arith
        | inr (df, e) ↦ (df, e, ground arith, ground arith, ground arith)
      ]

module _ {D F L T : Type 0} where
  -- `frame` is newer than the cursor: in a detector mode the camera's detected frame, else the one
  -- that the camera has published.
  abbrev pub IsNew :
      Option (Processor F) → Option (Camera L) → ℕ → CameraStream D T → FrameData → Type 0
  IsNew processor camera camera_id cs frame =
      ((p : Processor F) × (df : DetectedFrame F) × (processor ≡ some p)
        × (is_detector_gated processor ≡ true)
        × (lookup camera_id p.detected_for_stream ≡ some df)
        × (df.frame ≡ frame)
        × (cs.detected_cursor < df.seq))
      ⊎ ((c : Camera L) × (camera ≡ some c)
          × (c.latest_frame ≡ some frame)
          × (cs.camera_cursor < c.latest_seq)
          × (is_detector_gated processor ≡ false))

  take_captured-new :
      (mode : ProcessMode) (c : Camera L) (cs : CameraStream D T) (t : Taken D F T)
      → take_captured mode c cs ≡ some t
      → (c.latest_frame ≡ some t.frame) × (cs.camera_cursor < c.latest_seq) × Advances cs t.stream
  unfolding take_captured get_frame_for_streaming
  take_captured-new mode c cs t h = ground arith

  take_frame-IsNew :
      (processor : Option (Processor F)) (c : Camera L) (camera_id : ℕ) (cs : CameraStream D T)
      (t : Taken D F T)
      → take_frame processor c camera_id cs ≡ some t
      → IsNew processor (some c) camera_id cs t.frame × Advances cs t.stream
  unfolding take_frame is_detector_gated
  take_frame-IsNew none c camera_id cs t h =
      let new = take_captured-new none_mode c cs t h in (inr (c, refl, new.0, new.1, refl), new.2)
  take_frame-IsNew (some p) c camera_id cs t h =
      elim (Bool-cases (is_detector_mode p.config.mode)) [
        | inl e ↦
            let new = take_detected-new p.config.mode p camera_id cs t (rw e at h) in
            (inl (p, new.0, refl, e, new.1, new.2, new.3), new.4)
        | inr e ↦
            let new = take_captured-new p.config.mode c cs t (rw e at h) in
            (inr (c, refl, new.0, new.1, e), new.2)
      ]

  take_of-IsNew :
      (processor : Option (Processor F)) (camera : Option (Camera L)) (camera_id : ℕ)
      (cs : CameraStream D T) (t : Taken D F T)
      → elim camera [ none ↦ none | some c ↦ take_frame processor c camera_id cs ] ≡ some t
      → IsNew processor camera camera_id cs t.frame × Advances cs t.stream
  take_of-IsNew processor none camera_id cs t h = cc
  take_of-IsNew processor (some c) camera_id cs t h = take_frame-IsNew processor c camera_id cs t h

module _ {D F L T : Type 0} (pace : Pacing D F T) where
  find_frame-IsNew :
      (v : Visit D F L T) (camera_id : ℕ) (cs : CameraStream D T) (t : Taken D F T)
      → find_frame pace v camera_id cs ≡ some t
      → (is_paced pace v.now cs ≡ true)
        × IsNew v.processor v.camera camera_id cs t.frame
        × Advances cs t.stream
  unfolding find_frame
  find_frame-IsNew v camera_id cs t h = elim (Bool-cases (is_paced pace v.now cs)) [
    | inl e ↦
        let new = take_of-IsNew v.processor v.camera camera_id cs t (rw e at h) in (e, new.0, new.1)
    | inr e ↦ let nothing : none ≡ some t = rw e at h in cc
  ]

  -- What a turn may take: the camera is subscribed, its next frame is due, and `t` is new.
  abbrev pub MayTake : Visit D F L T → ℕ → Option (CameraStream D T) → Taken D F T → Type 0
  MayTake v camera_id o t =
      (cs : CameraStream D T) × (o ≡ some cs)
      × (is_paced pace v.now cs ≡ true)
      × IsNew v.processor v.camera camera_id cs t.frame
      × Advances cs t.stream

  find_of-MayTake :
      (v : Visit D F L T) (camera_id : ℕ) (o : Option (CameraStream D T)) (t : Taken D F T)
      → elim o [ none ↦ none | some cs ↦ find_frame pace v camera_id cs ] ≡ some t
      → MayTake v camera_id o t
  find_of-MayTake v camera_id none t h = cc
  find_of-MayTake v camera_id (some cs) t h =
      let new = find_frame-IsNew v camera_id cs t h in (cs, refl, new.0, new.1, new.2)

  pub find_taken-MayTake :
      (v : Visit D F L T) (camera_id : ℕ) (s : Streaming D F T) (t : Taken D F T)
      → find_taken pace v camera_id s ≡ some t
      → MayTake v camera_id (lookup camera_id s.streams) t
  unfolding find_taken
  find_taken-MayTake v camera_id s t h =
      find_of-MayTake v camera_id (lookup camera_id s.streams) t h

  -- What a turn leaves: with a frame found, that frame went out, or else nothing went out.
  abbrev pub Sends : Visit D F L T → ℕ → Streaming D F T → Streaming D F T → Bool → Type 0
  Sends v camera_id s q true =
      (t : Taken D F T) × MayTake v camera_id (lookup camera_id (changed_before pace v s).streams) t
      × (v.sends ≡ true)
      × (q.handed ≡ s.handed ++ shape pace v camera_id t ∷ [])
      × (q.frames_sent ≡ (s.frames_sent + 1) % 2 ^ 64)
      × (q.frames_dropped ≡ s.frames_dropped)
  Sends v camera_id s q false = (q.handed ≡ s.handed) × (q.frames_sent ≡ s.frames_sent)

  note_answer-Sends :
      (answer : Bool) (v : Visit D F L T) (camera_id : ℕ) (s : Streaming D F T) (t : Taken D F T)
      → v.sends ≡ answer
      → MayTake v camera_id (lookup camera_id (changed_before pace v s).streams) t
      → let r =
          note_answer pace answer v
            (shape pace v camera_id t)
            (persisted pace v camera_id t (changed_before pace v s)) in
        Sends v camera_id s r.0 r.1
  unfolding note_answer persisted changed_before
  note_answer-Sends true v camera_id s t e h = (t, h, e, refl, refl, refl)
  note_answer-Sends false v camera_id s t e h = (refl, refl)

  conclude_turn-Sends :
      (v : Visit D F L T) (camera_id : ℕ) (s : Streaming D F T) (o : Option (Taken D F T))
      → find_taken pace v camera_id (changed_before pace v s) ≡ o
      → let r = conclude_turn pace v camera_id (changed_before pace v s) o in
        Sends v camera_id s r.0 r.1
  unfolding conclude_turn send_taken changed_before
  conclude_turn-Sends v camera_id s none e = (refl, refl)
  conclude_turn-Sends v camera_id s (some t) e =
      note_answer-Sends v.sends v camera_id s t refl
        (find_taken-MayTake v camera_id (changed_before pace v s) t e)

  -- A turn that finds a frame sends exactly one: the camera is subscribed, its max_fps, if any,
  -- lets the frame go, and the frame is newer than the subscription's cursor. In a detector mode it
  -- is the camera's detected frame, else the one the camera has published. It goes out after all
  -- the frames before, as the session's options shape it. A turn that finds none sends none.
  pub visit-Sends :
      (v : Visit D F L T) (camera_id : ℕ) (s : Streaming D F T)
      → let r = visit pace v camera_id s in Sends v camera_id s r.0 r.1
  unfolding visit
  visit-Sends v camera_id s =
      conclude_turn-Sends v camera_id s (find_taken pace v camera_id (changed_before pace v s)) refl
