-- ===== src/Processor/Restart.antt =====
-- Starting again after a stop.
use cherupi_v4l.Base.{ap, arith, false, none, refl, some, true, ℕ, ◌∙◌, ◌≡◌}
use cherupi_v4l.Processor.{Processor}
use cherupi_v4l.Processor.Detection.{Detectors}
use cherupi_v4l.Processor.Lifecycle.{
  cancel_trigger, configure, reset_session, start, start_detection, start_mode, start_writers, stop,
  stop_worker, stop_writers,
}
use cherupi_v4l.Command.Config.{ProcessConfig}
use cherupi_v4l.Processor.OutputDir.{FileSystem}
use cherupi_v4l.Types.{
  ProcessMode, buffer, is_detector_mode, is_none_mode, none_mode, uses_writer_pool,
}
use cherupi_v4l.Processor.Writer.{Writers}

detector→active : (m : ProcessMode) → is_detector_mode m ≡ true → is_none_mode m ≡ false
unfolding is_detector_mode
detector→active none_mode h = cc
detector→active m h = refl

none_mode-idle :
    (m : ProcessMode) → m ≡ none_mode → (is_detector_mode m ≡ false) × (uses_writer_pool m ≡ false)
unfolding is_detector_mode uses_writer_pool
none_mode-idle m h = ground arith

module _ {D : Type 0} where
  start_mode-detector :
      (m : ProcessMode) (p q : Processor D)
      → is_detector_mode m ≡ true
      → start_mode m p ≡ some q
      → q.detection_thread ≡ true
  unfolding start_mode start_writers start_detection is_detector_mode uses_writer_pool
  start_mode-detector buffer p q e h = cc
  start_mode-detector m p q e h = ground arith

  start_mode-none :
      (m : ProcessMode) (p : Processor D)
      → is_detector_mode m ≡ true
      → p.detection_thread ≡ true
      → start_mode m p ≡ none
  unfolding start_mode start_writers start_detection is_detector_mode uses_writer_pool
  start_mode-none buffer p e h = cc
  start_mode-none m p e h = ground arith

  cancel_trigger-keeps :
      (p : Processor D)
      → ((cancel_trigger p).config ≡ p.config)
        × ((cancel_trigger p).detection_thread ≡ p.detection_thread)
  unfolding cancel_trigger
  cancel_trigger-keeps p = ground arith

  stop_worker-other :
      (d : Detectors D) (p : Processor D)
      → is_detector_mode p.config.mode ≡ false
      → stop_worker d p ≡ p
  unfolding stop_worker
  stop_worker-other d p h = ground arith

  stop_writers-other :
      (written : Writers) (p : Processor D)
      → uses_writer_pool p.config.mode ≡ false
      → stop_writers written p ≡ p
  unfolding stop_writers
  stop_writers-other written p h = ground arith

  stop-none_mode :
      (d : Detectors D) (written : Writers) (p : Processor D)
      → p.config.mode ≡ none_mode
      → (stop d written p).detection_thread ≡ p.detection_thread
  unfolding stop
  stop-none_mode d written p h =
      let c = cancel_trigger (record p { enabled = false }) in
      let (same, thread) = cancel_trigger-keeps (record p { enabled = false }) in
      let (w, o) = none_mode-idle c.config.mode (ap (λ (k : ProcessConfig D). k.mode) same ∙ h) in
      ap (λ (q : Processor D). q.detection_thread)
        (ap (stop_writers written) (stop_worker-other d c w) ∙ stop_writers-other written c o)
      ∙ thread

  configure-keeps :
      (fs : FileSystem) (c : ProcessConfig D) (p : Processor D)
      → ((configure fs c p).config ≡ c) × ((configure fs c p).detection_thread ≡ p.detection_thread)
  unfolding configure
  configure-keeps fs c p = ground arith

  start-terminates :
      (mem : ℕ) (p : Processor D)
      → is_detector_mode p.config.mode ≡ true
      → p.detection_thread ≡ true
      → start mem p ≡ none
  unfolding start reset_session
  start-terminates mem p e h =
      rw (detector→active p.config.mode e, start)
        (start_mode-none p.config.mode (reset_session mem p) e h)

  start-detector :
      (mem : ℕ) (p q : Processor D)
      → is_detector_mode p.config.mode ≡ true
      → start mem p ≡ some q
      → q.detection_thread ≡ true
  unfolding start
  start-detector mem p q e h =
      start_mode-detector p.config.mode (reset_session mem p) q e
        (rw (detector→active p.config.mode e, start) at h)

  -- A mode change to `none` while a detector mode is running leaves the detection thread joinable
  -- through the stop, and the next start in a detector mode ends in std::terminate.
  pub restart-terminates :
      (d : Detectors D) (written : Writers) (fs : FileSystem) (mem : ℕ) (off on : ProcessConfig D)
      (p q : Processor D)
      → is_detector_mode p.config.mode ≡ true
      → start mem p ≡ some q
      → off.mode ≡ none_mode
      → is_detector_mode on.mode ≡ true
      → start mem (configure fs on (stop d written (configure fs off q))) ≡ none
  restart-terminates d written fs mem off on p q e h o n =
      let a = configure fs off q in
      let b = stop d written a in
      let c = configure fs on b in
      let (ca, ta) = configure-keeps fs off q in
      let (cb, tc) = configure-keeps fs on b in
      let tb = stop-none_mode d written a (ap (λ (k : ProcessConfig D). k.mode) ca ∙ o) in
      start-terminates mem c (ap (λ (k : ProcessConfig D). is_detector_mode k.mode) cb ∙ n)
        (tc ∙ tb ∙ ta ∙ start-detector mem p q e h)

  stop_worker-joined :
      (d : Detectors D) (p : Processor D)
      → is_detector_mode p.config.mode ≡ true
      → (stop_worker d p).detection_thread ≡ false
  unfolding stop_worker
  stop_worker-joined d p h = ground arith
