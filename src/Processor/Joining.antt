-- ===== src/Processor/Joining.antt =====
-- `stop` joins the detection thread, and `start` starts it in a detector mode only.
use cherupi_v4l.Base.{
  Bool-cases, [], ap, arith, false, inl, inr, refl, some, true, ℕ, ◌++◌, ◌∙◌, ◌≡◌,
}
use cherupi_v4l.Processor.{Processor}
use cherupi_v4l.Processor.Detection.{Detectors}
use cherupi_v4l.Processor.Lifecycle.{
  cancel_trigger, reset_session, start, start_detection, start_mode, start_writers, stop,
  stop_worker, stop_writers,
}
use cherupi_v4l.Types.{
  ProcessMode, batch, buffer, is_detector_mode, is_none_mode, none_mode, trigger, uses_writer_pool,
}
use cherupi_v4l.Command.Config.{ProcessConfig}
use cherupi_v4l.Processor.Threads.{IsSameThread, finish_all-IsSameThread}
use cherupi_v4l.Processor.Writer.{Writers}

module _ {D : Type 0} where
  stop_writers-IsSameThread :
      (written : Writers) (p : Processor D) → IsSameThread p (stop_writers written p)
  unfolding stop_writers
  stop_writers-IsSameThread written p =
      let q = record p {
        write_queue = p.write_queue ++ p.pending_batch;
        pending_batch = [];
        stop_threads = true;
      } in
      ground (
        arith,
        finish_all-IsSameThread written.can_write (written.finishing (q.writing ++ q.write_queue))
            (record q { writing = []; write_queue = [] }),
      )

  cancel_trigger-IsSameThread : (p : Processor D) → IsSameThread p (cancel_trigger p)
  unfolding cancel_trigger
  cancel_trigger-IsSameThread p = ground arith

  stop_worker-joins :
      (d : Detectors D) (p : Processor D)
      → (p.detection_thread ≡ true → is_detector_mode p.config.mode ≡ true)
      → (stop_worker d p).detection_thread ≡ false
  unfolding stop_worker
  stop_worker-joins d p h = ground arith

  pub stop-joins :
      (d : Detectors D) (written : Writers) (p : Processor D)
      → (p.detection_thread ≡ true → is_detector_mode p.config.mode ≡ true)
      → (stop d written p).detection_thread ≡ false
  unfolding stop
  stop-joins d written p h =
      let c = cancel_trigger (record p { enabled = false }) in
      ground (
        arith,
        cancel_trigger-IsSameThread (record p { enabled = false }),
        stop_worker-joins d c,
        stop_writers-IsSameThread written (stop_worker d c),
      )

  reset_session-IsSameThread : (mem : ℕ) (p : Processor D) → IsSameThread p (reset_session mem p)
  unfolding reset_session
  reset_session-IsSameThread mem p = record { same_config = refl; same_thread = refl }

  start_mode-runs :
      (m : ProcessMode) (p : Processor D)
      → p.detection_thread ≡ false
      → (q : Processor D) × (start_mode m p ≡ some q)
        × (q.config ≡ p.config)
        × (q.detection_thread ≡ true → is_detector_mode m ≡ true)
  unfolding start_mode start_detection start_writers uses_writer_pool is_detector_mode
  start_mode-runs buffer p h = (record p { buffered_frames = [] }, refl, refl, ground arith)
  start_mode-runs none_mode p h = (p, refl, refl, ground arith)
  start_mode-runs batch p h = (start_writers p, refl, ground arith, ground arith)
  start_mode-runs trigger p h = (start_writers p, refl, ground arith, ground arith)
  start_mode-runs m p h =
      (record (start_writers p) { detection_thread = true }, ground arith, ground arith, λ e. refl)

  pub start-runs :
      (mem : ℕ) (p : Processor D)
      → p.detection_thread ≡ false
      → (q : Processor D) × (start mem p ≡ some q)
        × (q.detection_thread ≡ true → is_detector_mode q.config.mode ≡ true)
  unfolding start
  start-runs mem p h = elim (Bool-cases (is_none_mode p.config.mode)) [
    | inl e ↦ (record p { enabled = false }, rw e refl, ground arith)
    | inr e ↦
        let (q, s, c, m) =
          start_mode-runs p.config.mode (reset_session mem p)
            ((reset_session-IsSameThread mem p).same_thread ∙ h) in
        (
          q,
          rw e s,
          λ k.
              ap (λ (g : ProcessConfig D). is_detector_mode g.mode)
                (c ∙ (reset_session-IsSameThread mem p).same_config)
              ∙ m k,
        )
  ]
