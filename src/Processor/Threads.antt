-- ===== src/Processor/Threads.antt =====
-- Which steps of the frame processor start or join the detection thread.
use cherupi_v4l.Base.{
  Bool, List, Option, [], arith, get_elem?, length, lookup, none, some, suc, zero, ℕ, ◌+◌, ◌∙◌, ◌∷◌,
  ◌≡◌,
}
use cherupi_v4l.Base.Int.{ℤ}
use cherupi_v4l.Processor.{PendingTrigger, Processor, WriteTask}
use cherupi_v4l.Processor.Backlog.{release_backlog, reserve_backlog}
use cherupi_v4l.Processor.Detection.{
  Detectors, note_detected, process_detection, publish, take_pending,
}
use cherupi_v4l.Processor.Lifecycle.{reset_frames_saved_counts}
use cherupi_v4l.Processor.Save.{push_batch, save_batched, save_buffered, save_frame, save_in_mode}
use cherupi_v4l.Processor.Session.{
  Event, captured, counts_reset, finished, flushed, pick, picked, step, taken, worked,
}
use cherupi_v4l.Processor.Trigger.{
  arm_trigger, capture_frame, capture_of, handle_trigger_frame, queue_write, serve_trigger, served,
}
use cherupi_v4l.Processor.Writer.{
  finish_all, finish_task, flush_buffered_frames, flush_frame, flush_frames, note_saved, remove_at,
  take_task, write_task_done,
}
use cherupi_v4l.Types.{FrameData}

module _ {D : Type 0} where
  -- The configuration and the detection thread are the same.
  pub record IsSameThread (p q : Processor D) : Type 0 where
    pub same_config : q.config ≡ p.config
    pub same_thread : q.detection_thread ≡ p.detection_thread

  IsSameThread-trans :
      (p q r : Processor D) → IsSameThread p q → IsSameThread q r → IsSameThread p r
  IsSameThread-trans p q r a b = record {
    same_config = b.same_config ∙ a.same_config;
    same_thread = b.same_thread ∙ a.same_thread;
  }

  reserve_backlog-IsSameThread : (p : Processor D) (n : ℕ) → IsSameThread p (reserve_backlog p n).0
  unfolding reserve_backlog
  reserve_backlog-IsSameThread p n = ground arith

  queue_write-IsSameThread : (p : Processor D) (f : FrameData) → IsSameThread p (queue_write p f)
  unfolding queue_write
  queue_write-IsSameThread p f = ground (arith, reserve_backlog-IsSameThread p (length f.bytes))

  capture_frame-IsSameThread :
      (p : Processor D) (t : PendingTrigger) (f : FrameData) → IsSameThread p (capture_frame p t f)
  unfolding capture_frame
  capture_frame-IsSameThread p t f = ground (
    arith,
    queue_write-IsSameThread (record p { pending_trigger = none }) f,
    queue_write-IsSameThread (record p { pending_trigger = some (served t (capture_of p f)) }) f,
  )

  serve_trigger-IsSameThread :
      (p : Processor D) (t : PendingTrigger) (left : Option ℕ) (f : FrameData)
      → IsSameThread p (serve_trigger p t left f)
  unfolding serve_trigger
  serve_trigger-IsSameThread p t none f = ground arith
  serve_trigger-IsSameThread p t (some zero) f = capture_frame-IsSameThread p t f
  serve_trigger-IsSameThread p t (some (suc n)) f = ground arith

  served-IsSameThread :
      (o : Option PendingTrigger) (p : Processor D) (f : FrameData)
      → IsSameThread p
          (elim o [ none ↦ p | some t ↦ serve_trigger p t (lookup f.camera_id t.waiting) f ])
  served-IsSameThread none p f = ground arith
  served-IsSameThread (some t) p f = serve_trigger-IsSameThread p t (lookup f.camera_id t.waiting) f

  handle_trigger_frame-IsSameThread :
      (p : Processor D) (f : FrameData) → IsSameThread p (handle_trigger_frame p f)
  unfolding handle_trigger_frame
  handle_trigger_frame-IsSameThread p f = served-IsSameThread p.pending_trigger p f

  pub save_frame-IsSameThread : (p : Processor D) (f : FrameData) → IsSameThread p (save_frame p f)
  unfolding save_frame save_in_mode save_buffered save_batched push_batch
  save_frame-IsSameThread p f = ground (
    arith,
    reserve_backlog-IsSameThread p (length f.bytes),
    handle_trigger_frame-IsSameThread p f,
  )

  write_task_done-IsSameThread :
      (written : Bool) (t : WriteTask) (p : Processor D)
      → IsSameThread p (write_task_done written t p)
  unfolding write_task_done note_saved release_backlog
  write_task_done-IsSameThread written t p = ground arith

  finish_at-IsSameThread :
      (o : Option WriteTask) (written : Bool) (q : List WriteTask) (p : Processor D)
      → IsSameThread p (elim o [
        | none ↦ p
        | some task ↦ write_task_done written task (record p { writing = q })
      ])
  finish_at-IsSameThread none written q p = ground arith
  finish_at-IsSameThread (some t) written q p =
      ground (arith, write_task_done-IsSameThread written t (record p { writing = q }))

  finish_task-IsSameThread :
      (written : Bool) (i : ℕ) (p : Processor D) → IsSameThread p (finish_task written i p)
  unfolding finish_task
  finish_task-IsSameThread written i p =
      finish_at-IsSameThread (get_elem? p.writing i) written (remove_at i p.writing) p

  pub finish_all-IsSameThread :
      (written : WriteTask → Bool) (ts : List WriteTask) (p : Processor D)
      → IsSameThread p (finish_all written ts p)
  unfolding finish_all
  finish_all-IsSameThread written [] p = ground arith
  finish_all-IsSameThread written (t ∷ ts) p =
      IsSameThread-trans p (write_task_done (written t) t p)
        (finish_all written ts (write_task_done (written t) t p))
        (write_task_done-IsSameThread (written t) t p)
        (finish_all-IsSameThread written ts (write_task_done (written t) t p))

  process_detection-IsSameThread :
      (d : Detectors D) (p : Processor D) (f : FrameData) → IsSameThread p (process_detection d p f)
  unfolding process_detection note_detected publish
  process_detection-IsSameThread d p f = ground (
    arith,
    queue_write-IsSameThread
        (record p {
          frames_checked = p.frames_checked + 1;
          frames_detected = p.frames_detected + 1;
        })
        f,
  )

  pick-IsSameThread : (p : Processor D) → IsSameThread p (pick p)
  unfolding pick take_pending
  pick-IsSameThread p = ground arith

  flush_frames-IsSameThread :
      (opened : List ℕ → Bool) (fs : List FrameData) (p : Processor D)
      → IsSameThread p (flush_frames opened fs p)
  unfolding flush_frames flush_frame note_saved
  flush_frames-IsSameThread opened [] p = ground arith
  flush_frames-IsSameThread opened (f ∷ fs) p =
      ground (arith, flush_frames-IsSameThread opened fs (flush_frame opened f p))

  pub flush_buffered_frames-IsSameThread :
      (opened : List ℕ → Bool) (p : Processor D) → IsSameThread p (flush_buffered_frames opened p)
  unfolding flush_buffered_frames release_backlog
  flush_buffered_frames-IsSameThread opened p =
      ground (arith, flush_frames-IsSameThread opened p.buffered_frames p)

  pub arm_trigger-IsSameThread :
      (p : Processor D) (camera_ids : List ℕ) (skip : ℤ)
      → IsSameThread p (arm_trigger p camera_ids skip).0
  unfolding arm_trigger
  arm_trigger-IsSameThread p [] skip = ground arith
  arm_trigger-IsSameThread p (c ∷ cs) skip = ground arith

  pub step-IsSameThread :
      (d : Detectors D) (e : Event) (p : Processor D) → IsSameThread p (step d e p)
  unfolding step take_task reset_frames_saved_counts
  step-IsSameThread d (captured f) p = save_frame-IsSameThread p f
  step-IsSameThread d taken p = ground arith
  step-IsSameThread d (finished written i) p = finish_task-IsSameThread written i p
  step-IsSameThread d picked p = pick-IsSameThread p
  step-IsSameThread d (worked f) p = process_detection-IsSameThread d p f
  step-IsSameThread d (Event.armed camera_ids skip) p = arm_trigger-IsSameThread p camera_ids skip
  step-IsSameThread d (flushed opened) p = flush_buffered_frames-IsSameThread opened p
  step-IsSameThread d counts_reset p = ground arith
