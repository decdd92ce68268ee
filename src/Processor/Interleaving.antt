-- ===== src/Processor/Interleaving.antt =====
-- The backlog counter through the steps of the writer threads, the detection worker and the server,
-- and through every interleaving of them.
use cherupi_v4l.Base.{
  Bool, List, Option-cases, [], arith, false, get_elem?, inl, inr, length, refl, some, suc, true,
  zero, ℕ, ◌++◌, ◌+◌, ◌<◌, ◌∷◌, ◌≡◌, ◌≤◌,
}
use cherupi_v4l.Processor.{Processor, WriteTask}
use cherupi_v4l.Processor.Session.{
  Event, armed, captured, counts_reset, finished, flushed, pick, picked, run, step, taken, worked,
}
use cherupi_v4l.Base.Int.{ℤ}
use cherupi_v4l.Processor.Accounting.{
  Accounted, held, queue_write-Accounted, save_frame-Accounted, tasks_size, tasks_size-append,
  tasks_size-one,
}
use cherupi_v4l.Processor.Backlog.{release_backlog}
use cherupi_v4l.Processor.Detection.{
  Detectors, next_pending, note_detected, process_detection, publish, run_detector, take_pending,
}
use cherupi_v4l.Processor.Lifecycle.{reset_frames_saved_counts}
use cherupi_v4l.Processor.Trigger.{arm_trigger}
use cherupi_v4l.Processor.Writer.{
  finish_task, flush_buffered_frames, flush_frame, flush_frames, frames_size, note_saved, remove_at,
  take_task, write_task_done,
}
use cherupi_v4l.Types.{FrameData}

tasks_size-remove_at :
    (ts : List WriteTask) (i : ℕ) (t : WriteTask)
    → get_elem? ts i ≡ some t
    → tasks_size ts ≡ length t.payload + tasks_size (remove_at i ts)
unfolding tasks_size remove_at
tasks_size-remove_at [] i t h = cc
tasks_size-remove_at (u ∷ ts) zero t h = ground arith
tasks_size-remove_at (u ∷ ts) (suc i) t h = omega (arith, tasks_size-remove_at ts i t h)

module _ {D : Type 0} where
  take_task-Accounted : (p : Processor D) → Accounted p → Accounted (take_task p)
  unfolding take_task tasks_size
  take_task-Accounted p v =
      elim p.write_queue
          as (λ q.
            p.write_queue ≡ q
            → Accounted (elim q [
              | [] ↦ p
              | task ∷ rest ↦ record p { write_queue = rest; writing = p.writing ++ task ∷ [] }
            ])) [
              | [] ↦ λ e. v
              | task ∷ rest ↦ λ e.
                  let before : tasks_size p.write_queue ≡ length task.payload + tasks_size rest =
                    rw e in
                  ground (arith, tasks_size-append p.writing (task ∷ []), tasks_size-one task)
            ]
        refl

  write_task_done-Accounted :
      (written : Bool) (task : WriteTask) (p : Processor D)
      → 0 < p.backlog_budget
      → p.backlog_bytes ≡ held p + length task.payload
      → p.backlog_bytes ≤ p.backlog_budget
      → Accounted (write_task_done written task p)
  unfolding write_task_done note_saved release_backlog
  write_task_done-Accounted written task p limited balanced within = ground arith

  finish_task-Accounted :
      (written : Bool) (i : ℕ) (p : Processor D) → Accounted p → Accounted (finish_task written i p)
  unfolding finish_task
  finish_task-Accounted written i p v = elim (Option-cases (get_elem? p.writing i)) [
    | inl e ↦ rw (e, finish_task) v
    | inr (task, e) ↦
        rw (e, finish_task)
          (write_task_done-Accounted written task (record p { writing = remove_at i p.writing })
            (ground arith) (omega (arith, v.balanced, tasks_size-remove_at p.writing i task e))
            (ground arith))
  ]

  pick-Accounted : (p : Processor D) → Accounted p → Accounted (pick p)
  unfolding pick take_pending
  pick-Accounted p v =
      ground (arith, Option-cases (next_pending p.last_detected_camera p.pending_detection))

  note_detected-Accounted :
      (detected : Bool) (p : Processor D) (f : FrameData)
      → Accounted p
      → Accounted (note_detected detected p f)
  unfolding note_detected
  note_detected-Accounted false p f v = v
  note_detected-Accounted true p f v =
      ground (arith, queue_write-Accounted (record p { frames_detected = p.frames_detected + 1 }) f)

  process_detection-Accounted :
      (d : Detectors D) (p : Processor D) (f : FrameData)
      → Accounted p
      → Accounted (process_detection d p f)
  unfolding process_detection publish
  process_detection-Accounted d p f v = ground (
    arith,
    note_detected-Accounted (run_detector d p.config.mode f).0
        (record p { frames_checked = p.frames_checked + 1 }) f,
  )

  arm_trigger-Accounted :
      (p : Processor D) (camera_ids : List ℕ) (skip : ℤ)
      → Accounted p
      → Accounted (arm_trigger p camera_ids skip).0
  unfolding arm_trigger
  arm_trigger-Accounted p [] skip v = ground arith
  arm_trigger-Accounted p (c ∷ cs) skip v = ground arith

  -- Flushing touches only the counters of saved frames.
  record SameBacklog (p q : Processor D) : Type 0 where
    same_bytes : q.backlog_bytes ≡ p.backlog_bytes
    same_budget : q.backlog_budget ≡ p.backlog_budget
    same_batch : q.pending_batch ≡ p.pending_batch
    same_queue : q.write_queue ≡ p.write_queue
    same_writing : q.writing ≡ p.writing

  flush_frames-SameBacklog :
      (opened : List ℕ → Bool) (fs : List FrameData) (p : Processor D)
      → SameBacklog p (flush_frames opened fs p)
  unfolding flush_frames flush_frame note_saved
  flush_frames-SameBacklog opened [] p = ground arith
  flush_frames-SameBacklog opened (f ∷ fs) p =
      ground (arith, flush_frames-SameBacklog opened fs (flush_frame opened f p))

  flush_buffered_frames-Accounted :
      (opened : List ℕ → Bool) (p : Processor D)
      → Accounted p
      → Accounted (flush_buffered_frames opened p)
  unfolding flush_buffered_frames release_backlog frames_size
  flush_buffered_frames-Accounted opened p v =
      ground (arith, flush_frames-SameBacklog opened p.buffered_frames p)

  reset_frames_saved_counts-Accounted :
      (p : Processor D) → Accounted p → Accounted (reset_frames_saved_counts p)
  unfolding reset_frames_saved_counts
  reset_frames_saved_counts-Accounted p v = ground arith

  step-Accounted :
      (d : Detectors D) (e : Event) (p : Processor D) → Accounted p → Accounted (step d e p)
  unfolding step
  step-Accounted d (captured f) p v = save_frame-Accounted p f v
  step-Accounted d taken p v = take_task-Accounted p v
  step-Accounted d (finished written i) p v = finish_task-Accounted written i p v
  step-Accounted d picked p v = pick-Accounted p v
  step-Accounted d (worked f) p v = process_detection-Accounted d p f v
  step-Accounted d (armed camera_ids skip) p v = arm_trigger-Accounted p camera_ids skip v
  step-Accounted d (flushed opened) p v = flush_buffered_frames-Accounted opened p v
  step-Accounted d counts_reset p v = reset_frames_saved_counts-Accounted p v

  pub run-Accounted :
      (d : Detectors D) (es : List Event) (p : Processor D) → Accounted p → Accounted (run d es p)
  unfolding run
  run-Accounted d [] p v = v
  run-Accounted d (e ∷ es) p v = run-Accounted d es (step d e p) (step-Accounted d e p v)
