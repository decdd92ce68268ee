-- ===== src/Processor/Accounting.antt =====
-- The backlog counter of FrameProcessor counts exactly the bytes that are held, and stays within
-- the budget, in every interleaving of its threads.
use cherupi_v4l.Base.{
  List, Option, Option-cases, [], arith, inl, inr, length, lookup, none, some, suc, zero, ℕ, ◌++◌,
  ◌+◌, ◌<◌, ◌∷◌, ◌≡◌, ◌≤◌,
}
use cherupi_v4l.Types.{FrameData, ProcessMode, batch, buffer, is_detector_mode, trigger}
use cherupi_v4l.Processor.Save.{push_batch, save_batched, save_buffered, save_frame, save_in_mode}
use cherupi_v4l.Processor.Trigger.{
  capture_frame, capture_of, handle_trigger_frame, queue_write, serve_trigger, served, write_task,
}
use cherupi_v4l.Processor.{PendingTrigger, Processor, WriteTask}
use cherupi_v4l.Processor.Writer.{frames_size}
use cherupi_v4l.Processor.Backlog.{reserve_backlog}

unfoldable pub tasks_size : List WriteTask → ℕ
tasks_size [] = 0
tasks_size (t ∷ ts) = length t.payload + tasks_size ts

pub tasks_size-append :
    (ts us : List WriteTask) → tasks_size (ts ++ us) ≡ tasks_size ts + tasks_size us
unfolding tasks_size
tasks_size-append [] us = omega arith
tasks_size-append (t ∷ ts) us = omega (arith, tasks_size-append ts us)

pub tasks_size-one : (t : WriteTask) → tasks_size (t ∷ []) ≡ length t.payload
unfolding tasks_size
tasks_size-one t = omega arith

frames_size-append :
    (fs gs : List FrameData) → frames_size (fs ++ gs) ≡ frames_size fs + frames_size gs
unfolding frames_size
frames_size-append [] gs = omega arith
frames_size-append (f ∷ fs) gs = omega (arith, frames_size-append fs gs)

frames_size-one : (f : FrameData) → frames_size (f ∷ []) ≡ length f.bytes
unfolding frames_size
frames_size-one f = omega arith

module _ {D : Type 0} where
  -- The bytes of the frames that are accepted and not yet dealt with.
  abbrev pub held : Processor D → ℕ
  held p =
      frames_size p.buffered_frames
      + tasks_size p.pending_batch
      + tasks_size p.write_queue
      + tasks_size p.writing

  pub record Accounted (p : Processor D) : Type 0 where
    pub limited : 0 < p.backlog_budget
    pub balanced : p.backlog_bytes ≡ held p
    pub within : p.backlog_bytes ≤ p.backlog_budget

  pub queue_write-Accounted :
      (p : Processor D) (f : FrameData) → Accounted p → Accounted (queue_write p f)
  unfolding queue_write reserve_backlog
  queue_write-Accounted p f v = ground (
    arith,
    tasks_size-append p.write_queue (write_task p.actual_output_dir f ∷ []),
    tasks_size-one (write_task p.actual_output_dir f),
  )

  save_buffered-Accounted :
      (p : Processor D) (f : FrameData) → Accounted p → Accounted (save_buffered p f)
  unfolding save_buffered reserve_backlog
  save_buffered-Accounted p f v =
      ground (arith, frames_size-append p.buffered_frames (f ∷ []), frames_size-one f)

  push_batch-Accounted :
      (p : Processor D) (task : WriteTask)
      → 0 < p.backlog_budget
      → p.backlog_bytes ≡ held p + length task.payload
      → p.backlog_bytes ≤ p.backlog_budget
      → Accounted (push_batch p task)
  unfolding push_batch tasks_size
  push_batch-Accounted p task limited balanced within = ground (
    arith,
    tasks_size-append p.pending_batch (task ∷ []),
    tasks_size-append p.write_queue (p.pending_batch ++ task ∷ []),
    tasks_size-one task,
  )

  save_batched-Accounted :
      (p : Processor D) (f : FrameData) → Accounted p → Accounted (save_batched p f)
  unfolding save_batched reserve_backlog
  save_batched-Accounted p f v = ground (
    arith,
    push_batch-Accounted (record p { backlog_bytes = p.backlog_bytes + length f.bytes })
        (write_task p.actual_output_dir f),
  )

  capture_frame-Accounted :
      (p : Processor D) (t : PendingTrigger) (f : FrameData)
      → Accounted p
      → Accounted (capture_frame p t f)
  unfolding capture_frame
  capture_frame-Accounted p t f v = ground (
    arith,
    queue_write-Accounted (record p { pending_trigger = none }) f,
    queue_write-Accounted (record p { pending_trigger = some (served t (capture_of p f)) }) f,
  )

  serve_trigger-Accounted :
      (p : Processor D) (t : PendingTrigger) (left : Option ℕ) (f : FrameData)
      → Accounted p
      → Accounted (serve_trigger p t left f)
  unfolding serve_trigger
  serve_trigger-Accounted p t none f v = v
  serve_trigger-Accounted p t (some zero) f v = capture_frame-Accounted p t f v
  serve_trigger-Accounted p t (some (suc n)) f v = ground arith

  handle_trigger_frame-Accounted :
      (p : Processor D) (f : FrameData) → Accounted p → Accounted (handle_trigger_frame p f)
  unfolding handle_trigger_frame
  handle_trigger_frame-Accounted p f v = elim (Option-cases p.pending_trigger) [
    | inl e ↦ rw (e, handle_trigger_frame) v
    | inr (t, e) ↦
        rw (e, handle_trigger_frame)
          (serve_trigger-Accounted p t (lookup f.camera_id t.waiting) f v)
  ]

  save_in_mode-Accounted :
      (m : ProcessMode) (p : Processor D) (f : FrameData)
      → Accounted p
      → Accounted (save_in_mode m p f)
  unfolding save_in_mode is_detector_mode
  save_in_mode-Accounted buffer p f v = save_buffered-Accounted p f v
  save_in_mode-Accounted batch p f v = save_batched-Accounted p f v
  save_in_mode-Accounted trigger p f v = handle_trigger_frame-Accounted p f v
  save_in_mode-Accounted other p f v = ground arith

  -- Delivering a frame keeps the count exact and within the budget, in every mode.
  pub save_frame-Accounted :
      (p : Processor D) (f : FrameData) → Accounted p → Accounted (save_frame p f)
  unfolding save_frame
  save_frame-Accounted p f v = ground (arith, save_in_mode-Accounted p.config.mode p f)
