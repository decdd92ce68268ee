-- ===== src/Processor/Stopping.antt =====
-- What `start` sets up and what `stop` leaves behind in the modes that write through the pool.
use cherupi_v4l.Base.{List, [], arith, false, some, ℕ, ◌++◌, ◌-◌, ◌<◌, ◌≡◌}
use cherupi_v4l.Processor.{Processor, WriteTask}
use cherupi_v4l.Processor.Lifecycle.{
  cancel_trigger, reset_session, start, start_detection, start_mode, start_writers,
}
use cherupi_v4l.Capacity.{clamp, default_backlog_budget_bytes}
use cherupi_v4l.Processor.Accounting.{Accounted, tasks_size}
use cherupi_v4l.Processor.Detection.{Detectors}
use cherupi_v4l.Processor.Interleaving.{run-Accounted}
use cherupi_v4l.Processor.Session.{Event, run}
use cherupi_v4l.Processor.Writer.{frames_size}
use cherupi_v4l.Types.{ProcessMode, buffer, is_none_mode}
use mathlib.Core.List.Permᴰ.{Permᴰ}

default_budget_pos : (mem : ℕ) → 0 < default_backlog_budget_bytes mem
unfolding default_backlog_budget_bytes clamp
default_budget_pos mem = ground arith

module _ {D : Type 0} where
  -- Nothing is left over from an earlier session.
  pub record IsFresh (p : Processor D) : Type 0 where
    pub no_frames : p.buffered_frames ≡ []
    pub no_queue : p.write_queue ≡ []
    pub no_batch : p.pending_batch ≡ []
    pub no_writing : p.writing ≡ []

  reset_session-Accounted :
      (mem : ℕ) (p : Processor D) → IsFresh p → Accounted (reset_session mem p)
  unfolding reset_session tasks_size frames_size
  reset_session-Accounted mem p v =
      let a : tasks_size p.write_queue ≡ 0 = rw v.no_queue in
      let b : tasks_size p.pending_batch ≡ 0 = rw v.no_batch in
      let c : tasks_size p.writing ≡ 0 = rw v.no_writing in
      let e : frames_size p.buffered_frames ≡ 0 = rw v.no_frames in
      ground (arith, default_budget_pos mem)

  reset_session-IsFresh : (mem : ℕ) (p : Processor D) → IsFresh p → IsFresh (reset_session mem p)
  unfolding reset_session
  reset_session-IsFresh mem p v = ground arith

  start_mode-Accounted :
      (m : ProcessMode) (p q : Processor D)
      → Accounted p
      → IsFresh p
      → start_mode m p ≡ some q
      → Accounted q
  unfolding start_mode start_writers start_detection frames_size tasks_size
  start_mode-Accounted buffer p q v w h =
      let e : frames_size p.buffered_frames ≡ 0 = rw w.no_frames in ground arith
  start_mode-Accounted m p q v w h =
      let b : tasks_size p.pending_batch ≡ 0 = rw w.no_batch in ground arith

  start-Accounted :
      (mem : ℕ) (p q : Processor D)
      → IsFresh p
      → is_none_mode p.config.mode ≡ false
      → start mem p ≡ some q
      → Accounted q
  unfolding start
  start-Accounted mem p q v active h =
      start_mode-Accounted p.config.mode (reset_session mem p) q (reset_session-Accounted mem p v)
        (reset_session-IsFresh mem p v) (rw active at h)

  -- From a start with nothing left over, in every interleaving of the capture threads, the writer
  -- threads, the detection worker and the server, in a mode other than `none` the backlog counter
  -- is exactly the number of bytes that are held, and never exceeds the budget.
  pub run-start-Accounted :
      (d : Detectors D) (mem : ℕ) (es : List Event) (p q : Processor D)
      → IsFresh p
      → is_none_mode p.config.mode ≡ false
      → start mem p ≡ some q
      → Accounted (run d es q)
  run-start-Accounted d mem es p q v active h =
      run-Accounted d es q (start-Accounted mem p q v active h)

  record Finished (p q : Processor D) (ts : List WriteTask) : Type 0 where
    all_attempted : q.attempted ≡ p.attempted ++ ts
    released : q.backlog_bytes ≡ p.backlog_bytes - tasks_size ts
    same_queue : q.write_queue ≡ p.write_queue
    same_writing : q.writing ≡ p.writing
    same_batch : q.pending_batch ≡ p.pending_batch
    same_frames : q.buffered_frames ≡ p.buffered_frames

  -- What `stop` leaves in a mode that writes every accepted frame.
  pub record IsFlushed (p q : Processor D) : Type 0 where
    pub all_attempted :
        (ended : List WriteTask) × (q.attempted ≡ p.attempted ++ ended)
        × Permᴰ ended (p.writing ++ p.write_queue ++ p.pending_batch)
    pub queue_empty : q.write_queue ≡ []
    pub batch_empty : q.pending_batch ≡ []
    pub writing_empty : q.writing ≡ []
    pub backlog_released : q.backlog_bytes ≡ frames_size p.buffered_frames

  cancelled_of : Processor D → Processor D
  cancelled_of p = cancel_trigger (record p { enabled = false })

  record SameTasks (p q : Processor D) : Type 0 where
    same_config : q.config ≡ p.config
    same_threads : q.writer_threads ≡ p.writer_threads
    same_attempted : q.attempted ≡ p.attempted
    same_queue : q.write_queue ≡ p.write_queue
    same_writing : q.writing ≡ p.writing
    same_batch : q.pending_batch ≡ p.pending_batch
    same_bytes : q.backlog_bytes ≡ p.backlog_bytes
