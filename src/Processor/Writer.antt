-- ===== src/Processor/Writer.antt =====
-- writerThreadFunc and flushBufferedFrames of src/frame_processor.cpp. Whether a file could be
-- opened and written is an argument: `true` where it was. A writer thread takes a task under the
-- lock (`take_task`) and accounts for it later (`finish_task`), so several may be under way.
use cherupi_v4l.Base.{
  Bool, List, [], get_elem?, if◌then◌else◌, insert, length, lookup, none, some, suc, zero, ℕ, ◌%◌,
  ◌&&◌, ◌++◌, ◌+◌, ◌^◌, ◌∷◌,
}
use cherupi_v4l.Types.{FrameData, is_buffer}
use cherupi_v4l.Processor.{Processor, WriteTask}
use cherupi_v4l.Processor.Backlog.{release_backlog}
use cherupi_v4l.Processor.Filename.{make_filename}

-- frames_saved_per_camera[camera_id]++ on an atomic<uint32_t>.
unfoldable pub count_saved : ℕ → List (ℕ × ℕ) → List (ℕ × ℕ)
count_saved camera_id m = elim (lookup camera_id m) [
  | none ↦ insert camera_id 1 m
  | some n ↦ insert camera_id ((n + 1) % 2 ^ 32) m
]

unfoldable pub remove_at {ℓ} : {A : Type ℓ} → ℕ → List A → List A
remove_at i [] = []
remove_at zero (a ∷ rest) = rest
remove_at (suc i) (a ∷ rest) = a ∷ remove_at i rest

unfoldable pub frames_size : List FrameData → ℕ
frames_size [] = 0
frames_size (f ∷ fs) = length f.bytes + frames_size fs

-- What the writer threads meet at the end of a session: whether a task can be written, and the order
-- in which the threads are done with the tasks that are left.
pub record Writers : Type 0 where
  pub can_write : WriteTask → Bool
  pub finishing : List WriteTask → List WriteTask

module _ {D : Type 0} where
  -- frames_saved++, bytes_written += size and the counter of the camera.
  unfoldable pub note_saved : Processor D → ℕ → ℕ → Processor D
  note_saved p camera_id size = record p {
    frames_saved = p.frames_saved + 1;
    bytes_written = p.bytes_written + size;
    frames_saved_per_camera = count_saved camera_id p.frames_saved_per_camera;
  }

  unfoldable pub take_task : Processor D → Processor D
  take_task p = elim p.write_queue [
    | [] ↦ p
    | task ∷ rest ↦ record p { write_queue = rest; writing = p.writing ++ task ∷ [] }
  ]

  -- The end of a task: its bytes leave the backlog, written or not.
  unfoldable pub write_task_done : Bool → WriteTask → Processor D → Processor D
  write_task_done written task p =
      let q = if written then note_saved p task.camera_id (length task.payload) else p in
      let r = release_backlog q (length task.payload) in
      record r { attempted = r.attempted ++ task ∷ [] }

  -- The writer that holds the task at place `i` of `writing` is done with it.
  unfoldable pub finish_task : Bool → ℕ → Processor D → Processor D
  finish_task written i p = elim (get_elem? p.writing i) [
    | none ↦ p
    | some task ↦ write_task_done written task (record p { writing = remove_at i p.writing })
  ]

  -- The ends of these tasks, in this order.
  unfoldable pub finish_all : (WriteTask → Bool) → List WriteTask → Processor D → Processor D
  finish_all written [] p = p
  finish_all written (task ∷ tasks) p =
      finish_all written tasks (write_task_done (written task) task p)

  unfoldable pub flush_frame : (List ℕ → Bool) → FrameData → Processor D → Processor D
  flush_frame opened f p =
      if opened (make_filename p.actual_output_dir f.camera_id f.frame_id)
      then note_saved p f.camera_id (length f.bytes)
      else p

  unfoldable pub flush_frames : (List ℕ → Bool) → List FrameData → Processor D → Processor D
  flush_frames opened [] p = p
  flush_frames opened (f ∷ fs) p = flush_frames opened fs (flush_frame opened f p)

  unfoldable pub flush_buffered_frames : (List ℕ → Bool) → Processor D → Processor D
  flush_buffered_frames opened p =
      if is_buffer p.config.mode && p.config.save_frames
      then release_backlog
          (record (flush_frames opened p.buffered_frames p) { buffered_frames = [] })
          (frames_size p.buffered_frames)
      else p
