-- ===== src/Processor/Save.antt =====
-- saveFrame of src/frame_processor.cpp, which the capture threads call on each frame.
use cherupi_v4l.Base.{[], if◌then◌else◌, insert_sorted, leb, length, max, ◌++◌, ◌∷◌}
use cherupi_v4l.Types.{FrameData, ProcessMode, batch, buffer, is_detector_mode, trigger}
use cherupi_v4l.Processor.{Processor, WriteTask}
use cherupi_v4l.Processor.Backlog.{reserve_backlog}
use cherupi_v4l.Processor.Trigger.{handle_trigger_frame, write_task}

module _ {D : Type 0} where
  unfoldable pub save_buffered : Processor D → FrameData → Processor D
  save_buffered p f =
      if p.config.save_frames
      then (let (p', fits) = reserve_backlog p (length f.bytes) in
          if fits then record p' { buffered_frames = p'.buffered_frames ++ f ∷ [] } else p')
      else p

  -- pending_batch moves to the writer pool once it holds batch_size tasks, at least one.
  unfoldable pub push_batch : Processor D → WriteTask → Processor D
  push_batch p task =
      let batch = p.pending_batch ++ task ∷ [] in
      if leb (max p.config.batch_size 1) (length batch)
      then record p { write_queue = p.write_queue ++ batch; pending_batch = [] }
      else record p { pending_batch = batch }

  unfoldable pub save_batched : Processor D → FrameData → Processor D
  save_batched p f =
      if p.config.save_frames
      then (let (p', fits) = reserve_backlog p (length f.bytes) in
          if fits then push_batch p' (write_task p.actual_output_dir f) else p')
      else p

  unfoldable pub save_in_mode : ProcessMode → Processor D → FrameData → Processor D
  save_in_mode buffer p f = save_buffered p f
  save_in_mode batch p f = save_batched p f
  save_in_mode trigger p f = handle_trigger_frame p f
  save_in_mode other p f =
      if is_detector_mode other
      then record p { pending_detection = insert_sorted f.camera_id f p.pending_detection }
      else p

  unfoldable pub save_frame : Processor D → FrameData → Processor D
  save_frame p f = if p.enabled then save_in_mode p.config.mode p f else p
