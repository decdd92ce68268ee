-- ===== src/Processor/Trigger.antt =====
-- armTrigger and handleTriggerFrame of src/frame_processor.cpp.
use cherupi_v4l.Base.{
  Bool, List, Option, [], erase, false, if◌then◌else◌, insert, insert_sorted, length, lookup, none,
  not, some, suc, true, zero, ℕ, ◌%◌, ◌++◌, ◌+◌, ◌^◌, ◌||◌, ◌∷◌,
}
use cherupi_v4l.Base.Int.{max_zero, ℤ}
use cherupi_v4l.Types.{FrameData, is_trigger}
use cherupi_v4l.Processor.{Capture, PendingTrigger, Processor, WriteTask}
use cherupi_v4l.Processor.Filename.{make_filename}
use cherupi_v4l.Processor.Backlog.{reserve_backlog}

-- `for (camera_id : camera_ids) waiting[camera_id] = skip;`
unfoldable pub arm_all : List ℕ → ℕ → List (ℕ × ℕ) → List (ℕ × ℕ)
arm_all [] skip waiting = waiting
arm_all (c ∷ cs) skip waiting = arm_all cs skip (insert_sorted c skip waiting)

abbrev pub write_task : List ℕ → FrameData → WriteTask
write_task dir f = record {
  filename = make_filename dir f.camera_id f.frame_id;
  payload = f.bytes;
  camera_id = f.camera_id;
  frame_id = f.frame_id;
}

-- A trigger without captures yet.
unfoldable pub new_trigger : ℕ → List (ℕ × ℕ) → PendingTrigger
new_trigger n waiting = record {
  id = n;
  waiting = waiting;
  result = record { trigger_id = n; captures = []; cancelled = false };
}

-- The trigger after one of its cameras was served.
unfoldable pub served : PendingTrigger → Capture → PendingTrigger
served t c = record t {
  waiting = erase c.camera_id t.waiting;
  result = record t.result { captures = t.result.captures ++ c ∷ [] };
}

abbrev pub is_empty {ℓ} : {A : Type ℓ} → List A → Bool
is_empty [] = true
is_empty (a ∷ rest) = false

module _ {D : Type 0} where
  unfoldable pub arm_trigger : Processor D → List ℕ → ℤ → Processor D × Option ℕ
  arm_trigger p camera_ids skip_frames =
      if not p.enabled || not (is_trigger p.config.mode) then (p, none) else elim camera_ids [
        | [] ↦ (p, none)
        | c ∷ cs ↦ elim p.pending_trigger [
          | some t ↦ (p, none)
          | none ↦ (
            record p {
              pending_trigger =
                  some (new_trigger p.next_trigger_id (arm_all (c ∷ cs) (max_zero skip_frames) []));
              next_trigger_id = (p.next_trigger_id + 1) % 2 ^ 32;
            },
            some p.next_trigger_id,
          )
        ]
      ]

  unfoldable pub has_pending_trigger : Processor D → Bool
  has_pending_trigger p = elim p.pending_trigger [ none ↦ false | some t ↦ true ]

  -- The file name is that of the frame, or empty where nothing is saved.
  unfoldable pub capture_of : Processor D → FrameData → Capture
  capture_of p f = record {
    camera_id = f.camera_id;
    frame_id = f.frame_id;
    filename =
        if p.config.save_frames
        then make_filename p.actual_output_dir f.camera_id f.frame_id
        else [];
  }

  -- `if (queue_write && reserveBacklog(...)) write_queue.push(task)`
  unfoldable pub queue_write : Processor D → FrameData → Processor D
  queue_write p f =
      if p.config.save_frames
      then (let (p', fits) = reserve_backlog p (length f.bytes) in
          if fits
          then record p' { write_queue = p'.write_queue ++ write_task p.actual_output_dir f ∷ [] }
          else p')
      else p

  -- The frame is the one that was asked for: the write is queued first, the result goes out last.
  unfoldable pub capture_frame : Processor D → PendingTrigger → FrameData → Processor D
  capture_frame p t f =
      let t' = served t (capture_of p f) in
      if is_empty t'.waiting
      then (let q = queue_write (record p { pending_trigger = none }) f in
          record q { acks = q.acks ++ t'.result ∷ [] })
      else queue_write (record p { pending_trigger = some t' }) f

  unfoldable pub serve_trigger : Processor D → PendingTrigger → Option ℕ → FrameData → Processor D
  serve_trigger p t none f = p
  serve_trigger p t (some zero) f = capture_frame p t f
  serve_trigger p t (some (suc n)) f = record p {
    pending_trigger = some (record t { waiting = insert f.camera_id n t.waiting });
  }

  unfoldable pub handle_trigger_frame : Processor D → FrameData → Processor D
  handle_trigger_frame p f = elim p.pending_trigger [
    | none ↦ p
    | some t ↦ serve_trigger p t (lookup f.camera_id t.waiting) f
  ]
