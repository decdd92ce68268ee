-- ===== src/Processor/Arming.antt =====
-- What armTrigger sets up, and a capture that the writer pool does not get.
use cherupi_v4l.Base.{
  Bool, List, [], ap, arith, erase, false, if◌then◌else◌, insert_sorted, length, lookup,
  lookup-insert_sorted, none, refl, some, subst, true, ℕ, ◌++◌, ◌+◌, ◌<◌, ◌==◌, ◌∙◌, ◌∷◌, ◌≡◌,
}
use cherupi_v4l.Base.Int.{max_zero, ℤ}
use cherupi_v4l.Processor.{PendingTrigger, Processor, TriggerResult}
use cherupi_v4l.Processor.Trigger.{
  arm_all, arm_trigger, capture_frame, capture_of, handle_trigger_frame, new_trigger, queue_write,
  serve_trigger, served,
}
use cherupi_v4l.Processor.Serving.{
  Progress, Serves, captures_of, deliver, deliver-Progress, frames_of, handle_trigger_frame-armed,
}
use cherupi_v4l.Processor.Backlog.{reserve_backlog}
use cherupi_v4l.Processor.Completion.{deliver-completes}
use cherupi_v4l.Processor.Filename.{make_filename}
use cherupi_v4l.Types.{FrameData}

abbrev pub names : ℕ → List ℕ → Bool
names c [] = false
names c (d ∷ ds) = if d == c then true else names c ds

-- A camera is expected once if the request names it.
abbrev pub once : List ℕ → ℕ → ℕ
once camera_ids c = if names c camera_ids then 1 else 0

lookup-arm_all :
    (camera_ids : List ℕ) (skip c : ℕ) (w : List (ℕ × ℕ))
    → lookup c (arm_all camera_ids skip w) ≡ (if names c camera_ids then some skip else lookup c w)
unfolding arm_all
lookup-arm_all [] skip c w = refl
lookup-arm_all (d ∷ ds) skip c w =
    ground
      (arith, lookup-arm_all ds skip c (insert_sorted d skip w), lookup-insert_sorted d c skip w)

new_trigger-Serves :
    (n c skip : ℕ) (cs : List ℕ) → Serves (once (c ∷ cs)) (new_trigger n (arm_all (c ∷ cs) skip []))
unfolding new_trigger
new_trigger-Serves n c skip cs = record {
  accounted = λ k. ground (arith, lookup-arm_all (c ∷ cs) skip k []);
  some_left = λ empty.
      let found = lookup-arm_all (c ∷ cs) skip c [] in
      let gone : lookup c (arm_all (c ∷ cs) skip []) ≡ none = rw empty refl in ground arith;
  not_cancelled = refl;
}

module _ {D : Type 0} where
  -- What a request that was armed has set up.
  pub record IsArmed (camera_ids : List ℕ) (skip : ℕ) (p q : Processor D) (t : PendingTrigger)
      : Type 0 where
    pub is_pending : q.pending_trigger ≡ some t
    pub serves : Serves (once camera_ids) t
    pub skips : (c n : ℕ) → lookup c t.waiting ≡ some n → (n ≡ skip) × (names c camera_ids ≡ true)
    pub nothing_sent : q.acks ≡ p.acks

  arm_trigger-IsArmed :
      (p : Processor D) (camera_ids : List ℕ) (skip : ℤ) (n : ℕ)
      → (arm_trigger p camera_ids skip).1 ≡ some n
      → (t : PendingTrigger) × IsArmed camera_ids
          (max_zero skip)
          p
          (arm_trigger p camera_ids skip).0
          t
  unfolding arm_trigger new_trigger
  arm_trigger-IsArmed p [] skip n h = absurd (ground arith)
  arm_trigger-IsArmed p (c ∷ cs) skip n h =
      let t : PendingTrigger =
        new_trigger p.next_trigger_id (arm_all (c ∷ cs) (max_zero skip) []) in
      (
        t,
        record {
          is_pending = ground arith;
          serves = new_trigger-Serves p.next_trigger_id c (max_zero skip) cs;
          skips = λ k m e. ground (arith, lookup-arm_all (c ∷ cs) (max_zero skip) k []);
          nothing_sent = ground arith;
        },
      )

  -- Whatever frames arrive after a request was armed, either nothing was sent yet, or exactly one
  -- result was, not cancelled, with one capture of each camera that the request names and no other.
  pub arm_trigger-Progress :
      (p : Processor D) (camera_ids : List ℕ) (skip : ℤ) (n : ℕ) (fs : List FrameData)
      → (arm_trigger p camera_ids skip).1 ≡ some n
      → Progress (once camera_ids) p.acks (deliver fs (arm_trigger p camera_ids skip).0)
  arm_trigger-Progress p camera_ids skip n fs h =
      let (t, a) = arm_trigger-IsArmed p camera_ids skip n h in
      let q : Processor D = (arm_trigger p camera_ids skip).0 in
      subst (λ sent. Progress (once camera_ids) sent (deliver fs q)) a.nothing_sent
        (deliver-Progress (once camera_ids) fs q t a.is_pending a.serves)

  -- After a request was armed, the result is sent once every named camera has delivered more frames
  -- than the request skips, and it holds one capture of each named camera and no other.
  pub arm_trigger-completes :
      (p : Processor D) (camera_ids : List ℕ) (skip : ℤ) (n : ℕ) (fs : List FrameData)
      → (arm_trigger p camera_ids skip).1 ≡ some n
      → ((c : ℕ) → names c camera_ids ≡ true → max_zero skip < frames_of c fs)
      → (r : TriggerResult) × ((deliver fs (arm_trigger p camera_ids skip).0).acks
          ≡ p.acks ++ r ∷ [])
        × ((c : ℕ) → captures_of c r.captures ≡ once camera_ids c)
        × (r.cancelled ≡ false)
  arm_trigger-completes p camera_ids skip n fs h enough =
      let (t, a) = arm_trigger-IsArmed p camera_ids skip n h in
      let q : Processor D = (arm_trigger p camera_ids skip).0 in
      let (r, acks, counts, kept) =
        deliver-completes (once camera_ids) fs q t a.is_pending a.serves
          (λ c m e. let (same, named) = a.skips c m e in omega (arith, enough c named, same)) in
      (r, acks ∙ ap (λ sent. sent ++ r ∷ []) a.nothing_sent, counts, kept)

  -- In a session that saves frames, with a backlog budget too full for the frame, the last camera's
  -- capture is reported with the name of its file, although no write is queued for it.
  pub handle_trigger_frame-lost :
      (p : Processor D) (t : PendingTrigger) (f : FrameData)
      → p.pending_trigger ≡ some t
      → t.waiting ≡ (f.camera_id, 0) ∷ []
      → p.config.save_frames ≡ true
      → 0 < p.backlog_budget
      → p.backlog_budget < p.backlog_bytes + length f.bytes
      → ((handle_trigger_frame p f).write_queue ≡ p.write_queue)
        × ((handle_trigger_frame p f).acks
            ≡ p.acks
              ++ record t.result { captures = t.result.captures ++ capture_of p f ∷ [] } ∷ [])
        × ((capture_of p f).filename ≡ make_filename p.actual_output_dir f.camera_id f.frame_id)
  unfolding serve_trigger capture_frame served capture_of queue_write reserve_backlog
  handle_trigger_frame-lost p t f e w saves limited full =
      let found : lookup f.camera_id t.waiting ≡ some 0 = rw w (ground arith) in
      let last : erase f.camera_id t.waiting ≡ [] = rw w (ground arith) in
      let as_capture : handle_trigger_frame p f ≡ capture_frame p t f =
        handle_trigger_frame-armed p t f e ∙ ap (λ o. serve_trigger p t o f) found in
      rw as_capture (ground arith, ground arith, ground arith)
