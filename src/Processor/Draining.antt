-- ===== src/Processor/Draining.antt =====
-- What the detection worker of src/frame_processor.cpp does with the pending frames when it is stopped.
use cherupi_v4l.Base.{
  Bool, Bool-cases, List, Option-cases, [], ap, ap₂, arith, erase, false, if◌then◌else◌, inl, inr,
  length, lookup, refl, some, subst, suc, sym, true, upper_bound, zero, ℕ, ◌+◌, ◌<◌, ◌==◌, ◌∷◌, ◌≡◌,
  ◌≤◌,
}
use cherupi_v4l.Command.Config.{ProcessConfig}
use cherupi_v4l.Processor.{Processor}
use cherupi_v4l.Processor.Backlog.{reserve_backlog}
use cherupi_v4l.Processor.Detection.{
  Detectors, drain_detection, next_pending, note_detected, process_detection, publish, run_detector,
  take_pending,
}
use cherupi_v4l.Processor.Lifecycle.{stop_worker}
use cherupi_v4l.Processor.Publishing.{process_detection-IsPublished}
use cherupi_v4l.Processor.Rounds.{IsAbove, drain_detection-empties, length-nil, next_pending-none}
use cherupi_v4l.Processor.Trigger.{queue_write}
use cherupi_v4l.Types.{FrameData, ProcessMode, is_detector_mode}

module _ {V : Type 0} where
  -- The sum of `g` over the entries.
  abbrev pub weigh : (V → ℕ) → List (ℕ × V) → ℕ
  weigh g [] = 0
  weigh g ((j, v) ∷ m) = g v + weigh g m

  upper_bound-some :
      (k c : ℕ) (v : V) (m : List (ℕ × V))
      → upper_bound k m ≡ some (c, v)
      → (k < c) × (lookup c m ≡ some v)
  upper_bound-some k c v [] h = cc
  upper_bound-some k c v ((j, w) ∷ m) h = ground (arith, upper_bound-some k c v m)

  erase-absent : (c low : ℕ) (m : List (ℕ × V)) → IsAbove low m → c < low → erase c m ≡ m
  erase-absent c low [] s h = refl
  erase-absent c low ((j, w) ∷ m) s h = ground (arith, erase-absent c (suc j) m s.1)

  IsAbove-lower : (low high : ℕ) (m : List (ℕ × V)) → low ≤ high → IsAbove high m → IsAbove low m
  IsAbove-lower low high [] h s = tt
  IsAbove-lower low high ((j, w) ∷ m) h s = (omega (arith, s.0), s.1)

  IsAbove-erase : (c low : ℕ) (m : List (ℕ × V)) → IsAbove low m → IsAbove low (erase c m)
  IsAbove-erase c low [] s = tt
  IsAbove-erase c low ((j, w) ∷ m) s =
      let rest = IsAbove-erase c (suc j) m s.1 in
      elim (Bool-cases (j == c)) [
        | inl e ↦ rw e (IsAbove-lower low (suc j) (erase c m) (omega (arith, s.0)) rest)
        | inr e ↦ rw e (s.0, rest)
      ]

  weigh-erase :
      (g : V → ℕ) (c low : ℕ) (v : V) (m : List (ℕ × V))
      → IsAbove low m
      → lookup c m ≡ some v
      → weigh g (erase c m) + g v ≡ weigh g m
  weigh-erase g c low v [] s h = cc
  weigh-erase g c low v ((j, w) ∷ m) s h = elim (Bool-cases (j == c)) [
    | inl e ↦
        let same : w ≡ v = ground arith in
        let gone = ap (weigh g) (erase-absent c (suc j) m s.1 (ground arith)) in
        rw e (omega (arith, gone, ap g same))
    | inr e ↦
        let rest = weigh-erase g c (suc j) v m s.1 (ground arith) in rw e (omega (arith, rest))
  ]

  length-weigh : (m : List (ℕ × V)) → weigh (λ v. 1) m ≡ length m
  length-weigh [] = refl
  length-weigh ((j, v) ∷ m) = omega (arith, length-weigh m)

next_pending-some :
    (last c : ℕ) (f : FrameData) (m : List (ℕ × FrameData))
    → next_pending last m ≡ some (c, f)
    → lookup c m ≡ some f
unfolding next_pending
next_pending-some last c f [] h = cc
next_pending-some last c f ((j, g) ∷ m) h = elim (Option-cases (upper_bound last ((j, g) ∷ m))) [
  | inl e ↦ ground arith
  | inr (found, e) ↦ ground (arith, upper_bound-some last c f ((j, g) ∷ m))
]

module _ {D : Type 0} where
  -- 1 where the detector finds something in the frame.
  abbrev pub finding : Detectors D → ProcessMode → FrameData → ℕ
  finding d mode f = if (run_detector d mode f).0 then 1 else 0

  record Counts (d : Detectors D) (p q : Processor D) (f : FrameData) : Type 0 where
    same_config : q.config ≡ p.config
    checked : q.frames_checked ≡ p.frames_checked + 1
    detected : q.frames_detected ≡ p.frames_detected + finding d p.config.mode f

  note_detected-counts :
      (b : Bool) (p : Processor D) (f : FrameData)
      → let q = note_detected b p f in
        (q.config ≡ p.config)
        × (q.frames_checked ≡ p.frames_checked)
        × (q.frames_detected ≡ p.frames_detected + (if b then 1 else 0))
  unfolding note_detected queue_write reserve_backlog
  note_detected-counts false p f = (refl, refl, omega arith)
  note_detected-counts true p f = ground arith

  process_detection-Counts :
      (d : Detectors D) (p : Processor D) (f : FrameData) → Counts d p (process_detection d p f) f
  unfolding process_detection publish
  process_detection-Counts d p f =
      let counts =
        note_detected-counts (run_detector d p.config.mode f).0
          (record p { frames_checked = p.frames_checked + 1 }) f in
      record { same_config = counts.0; checked = counts.1; detected = counts.2 }

  drain_detection-counts :
      (n : ℕ) (d : Detectors D) (p : Processor D)
      → length p.pending_detection ≤ n
      → IsAbove 0 p.pending_detection
      → let r = drain_detection n d p in
        (r.frames_checked ≡ p.frames_checked + length p.pending_detection)
        × (r.frames_detected
            ≡ p.frames_detected + weigh (finding d p.config.mode) p.pending_detection)
  unfolding drain_detection take_pending
  drain_detection-counts zero d p h s =
      let none_left = length-nil p.pending_detection h in
      (
        omega (arith, ap length none_left),
        omega (arith, ap (weigh (finding d p.config.mode)) none_left),
      )
  drain_detection-counts (suc n) d p h s =
      elim (Option-cases (next_pending p.last_detected_camera p.pending_detection)) [
        | inl e ↦
            let none_left = next_pending-none p.last_detected_camera p.pending_detection e in
            let stopped : drain_detection (suc n) d p ≡ p = ground arith in
            rw stopped (
              omega (arith, ap length none_left),
              omega (arith, ap (weigh (finding d p.config.mode)) none_left),
            )
        | inr ((c, f), e) ↦
            let q : Processor D = record p {
              last_detected_camera = c;
              pending_detection = erase c p.pending_detection;
            } in
            let r : Processor D = process_detection d q f in
            let published = process_detection-IsPublished d q f in
            let counts = process_detection-Counts d q f in
            let waiting_frame =
              next_pending-some p.last_detected_camera c f p.pending_detection e in
            let fewer = weigh-erase (λ g. 1) c 0 f p.pending_detection s waiting_frame in
            let found =
              weigh-erase (finding d p.config.mode) c 0 f p.pending_detection s waiting_frame in
            let left = length-weigh (erase c p.pending_detection) in
            let all = length-weigh p.pending_detection in
            let goes_on : drain_detection (suc n) d p ≡ drain_detection n d r = ground arith in
            let same_length = ap length published.same_pending in
            let rest =
              drain_detection-counts n d r (omega (arith, same_length, fewer, left, all, h)) (
                subst (IsAbove 0) (sym published.same_pending)
                  (IsAbove-erase c 0 p.pending_detection s)) in
            let weight : weigh (finding d r.config.mode) r.pending_detection
                ≡ weigh (finding d p.config.mode) (erase c p.pending_detection) =
              ap₂ (λ (k : ProcessConfig D) m. weigh (finding d k.mode) m) counts.same_config
                published.same_pending in
            rw goes_on (
              omega (arith, rest.0, counts.checked, same_length, fewer, left, all),
              omega (arith, rest.1, counts.detected, weight, found),
            )
      ]

  -- Stopping a detector mode, whose pending frames are in the order of their cameras: before the
  -- thread is joined, the count of frames checked grows by the number of the pending frames, and the
  -- count of frames with a detection by the number of those in which the detector finds something;
  -- nothing stays pending or in the slots for streaming.
  pub stop_worker-drains :
      (d : Detectors D) (p : Processor D)
      → is_detector_mode p.config.mode ≡ true
      → p.detection_thread ≡ true
      → IsAbove 0 p.pending_detection
      → let q = stop_worker d p in
        (q.frames_checked ≡ p.frames_checked + length p.pending_detection)
        × (q.frames_detected
            ≡ p.frames_detected + weigh (finding d p.config.mode) p.pending_detection)
        × (q.pending_detection ≡ [])
        × (q.detection_thread ≡ false)
        × (q.detected_for_stream ≡ [])
  unfolding stop_worker
  stop_worker-drains d p mode thread s =
      let q : Processor D = record p { stop_detection = true } in
      let empty = drain_detection-empties (length p.pending_detection) d q (omega arith) in
      let counts = drain_detection-counts (length p.pending_detection) d q (omega arith) s in
      (ground arith, ground arith, ground arith, ground arith, ground arith)
