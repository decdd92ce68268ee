-- ===== src/Processor/Completion.antt =====
-- When an armed trigger completes: what each camera still owes after every delivered frame.
use cherupi_v4l.Base.{
  Bool-cases, List, Option, Option-cases, [], ap, arith, erase, false, if◌then◌else◌, inl, inr,
  lookup, lookup-erase, lookup-insert, none, refl, some, suc, sym, zero, ℕ, ◌++◌, ◌<◌, ◌==◌, ◌∙◌,
  ◌∷◌, ◌≡◌,
}
use cherupi_v4l.Processor.{PendingTrigger, Processor, TriggerResult}
use cherupi_v4l.Processor.Serving.{
  Serves, captures_of, deliver, deliver-Progress, frames_of, handle_trigger_frame-armed,
  handle_trigger_frame-unarmed, is_empty→nil, queue_write-SameTrigger,
}
use cherupi_v4l.Processor.Trigger.{
  capture_frame, capture_of, handle_trigger_frame, is_empty, serve_trigger, served,
}
use cherupi_v4l.Types.{FrameData}

-- What a step does to the frames that a camera still owes.
abbrev pub served_once : Option ℕ → Option ℕ
served_once none = none
served_once (some zero) = none
served_once (some (suc n)) = some n

abbrev pub owed : Option PendingTrigger → ℕ → Option ℕ
owed none c = none
owed (some t) c = lookup c t.waiting

served_once-some : (o : Option ℕ) (n : ℕ) → served_once o ≡ some n → o ≡ some (suc n)
served_once-some none n h = cc
served_once-some (some zero) n h = cc
served_once-some (some (suc k)) n h = cc

all_none→nil {ℓ} : {V : Type ℓ} (m : List (ℕ × V)) → ((c : ℕ) → lookup c m ≡ none) → m ≡ []
all_none→nil [] h = refl
all_none→nil ((j, w) ∷ m) h = ground (arith, h j)

module _ {D : Type 0} where
  capture_frame-owed :
      (p : Processor D) (t : PendingTrigger) (f : FrameData) (c : ℕ)
      → owed (capture_frame p t f).pending_trigger c ≡ lookup c (erase f.camera_id t.waiting)
  unfolding capture_frame served capture_of
  capture_frame-owed p t f c =
      let t' : PendingTrigger = served t (capture_of p f) in
      elim (Bool-cases (is_empty t'.waiting)) [
        | inl e ↦
            let same = queue_write-SameTrigger (record p { pending_trigger = none }) f in
            let gone : lookup c t'.waiting ≡ none = rw (is_empty→nil t'.waiting e) refl in
            rw (e, capture_frame) (ap (λ o. owed o c) same.same_pending ∙ sym gone)
        | inr e ↦
            let same = queue_write-SameTrigger (record p { pending_trigger = some t' }) f in
            rw (e, capture_frame) (ap (λ o. owed o c) same.same_pending)
      ]

  serve_trigger-owed :
      (p : Processor D) (t : PendingTrigger) (f : FrameData) (c : ℕ)
      → p.pending_trigger ≡ some t
      → (left : Option ℕ) → lookup f.camera_id t.waiting ≡ left
      → owed (serve_trigger p t left f).pending_trigger c
        ≡ (if f.camera_id == c then served_once (lookup c t.waiting) else lookup c t.waiting)
  unfolding serve_trigger
  serve_trigger-owed p t f c e none h =
      let here : owed p.pending_trigger c ≡ lookup c t.waiting = ap (λ o. owed o c) e in
      ground arith
  serve_trigger-owed p t f c e (some zero) h =
      ground (arith, capture_frame-owed p t f c, lookup-erase f.camera_id c t.waiting)
  serve_trigger-owed p t f c e (some (suc n)) h =
      ground (arith, lookup-insert f.camera_id c n t.waiting)

  -- A delivered frame is taken off what its camera owes, and off no other camera's.
  handle_trigger_frame-owed :
      (p : Processor D) (f : FrameData) (c : ℕ)
      → owed (handle_trigger_frame p f).pending_trigger c ≡ (
          if f.camera_id == c
          then served_once (owed p.pending_trigger c)
          else owed p.pending_trigger c)
  handle_trigger_frame-owed p f c = elim (Option-cases p.pending_trigger) [
    | inl e ↦
        let before : owed p.pending_trigger c ≡ none = ap (λ o. owed o c) e in
        let after : owed (handle_trigger_frame p f).pending_trigger c ≡ none =
          ap (λ (q : Processor D). owed q.pending_trigger c) (handle_trigger_frame-unarmed p f e)
          ∙ before in
        ground arith
    | inr (t, e) ↦
        let before : owed p.pending_trigger c ≡ lookup c t.waiting = ap (λ o. owed o c) e in
        let after = serve_trigger-owed p t f c e (lookup f.camera_id t.waiting) refl in
        ap (λ (q : Processor D). owed q.pending_trigger c) (handle_trigger_frame-armed p t f e)
        ∙ after
        ∙ ap (λ o. if f.camera_id == c then served_once o else o) (sym before)
  ]

  all_served :
      (c : ℕ) (fs : List FrameData) (p : Processor D)
      → ((n : ℕ) → owed p.pending_trigger c ≡ some n → n < frames_of c fs)
      → owed (deliver fs p).pending_trigger c ≡ none
  unfolding deliver
  all_served c [] p enough = elim (Option-cases (owed p.pending_trigger c)) [
    | inl e ↦ e
    | inr (n, e) ↦ absurd (omega (arith, enough n e))
  ]
  all_served c (f ∷ fs) p enough = all_served c fs (handle_trigger_frame p f) λ n e.
      elim (Bool-cases (f.camera_id == c)) [
        | inl same ↦
            let now : served_once (owed p.pending_trigger c) ≡ some n =
              ground (arith, handle_trigger_frame-owed p f c) in
            let before = enough (suc n) (served_once-some (owed p.pending_trigger c) n now) in
            ground arith
        | inr other ↦
            let before = enough n (ground (arith, handle_trigger_frame-owed p f c)) in ground arith
      ]

  -- Once every camera of an armed trigger has delivered more frames than it was to skip, the trigger
  -- is complete.
  pub deliver-completes :
      (expected : ℕ → ℕ) (fs : List FrameData) (p : Processor D) (t : PendingTrigger)
      → p.pending_trigger ≡ some t
      → Serves expected t
      → ((c n : ℕ) → lookup c t.waiting ≡ some n → n < frames_of c fs)
      → (r : TriggerResult) × ((deliver fs p).acks ≡ p.acks ++ r ∷ [])
        × ((c : ℕ) → captures_of c r.captures ≡ expected c)
        × (r.cancelled ≡ false)
  deliver-completes expected fs p t e v enough = elim (deliver-Progress expected fs p t e v) [
    | inr (r, unarmed, acks, counts, kept) ↦ (r, acks, counts, kept)
    | inl (u, pending, serves, acks) ↦ absurd (
        serves.some_left (
          all_none→nil u.waiting λ c.
            ap (λ o. owed o c) (sym pending)
            ∙ all_served c fs p (λ n h. enough c n (ap (λ o. owed o c) (sym e) ∙ h))))
  ]
