-- ===== src/Processor/Serving.antt =====
-- What an armed trigger delivers: one capture for each of its cameras, each the frame that the
-- request asked for.
use cherupi_v4l.Base.{
  Bool-cases, List, Option, [], ap, arith, false, if◌then◌else◌, inl, inr, insert, lookup,
  lookup-erase, lookup-insert, none, refl, some, subst, suc, sym, true, zero, ℕ, ◌++◌, ◌+◌, ◌==◌,
  ◌∙◌, ◌∷◌, ◌≡◌, ◌≢◌, ◌⊎◌,
}
use cherupi_v4l.Processor.{Capture, PendingTrigger, Processor, TriggerResult}
use cherupi_v4l.Processor.Trigger.{
  capture_frame, capture_of, handle_trigger_frame, is_empty, queue_write, serve_trigger, served,
}
use cherupi_v4l.Processor.Backlog.{reserve_backlog}
use cherupi_v4l.Types.{FrameData}

-- How many captures are of camera `c`, and how many frames.
abbrev pub captures_of : ℕ → List Capture → ℕ
captures_of c [] = 0
captures_of c (x ∷ xs) = (if x.camera_id == c then 1 else 0) + captures_of c xs

abbrev pub frames_of : ℕ → List FrameData → ℕ
frames_of c [] = 0
frames_of c (f ∷ fs) = (if f.camera_id == c then 1 else 0) + frames_of c fs

abbrev pub awaited : Option ℕ → ℕ
awaited none = 0
awaited (some n) = 1

captures_of-append :
    (c : ℕ) (xs : List Capture) (x : Capture)
    → captures_of c (xs ++ x ∷ []) ≡ captures_of c xs + (if x.camera_id == c then 1 else 0)
captures_of-append c [] x = omega arith
captures_of-append c (y ∷ xs) x = omega (arith, captures_of-append c xs x)

-- Every camera `c` is captured or still awaited `expected c` times in all, and someone is awaited.
pub record Serves (expected : ℕ → ℕ) (t : PendingTrigger) : Type 0 where
  pub accounted :
      (c : ℕ) → captures_of c t.result.captures + awaited (lookup c t.waiting) ≡ expected c
  pub some_left : t.waiting ≢ []
  pub not_cancelled : t.result.cancelled ≡ false

insert-ne-nil {ℓ} : {V : Type ℓ} (k : ℕ) (v : V) (m : List (ℕ × V)) → insert k v m ≢ []
insert-ne-nil k v [] h = cc
insert-ne-nil k v ((j, w) ∷ m) h = ground arith

pub is_empty→nil {ℓ} : {A : Type ℓ} (xs : List A) → is_empty xs ≡ true → xs ≡ []
is_empty→nil [] h = refl
is_empty→nil (x ∷ xs) h = cc

pub is_empty→cons {ℓ} : {A : Type ℓ} (xs : List A) → is_empty xs ≡ false → xs ≢ []
is_empty→cons [] h e = cc
is_empty→cons (x ∷ xs) h e = cc

served-accounted :
    (expected : ℕ → ℕ) (t : PendingTrigger) (x : Capture)
    → Serves expected t
    → lookup x.camera_id t.waiting ≡ some 0
    → (c : ℕ)
    → captures_of c (served t x).result.captures + awaited (lookup c (served t x).waiting)
      ≡ expected c
unfolding served
served-accounted expected t x v h c = ground (
  arith,
  v.accounted c,
  captures_of-append c t.result.captures x,
  lookup-erase x.camera_id c t.waiting,
)

module _ {D : Type 0} where
  pub record SameTrigger (p q : Processor D) : Type 0 where
    pub same_pending : q.pending_trigger ≡ p.pending_trigger
    pub same_acks : q.acks ≡ p.acks

  pub queue_write-SameTrigger : (p : Processor D) (f : FrameData) → SameTrigger p (queue_write p f)
  unfolding queue_write reserve_backlog
  queue_write-SameTrigger p f = ground arith

  -- Where a trigger stands: still pending with nothing sent, or completed, in which case one result
  -- was sent, for which every camera was captured as often as expected.
  abbrev pub Progress : (ℕ → ℕ) → List TriggerResult → Processor D → Type 0
  Progress expected sent p =
      ((t : PendingTrigger) × (p.pending_trigger ≡ some t) × Serves expected t × (p.acks ≡ sent))
      ⊎ ((r : TriggerResult) × (p.pending_trigger ≡ none)
          × (p.acks ≡ sent ++ r ∷ [])
          × ((c : ℕ) → captures_of c r.captures ≡ expected c)
          × (r.cancelled ≡ false))

  capture_frame-Progress :
      (expected : ℕ → ℕ) (p : Processor D) (t : PendingTrigger) (f : FrameData)
      → Serves expected t
      → lookup f.camera_id t.waiting ≡ some 0
      → Progress expected p.acks (capture_frame p t f)
  unfolding capture_frame capture_of served
  capture_frame-Progress expected p t f v h =
      let t' : PendingTrigger = served t (capture_of p f) in
      elim (Bool-cases (is_empty t'.waiting)) [
        | inl e ↦
            let q : Processor D = queue_write (record p { pending_trigger = none }) f in
            let same = queue_write-SameTrigger (record p { pending_trigger = none }) f in
            let all = λ (c : ℕ). served-accounted expected t (capture_of p f) v h c in
            rw (e, capture_frame)
              (inr (
                t'.result,
                same.same_pending,
                ap (λ a. a ++ t'.result ∷ []) same.same_acks,
                λ c.
                    let waits : lookup c t'.waiting ≡ none = rw (is_empty→nil t'.waiting e) refl in
                    omega (arith, all c, ap awaited waits),
                v.not_cancelled,
              ))
        | inr e ↦
            let same = queue_write-SameTrigger (record p { pending_trigger = some t' }) f in
            rw (e, capture_frame)
              (inl (
                t',
                same.same_pending,
                record {
                  accounted = served-accounted expected t (capture_of p f) v h;
                  some_left = is_empty→cons t'.waiting e;
                  not_cancelled = v.not_cancelled;
                },
                same.same_acks,
              ))
      ]

  serve_trigger-Progress :
      (expected : ℕ → ℕ) (p : Processor D) (t : PendingTrigger) (f : FrameData)
      → p.pending_trigger ≡ some t
      → Serves expected t
      → (left : Option ℕ) → lookup f.camera_id t.waiting ≡ left
      → Progress expected p.acks (serve_trigger p t left f)
  unfolding serve_trigger
  serve_trigger-Progress expected p t f e v none h = inl (t, e, v, refl)
  serve_trigger-Progress expected p t f e v (some zero) h =
      capture_frame-Progress expected p t f v h
  serve_trigger-Progress expected p t f e v (some (suc n)) h = inl (
    record t { waiting = insert f.camera_id n t.waiting },
    refl,
    record {
      accounted = λ c. ground (arith, v.accounted c, lookup-insert f.camera_id c n t.waiting);
      some_left = insert-ne-nil f.camera_id n t.waiting;
      not_cancelled = v.not_cancelled;
    },
    refl,
  )

  handle_trigger_frame-Progress :
      (expected : ℕ → ℕ) (p : Processor D) (t : PendingTrigger) (f : FrameData)
      → p.pending_trigger ≡ some t
      → Serves expected t
      → Progress expected p.acks (handle_trigger_frame p f)
  unfolding handle_trigger_frame
  handle_trigger_frame-Progress expected p t f e v =
      rw (e, handle_trigger_frame)
        (serve_trigger-Progress expected p t f e v (lookup f.camera_id t.waiting) refl)

  -- The frames that the cameras deliver, in the order of delivery.
  unfoldable pub deliver : List FrameData → Processor D → Processor D
  deliver [] p = p
  deliver (f ∷ fs) p = deliver fs (handle_trigger_frame p f)

  pub handle_trigger_frame-unarmed :
      (p : Processor D) (f : FrameData) → p.pending_trigger ≡ none → handle_trigger_frame p f ≡ p
  unfolding handle_trigger_frame
  handle_trigger_frame-unarmed p f e = ground arith

  pub handle_trigger_frame-armed :
      (p : Processor D) (t : PendingTrigger) (f : FrameData)
      → p.pending_trigger ≡ some t
      → handle_trigger_frame p f ≡ serve_trigger p t (lookup f.camera_id t.waiting) f
  unfolding handle_trigger_frame
  handle_trigger_frame-armed p t f e = ground arith

  deliver-idle :
      (fs : List FrameData) (p : Processor D) → p.pending_trigger ≡ none → deliver fs p ≡ p
  unfolding deliver
  deliver-idle [] p e = refl
  deliver-idle (f ∷ fs) p e =
      let same = handle_trigger_frame-unarmed p f e in ap (deliver fs) same ∙ deliver-idle fs p e

  -- However many frames arrive, in whatever order, an armed trigger is either still pending with
  -- nothing sent, or exactly one result was sent, not cancelled, which holds each of its cameras as
  -- often as it was expected.
  pub deliver-Progress :
      (expected : ℕ → ℕ) (fs : List FrameData) (p : Processor D) (t : PendingTrigger)
      → p.pending_trigger ≡ some t
      → Serves expected t
      → Progress expected p.acks (deliver fs p)
  unfolding deliver
  deliver-Progress expected [] p t e v = inl (t, e, v, refl)
  deliver-Progress expected (f ∷ fs) p t e v =
      elim (handle_trigger_frame-Progress expected p t f e v) [
        | inl (u, pending, serves, acks) ↦
            subst (λ a. Progress expected a (deliver fs (handle_trigger_frame p f))) acks
              (deliver-Progress expected fs (handle_trigger_frame p f) u pending serves)
        | inr (r, unarmed, acks, counts, kept) ↦
            subst (Progress expected p.acks)
              (sym (deliver-idle fs (handle_trigger_frame p f) unarmed))
              (inr (r, unarmed, acks, counts, kept))
      ]
