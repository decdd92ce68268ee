-- ===== src/Processor/Rounds.antt =====
-- The detection worker: which camera it serves next, and that it drains what is pending.
use cherupi_v4l.Base.{
  Bool-cases, List, Option-cases, [], ap, arith, erase, inl, inr, length, lookup, ltb, none, refl,
  some, suc, upper_bound, zero, ℕ, ◌<◌, ◌==◌, ◌∙◌, ◌∷◌, ◌≡◌, ◌≢◌, ◌≤◌, ◌⊎◌,
}
use cherupi_v4l.Processor.Accounting.{held}
use cherupi_v4l.Processor.{Processor}
use cherupi_v4l.Processor.Detection.{
  Detectors, drain_detection, next_pending, process_detection, take_pending,
}
use cherupi_v4l.Processor.Publishing.{process_detection-IsPublished}
use cherupi_v4l.Types.{FrameData}

pub length-nil {ℓ} : {A : Type ℓ} (xs : List A) → length xs ≤ 0 → xs ≡ []
length-nil [] h = refl
length-nil (x ∷ xs) h = absurd (omega arith)

module _ {ℓ} {V : Type ℓ} where
  erase-le : (c : ℕ) (m : List (ℕ × V)) → length (erase c m) ≤ length m
  erase-le c [] = omega arith
  erase-le c ((j, w) ∷ m) = ground (arith, erase-le c m)

  erase-lt : (c : ℕ) (m : List (ℕ × V)) → lookup c m ≢ none → length (erase c m) < length m
  erase-lt c [] h = absurd (h refl)
  erase-lt c ((j, w) ∷ m) h = elim (Bool-cases (j == c)) [
    | inl e ↦ ground (arith, erase-le c m)
    | inr e ↦ ground (arith, erase-lt c m)
  ]

  upper_bound-lookup :
      (k c : ℕ) (v : V) (m : List (ℕ × V)) → upper_bound k m ≡ some (c, v) → lookup c m ≢ none
  upper_bound-lookup k c v [] h = cc
  upper_bound-lookup k c v ((j, w) ∷ m) h = ground (arith, upper_bound-lookup k c v m)

  -- The keys are in increasing order, above `low`.
  abbrev pub IsAbove : ℕ → List (ℕ × V) → Type 0
  IsAbove low [] = Unit {0}
  IsAbove low ((j, w) ∷ m) = (low ≤ j) × IsAbove (suc j) m

  IsAbove-lookup : (low k : ℕ) (m : List (ℕ × V)) → IsAbove low m → lookup k m ≢ none → low ≤ k
  IsAbove-lookup low k [] s h = absurd (h refl)
  IsAbove-lookup low k ((j, w) ∷ m) s h = elim (Bool-cases (j == k)) [
    | inl e ↦ ground arith
    | inr e ↦ ground (arith, IsAbove-lookup (suc j) k m s.1)
  ]

  upper_bound-least :
      (last low c : ℕ) (v : V) (m : List (ℕ × V))
      → IsAbove low m
      → upper_bound last m ≡ some (c, v)
      → (last < c) × ((k : ℕ) → lookup k m ≢ none → last < k → c ≤ k)
  upper_bound-least last low c v [] s h = cc
  upper_bound-least last low c v ((j, w) ∷ m) s h = elim (Bool-cases (ltb last j)) [
    | inl e ↦ (
      ground arith,
      λ k held above.
          ground (arith, IsAbove-lookup low k ((j, w) ∷ m), IsAbove-lookup j k ((j, w) ∷ m)),
    )
    | inr e ↦
        let rest = upper_bound-least last (suc j) c v m s.1 (ground arith) in
        (rest.0, λ k held above. rest.1 k (λ gone. held (ground arith)) above)
  ]

  upper_bound-none :
      (last k : ℕ) (m : List (ℕ × V)) → upper_bound last m ≡ none → lookup k m ≢ none → k ≤ last
  upper_bound-none last k [] h held = absurd (held refl)
  upper_bound-none last k ((j, w) ∷ m) h held = elim (Bool-cases (j == k)) [
    | inl e ↦ ground arith
    | inr e ↦ ground (arith, upper_bound-none last k m)
  ]

pub next_pending-none : (last : ℕ) (m : List (ℕ × FrameData)) → next_pending last m ≡ none → m ≡ []
unfolding next_pending
next_pending-none last [] h = refl
next_pending-none last (e ∷ m) h = ground arith

next_pending-lookup :
    (last c : ℕ) (f : FrameData) (m : List (ℕ × FrameData))
    → next_pending last m ≡ some (c, f)
    → lookup c m ≢ none
unfolding next_pending
next_pending-lookup last c f [] h = cc
next_pending-lookup last c f ((j, g) ∷ m) h = elim (Option-cases (upper_bound last ((j, g) ∷ m))) [
  | inl e ↦ ground arith
  | inr (found, e) ↦ ground (arith, upper_bound-lookup last c f ((j, g) ∷ m))
]

-- The worker's turns go round: the next camera is the least pending one above the camera that was
-- served last, and where there is none above it, the least pending one of all.
next_pending-round :
    (last c : ℕ) (f : FrameData) (m : List (ℕ × FrameData))
    → IsAbove 0 m
    → next_pending last m ≡ some (c, f)
    → ((last < c) × ((k : ℕ) → lookup k m ≢ none → last < k → c ≤ k))
      ⊎ ((k : ℕ) → lookup k m ≢ none → (k ≤ last) × (c ≤ k))
unfolding next_pending
next_pending-round last c f [] s h = cc
next_pending-round last c f ((j, g) ∷ m) s h = elim (Option-cases (upper_bound last ((j, g) ∷ m))) [
  | inl e ↦ inr λ k held.
      (upper_bound-none last k ((j, g) ∷ m) e held, ground (arith, IsAbove-lookup j k ((j, g) ∷ m)))
  | inr (found, e) ↦ inl (upper_bound-least last 0 c f ((j, g) ∷ m) s (ground arith))
]

module _ {D : Type 0} where
  pub drain_detection-empties :
      (n : ℕ) (d : Detectors D) (p : Processor D)
      → length p.pending_detection ≤ n
      → (drain_detection n d p).pending_detection ≡ []
  unfolding drain_detection take_pending
  drain_detection-empties zero d p h = length-nil p.pending_detection h
  drain_detection-empties (suc n) d p h =
      elim (Option-cases (next_pending p.last_detected_camera p.pending_detection)) [
        | inl e ↦
            let stopped : drain_detection (suc n) d p ≡ p = ground arith in
            ap (λ (q : Processor D). q.pending_detection) stopped
            ∙ next_pending-none p.last_detected_camera p.pending_detection e
        | inr ((c, f), e) ↦
            let q : Processor D = record p {
              last_detected_camera = c;
              pending_detection = erase c p.pending_detection;
            } in
            let done = process_detection-IsPublished d q f in
            let shorter =
              erase-lt c p.pending_detection
                (next_pending-lookup p.last_detected_camera c f p.pending_detection e) in
            let goes_on : drain_detection (suc n) d p
                ≡ drain_detection n d (process_detection d q f) =
              ground arith in
            ap (λ (r : Processor D). r.pending_detection) goes_on
            ∙ drain_detection-empties n d (process_detection d q f)
                (omega (arith, ap length done.same_pending))
      ]
