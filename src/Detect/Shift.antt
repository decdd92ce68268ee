-- ===== src/Detect/Shift.antt =====
-- How far refineCornersFromEdges (src/aruco_detector.cpp) may move a corner.
use cherupi_v4l.Base.{
  Bool-cases, List, Option, [], arith, false, if◌then◌else◌, inl, inr, length, none, refl, some,
  subst, ℕ, ◌<◌, ◌∷◌, ◌≡◌, ◌⊎◌,
}
use cherupi_v4l.Detect.Edge.{Arithmetic, Line, and_then}
use cherupi_v4l.Detect.Refine.{
  corner, distance, fit_side, fitted_corners, intersect, is_refused, max_shift, moved_corner,
  moved_corners, or_else, refine_corners, refined_corners, side_of,
}
use cherupi_v4l.Detect.Views.{View}

and_then-eq-some :
    {A B : Type 0} (o : Option A) (f : A → Option B) {b : B}
    → and_then o f ≡ some b
    → (a : A) × (o ≡ some a) × (f a ≡ some b)
and_then-eq-some none f h = cc
and_then-eq-some (some a) f h = (a, refl, h)

module _ {F : Type 0} (fl : Arithmetic F) where
  moved_corner-near :
      (limit : F) (old : F × F) (before after : Line F) {new : F × F}
      → moved_corner fl limit old before after ≡ some new
      → fl.less limit (distance fl old new) ≡ false
  unfolding moved_corner
  moved_corner-near limit old before after h =
      let (q, e, g) =
        and_then-eq-some (intersect fl before after)
          (λ q. if fl.less limit (distance fl old q) then none else some q) h in
      ground arith

  -- Corner `k` has moved no farther than the limit.
  abbrev IsNear : F → List (F × F) → List (F × F) → ℕ → Type 0
  IsNear limit old new k = fl.less limit (distance fl (corner fl old k) (corner fl new k)) ≡ false

  abbrev pub AreNear : F → List (F × F) → List (F × F) → Type 0
  AreNear limit old new =
      (length new ≡ 4)
      × IsNear limit old new 0
      × IsNear limit old new 1
      × IsNear limit old new 2
      × IsNear limit old new 3

module _ {F G : Type 0} (fl : Arithmetic F) (db : Arithmetic G) (widen : F → G)
    (narrow : G → F) where
  moved_corners-AreNear :
      (corners : List (F × F)) (l0 l1 l2 l3 : Line F) {new : List (F × F)}
      → moved_corners fl db widen narrow corners l0 l1 l2 l3 ≡ some new
      → AreNear fl (max_shift fl (side_of fl corners)) corners new
  unfolding moved_corners
  moved_corners-AreNear corners l0 l1 l2 l3 {new} h =
      let limit : F = max_shift fl (side_of fl corners) in
      let (c0, e0, h0) = and_then-eq-some _ _ h in
      let (c1, e1, h1) = and_then-eq-some _ _ h0 in
      let (c2, e2, h2) = and_then-eq-some _ _ h1 in
      let (c3, e3, h3) = and_then-eq-some _ _ h2 in
      let all : (c0 ∷ c1 ∷ c2 ∷ c3 ∷ []) ≡ new = cc in
      subst (λ cs. AreNear fl limit corners cs) all
        (
          refl,
          moved_corner-near fl limit (corner fl corners 0) l3 l0 e0,
          moved_corner-near fl limit (corner fl corners 1) l0 l1 e1,
          moved_corner-near fl limit (corner fl corners 2) l1 l2 e2,
          moved_corner-near fl limit (corner fl corners 3) l2 l3 e3,
        )

  fitted_corners-AreNear :
      (img : View) (lut : ℕ → F) (corners : List (F × F)) {new : List (F × F)}
      → fitted_corners fl db widen narrow img lut corners ≡ some new
      → AreNear fl (max_shift fl (side_of fl corners)) corners new
  unfolding fitted_corners
  fitted_corners-AreNear img lut corners h =
      let fit : ℕ → Option (Line F) = fit_side fl db widen narrow img lut corners in
      let moved : Line F → Line F → Line F → Line F → Option (List (F × F)) =
        moved_corners fl db widen narrow corners in
      let (l0, e0, h0) =
        and_then-eq-some (fit 0)
          (λ l0.
            and_then (fit 1)
              (λ l1. and_then (fit 2) (λ l2. and_then (fit 3) (λ l3. moved l0 l1 l2 l3))))
          h in
      let (l1, e1, h1) =
        and_then-eq-some (fit 1)
          (λ l1. and_then (fit 2) (λ l2. and_then (fit 3) (λ l3. moved l0 l1 l2 l3))) h0 in
      let (l2, e2, h2) =
        and_then-eq-some (fit 2) (λ l2. and_then (fit 3) (λ l3. moved l0 l1 l2 l3)) h1 in
      let (l3, e3, h3) = and_then-eq-some (fit 3) (λ l3. moved l0 l1 l2 l3) h2 in
      moved_corners-AreNear corners l0 l1 l2 l3 h3

  -- What a marker has to be for its corners to be moved, and how far they are moved.
  abbrev IsRefined : View → List (F × F) → List (F × F) → Type 0
  IsRefined img corners new =
      (length corners ≡ 4)
      × (0 < img.wide)
      × (0 < img.high)
      × (fl.less (side_of fl corners) (fl.ratio 12 1) ≡ false)
      × AreNear fl (max_shift fl (side_of fl corners)) corners new

  refusal :
      (img : View) (corners : List (F × F))
      → is_refused fl db widen narrow img corners ≡ false
      → (length corners ≡ 4)
        × (0 < img.wide)
        × (0 < img.high)
        × (fl.less (side_of fl corners) (fl.ratio 12 1) ≡ false)
  unfolding is_refused
  refusal img corners h = ground arith

  refined_corners-IsRefined :
      (img : View) (lut : ℕ → F) (corners : List (F × F)) {new : List (F × F)}
      → refined_corners fl db widen narrow img lut corners ≡ some new
      → IsRefined img corners new
  unfolding refined_corners
  refined_corners-IsRefined img lut corners h =
      elim (Bool-cases (is_refused fl db widen narrow img corners)) [
        | inl e ↦ let nothing : none ≡ some _ = rw e at h in cc
        | inr e ↦
            let r = refusal img corners e in
            (r.0, r.1, r.2, r.3, fitted_corners-AreNear img lut corners (rw e at h))
      ]

  or_else-cases :
      (img : View) (lut : ℕ → F) (corners : List (F × F)) (o : Option (List (F × F)))
      → refined_corners fl db widen narrow img lut corners ≡ o
      → (or_else o corners ≡ corners) ⊎ IsRefined img corners (or_else o corners)
  unfolding or_else
  or_else-cases img lut corners none e = inl refl
  or_else-cases img lut corners (some new) e = inr (refined_corners-IsRefined img lut corners e)

  -- The refinement leaves a marker's corners as they are, or else the marker has four corners, the
  -- image is not empty, its mean side is not below 12 pixels, and each of the four new corners is no
  -- farther from the old one than max_shift allows.
  refine_corners-IsRefined :
      (img : View) (lut : ℕ → F) (corners : List (F × F))
      → let new = refine_corners fl db widen narrow img lut corners in
        (new ≡ corners) ⊎ IsRefined img corners new
  unfolding refine_corners
  refine_corners-IsRefined img lut corners =
      or_else-cases img lut corners (refined_corners fl db widen narrow img lut corners) refl
