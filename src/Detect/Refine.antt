-- ===== src/Detect/Refine.antt =====
-- makeDecodeLut, intersect and refineCornersFromEdges of src/aruco_detector.cpp.
use cherupi_v4l.Base.{
  Bool, List, Option, [], get_or, if◌then◌else◌, length, none, not, some, ℕ, ◌%◌, ◌+◌, ◌==◌, ◌^◌,
  ◌||◌, ◌∷◌,
}
use cherupi_v4l.Detect.Edge.{
  Arithmetic, Line, along, and_then, between, cross2, larger_of, sum_terms,
}
use cherupi_v4l.Detect.Profile.{fit_edge}
use cherupi_v4l.Detect.Views.{View}

module _ {F : Type 0} (fl : Arithmetic F) where
  -- `power` is std::pow.
  unfoldable pub decode_lut : (F → F → F) → F → ℕ → F
  decode_lut power gamma i =
      let v = fl.ratio i 1 in
      if not (fl.less (fl.ratio 0 1) gamma)
        || fl.less (fl.magnitude (fl.minus gamma (fl.ratio 1 1))) (fl.ratio 1 (10 ^ 6))
      then v
      else fl.times (fl.ratio 255 1) (power (fl.over v (fl.ratio 255 1)) gamma)

  unfoldable pub intersect : Line F → Line F → Option (F × F)
  intersect l1 l2 =
      let det = cross2 fl l1.heading l2.heading in
      let s = fl.over (cross2 fl (between fl l1.through l2.through) l2.heading) det in
      if fl.less (fl.magnitude det) (fl.ratio 1 (10 ^ 6))
      then none
      else some (along fl l1.through l1.heading s)

  abbrev pub corner : List (F × F) → ℕ → F × F
  corner corners k = get_or corners k (fl.ratio 0 1, fl.ratio 0 1)

  unfoldable pub distance : F × F → F × F → F
  distance a b = let (dx, dy) = between fl a b in fl.hypot dx dy

  unfoldable pub centre_of : List (F × F) → F × F
  centre_of corners =
      let quarter = fl.ratio 1 4 in
      (
        fl.times (sum_terms fl (λ k. (corner corners k).0) 0 4 (fl.ratio 0 1)) quarter,
        fl.times (sum_terms fl (λ k. (corner corners k).1) 0 4 (fl.ratio 0 1)) quarter,
      )

  -- The mean length of a side.
  unfoldable pub side_of : List (F × F) → F
  side_of corners =
      fl.times
        (sum_terms fl (λ k. distance (corner corners k) (corner corners ((k + 1) % 4))) 0 4
          (fl.ratio 0 1))
        (fl.ratio 1 4)

  -- std::clamp(side / 12, 2, 10)
  unfoldable pub reach_of : F → F
  reach_of side =
      let r = fl.over side (fl.ratio 12 1) in
      if fl.less r (fl.ratio 2 1)
      then fl.ratio 2 1
      else if fl.less (fl.ratio 10 1) r
      then fl.ratio 10 1
      else r

  unfoldable pub max_shift : F → F
  max_shift side = larger_of fl (fl.ratio 3 1) (fl.times (fl.ratio 1 10) side)

  -- Where edge k - 1 meets edge k, unless that is too far from the corner.
  unfoldable pub moved_corner : F → F × F → Line F → Line F → Option (F × F)
  moved_corner limit old before after =
      and_then (intersect before after)
        (λ new. if fl.less limit (distance old new) then none else some new)

module _ {F : Type 0} where
  unfoldable pub or_else : Option (List (F × F)) → List (F × F) → List (F × F)
  or_else none corners = corners
  or_else (some new) corners = new

module _ {F G : Type 0} (fl : Arithmetic F) (db : Arithmetic G) (widen : F → G)
    (narrow : G → F) where
  unfoldable pub fit_side : View → (ℕ → F) → List (F × F) → ℕ → Option (Line F)
  fit_side img lut corners k =
      fit_edge fl db widen narrow img lut (corner fl corners k) (corner fl corners ((k + 1) % 4))
        (centre_of fl corners) (reach_of fl (side_of fl corners))

  -- The four new corners, from the lines through the four edges.
  unfoldable pub moved_corners :
      List (F × F) → Line F → Line F → Line F → Line F → Option (List (F × F))
  moved_corners corners l0 l1 l2 l3 =
      let limit = max_shift fl (side_of fl corners) in
      and_then (moved_corner fl limit (corner fl corners 0) l3 l0) (λ c0.
        and_then (moved_corner fl limit (corner fl corners 1) l0 l1) (λ c1.
          and_then (moved_corner fl limit (corner fl corners 2) l1 l2) (λ c2.
            and_then (moved_corner fl limit (corner fl corners 3) l2 l3)
              (λ c3. some (c0 ∷ c1 ∷ c2 ∷ c3 ∷ [])))))

  unfoldable pub fitted_corners : View → (ℕ → F) → List (F × F) → Option (List (F × F))
  fitted_corners img lut corners = and_then (fit_side img lut corners 0) (λ l0.
      and_then (fit_side img lut corners 1) (λ l1.
        and_then (fit_side img lut corners 2)
          (λ l2. and_then (fit_side img lut corners 3) (λ l3. moved_corners corners l0 l1 l2 l3))))

  unfoldable pub is_refused : View → List (F × F) → Bool
  is_refused img corners =
      not (length corners == 4)
      || (img.wide == 0)
      || (img.high == 0)
      || fl.less (side_of fl corners) (fl.ratio 12 1)

  unfoldable pub refined_corners : View → (ℕ → F) → List (F × F) → Option (List (F × F))
  refined_corners img lut corners =
      if is_refused img corners then none else fitted_corners img lut corners

  -- The corners afterwards: without a fit they stay as they are.
  unfoldable pub refine_corners : View → (ℕ → F) → List (F × F) → List (F × F)
  refine_corners img lut corners = or_else (refined_corners img lut corners) corners
