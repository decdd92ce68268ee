-- ===== src/Detect/Profile.antt =====
-- fitEdge of src/aruco_detector.cpp: the luma profiles across one edge of a marker, the points where
-- they cross from black to white, and the line through them, fitted twice.
use cherupi_v4l.Base.{
  List, Option, [], get_or, if◌then◌else◌, length, ltb, map, max, none, some, suc, zero, ℕ, ◌&&◌,
  ◌*◌, ◌+◌, ◌-◌, ◌/◌, ◌∷◌,
}
use cherupi_v4l.Detect.Edge.{
  Arithmetic, Line, along, and_then, between, cross2, fit_line, larger_of, sample_linear, sum_terms,
}
use cherupi_v4l.Detect.Views.{View}
use cherupi_v4l.Processor.Session.{pick}

-- Where the profiles are taken: the edge from `a`, its unit direction, the unit normal to the
-- outside, its length, and how many samples lie on either side.
pub record Edge (F : Type 0) : Type 0 where
  pub start_corner : F × F
  pub direction : F × F
  pub outward : F × F
  pub span : F
  pub half : ℕ

abbrev pub lines_per_edge : ℕ
lines_per_edge = 31

abbrev pub min_edge_points : ℕ
min_edge_points = 6

module _ {F : Type 0} (fl : Arithmetic F) where
  abbrev pub step_px : F
  step_px = fl.ratio 1 4

  unfoldable pub dot : F × F → F × F → F
  dot (ax, ay) (bx, by) = fl.plus (fl.times ax bx) (fl.times ay by)

  -- An edge shorter than 4 pixels is none.
  unfoldable pub edge_of : F × F → F × F → F × F → F → Option (Edge F)
  edge_of a b ctr reach =
      let (ex, ey) = between fl a b in
      let len = fl.hypot ex ey in
      let inverse = fl.over (fl.ratio 1 1) len in
      let ux = fl.times ex inverse in
      let uy = fl.times ey inverse in
      let n : F × F = (fl.negated uy, ux) in
      let flipped : F × F = (fl.negated (fl.negated uy), fl.negated ux) in
      if fl.less len (fl.ratio 4 1)
      then none
      else some (record {
        start_corner = a;
        direction = (ux, uy);
        outward = if fl.less (fl.ratio 0 1) (dot n (between fl a ctr)) then flipped else n;
        span = len;
        half = max 2 (fl.rounded (fl.over reach step_px));
      })

  -- The `s`-th sample line starts in the edge's middle 60 %.
  unfoldable pub line_start : Edge F → ℕ → F × F
  line_start e s =
      let lo = fl.ratio 2 10 in
      let frac = fl.plus lo (
        fl.over (fl.times (fl.minus (fl.ratio 8 10) lo) (fl.ratio s 1))
          (fl.ratio (lines_per_edge - 1) 1)) in
      along fl e.start_corner e.direction (fl.times frac e.span)

  unfoldable pub sample_at : View → (ℕ → F) → Edge F → F × F → ℕ → Option F
  sample_at img lut e p i =
      let (x, y) = along fl p e.outward (fl.times (fl.diff i e.half) step_px) in
      sample_linear fl img lut x y

  added : Option F → Option (List F) → Option (List F)
  added (some v) (some vs) = some (v ∷ vs)
  added (some v) none = none
  added none vs = none

  -- The samples from `i` on; none where one lies outside of the image.
  unfoldable pub profile : View → (ℕ → F) → Edge F → F × F → ℕ → ℕ → Option (List F)
  unfolding added
  profile img lut e p i zero = some []
  profile img lut e p i (suc n) = added (sample_at img lut e p i) (profile img lut e p (suc i) n)

  -- The first crossing of `mid`, with the number of pairs left.
  unfoldable pub crossing : List F → F → Edge F → F × F → ℕ → ℕ → Option (F × F)
  crossing prof mid e p i zero = none
  crossing prof mid e p i (suc n) =
      let here = get_or prof i (fl.ratio 0 1) in
      let next = get_or prof (suc i) (fl.ratio 0 1) in
      let part = fl.over (fl.minus mid here) (fl.minus next here) in
      let rest = crossing prof mid e p (suc i) n in
      if fl.less here mid && fl.at_most mid next
      then some (along fl p e.outward (fl.times (fl.plus (fl.diff i e.half) part) step_px))
      else rest

  -- The mean of the values that `pick` takes.
  unfoldable pub mean_of : (ℕ → F) → ℕ → F
  mean_of pick count = fl.over (sum_terms fl pick 0 count (fl.ratio 0 1)) (fl.ratio count 1)

  unfoldable pub edge_point : List F → Edge F → F × F → ℕ → Option (F × F)
  edge_point prof e p n_prof =
      let plateau = max 2 (n_prof / 4) in
      let blk = mean_of (λ i. get_or prof i (fl.ratio 0 1)) plateau in
      let wht = mean_of (λ i. get_or prof (n_prof - 1 - i) (fl.ratio 0 1)) plateau in
      if fl.less (fl.minus wht blk) (larger_of fl (fl.ratio 4 1) (fl.times (fl.ratio 15 100) wht))
      then none
      else crossing prof (fl.times (fl.ratio 1 2) (fl.plus blk wht)) e p 0 (n_prof - 1)

  kept_point : Option (F × F) → List (F × F) → List (F × F)
  kept_point none ps = ps
  kept_point (some p) ps = p ∷ ps

  -- The points of the sample lines from `s` on.
  unfoldable pub edge_points : View → (ℕ → F) → Edge F → ℕ → ℕ → List (F × F)
  unfolding kept_point
  edge_points img lut e s zero = []
  edge_points img lut e s (suc n) =
      let p = line_start e s in
      let n_prof = 2 * e.half + 1 in
      kept_point (and_then (profile img lut e p 0 n_prof) (λ prof. edge_point prof e p n_prof))
        (edge_points img lut e (suc s) n)

  -- What std::nth_element puts at size / 2.
  insert_value : F → List F → List F
  insert_value v [] = v ∷ []
  insert_value v (w ∷ ws) = if fl.less w v then w ∷ insert_value v ws else v ∷ w ∷ ws

  sort_values : List F → List F
  unfolding insert_value
  sort_values [] = []
  sort_values (v ∷ vs) = insert_value v (sort_values vs)

  unfoldable pub median : List F → F
  unfolding sort_values
  median vs = get_or (sort_values vs) (length vs / 2) (fl.ratio 0 1)

  unfoldable pub residual : Line F → F × F → F
  residual l p = fl.magnitude (cross2 fl (between fl l.through p) l.heading)

  unfoldable pub keep_close : Line F → F → List (F × F) → List (F × F)
  keep_close l thr [] = []
  keep_close l thr (p ∷ ps) =
      let rest = keep_close l thr ps in if fl.at_most (residual l p) thr then p ∷ rest else rest

module _ {F G : Type 0} (fl : Arithmetic F) (db : Arithmetic G) (widen : F → G)
    (narrow : G → F) where
  unfoldable pub fit_enough : List (F × F) → Option (Line F)
  fit_enough pts =
      if ltb (length pts) min_edge_points then none else fit_line fl db widen narrow pts

  unfoldable pub refit : List (F × F) → Line F → Option (Line F)
  refit pts first =
      let thr =
        larger_of fl (fl.ratio 3 10)
          (fl.times (fl.ratio 3 1) (median fl (map (residual fl first) pts))) in
      fit_enough (keep_close fl first thr pts)

  unfoldable pub fit_edge : View → (ℕ → F) → F × F → F × F → F × F → F → Option (Line F)
  fit_edge img lut a b ctr reach = and_then (edge_of fl a b ctr reach) (λ e.
      let pts = edge_points fl img lut e 0 lines_per_edge in and_then (fit_enough pts) (refit pts))
