-- ===== src/Detect/Edge.antt =====
-- The edge fit of src/aruco_detector.cpp: sampleLinear, fitLine and fitEdge. float and double are
-- parameters, `F` and `G`, with the arithmetic that the code uses.
use cherupi_v4l.Base.{
  Bool, List, Option, [], get_or, if◌then◌else◌, length, ltb, none, some, suc, zero, ℕ, ◌&&◌, ◌*◌,
  ◌+◌, ◌-◌, ◌^◌, ◌∷◌,
}
use cherupi_v4l.Detect.Views.{View}

-- `ratio a b` is the literal a / b, `diff i k` an int i - k, `truncated` and `rounded` the casts of a
-- value that is not negative.
pub record Arithmetic (F : Type 0) : Type 0 where
  pub plus : F → F → F
  pub minus : F → F → F
  pub times : F → F → F
  pub over : F → F → F
  pub negated : F → F
  pub magnitude : F → F
  pub root : F → F
  pub hypot : F → F → F
  pub less : F → F → Bool
  pub at_most : F → F → Bool
  pub ratio : ℕ → ℕ → F
  pub diff : ℕ → ℕ → F
  pub truncated : F → ℕ
  pub rounded : F → ℕ

abbrev pub and_then : {A B : Type 0} → Option A → (A → Option B) → Option B
and_then none f = none
and_then (some a) f = f a

module _ {F : Type 0} (fl : Arithmetic F) where
  -- std::max
  unfoldable pub larger_of : F → F → F
  larger_of a b = if fl.less a b then b else a

  unfoldable pub pixel_at : View → (ℕ → F) → ℕ → ℕ → F
  pixel_at img lut row col = lut (get_or img.pixels (row * img.stride + col) 0)

  -- Between two values, the second one by the part `f`.
  unfoldable pub blend : F → F → F → F
  blend a b f = fl.plus (fl.times a (fl.minus (fl.ratio 1 1) f)) (fl.times b f)

  unfoldable pub is_sampled : View → F → F → Bool
  is_sampled img x y =
      fl.at_most (fl.ratio 0 1) x
      && fl.at_most (fl.ratio 0 1) y
      && fl.less x (fl.ratio (img.wide - 1) 1)
      && fl.less y (fl.ratio (img.high - 1) 1)

  unfoldable pub sample_linear : View → (ℕ → F) → F → F → Option F
  sample_linear img lut x y =
      let x0 = fl.truncated x in
      let y0 = fl.truncated y in
      let fx = fl.minus x (fl.ratio x0 1) in
      let fy = fl.minus y (fl.ratio y0 1) in
      let top = blend (pixel_at img lut y0 x0) (pixel_at img lut y0 (x0 + 1)) fx in
      let bot = blend (pixel_at img lut (y0 + 1) x0) (pixel_at img lut (y0 + 1) (x0 + 1)) fx in
      if is_sampled img x y then some (blend top bot fy) else none

  unfoldable pub cross2 : F × F → F × F → F
  cross2 (ax, ay) (bx, by) = fl.minus (fl.times ax by) (fl.times ay bx)

  -- a + d * t
  unfoldable pub along : F × F → F × F → F → F × F
  along (ax, ay) (dx, dy) t = (fl.plus ax (fl.times dx t), fl.plus ay (fl.times dy t))

  unfoldable pub between : F × F → F × F → F × F
  between (ax, ay) (bx, by) = (fl.minus bx ax, fl.minus by ay)

  -- The sum of `term` over the numbers from `i` on, added to `acc` one by one.
  unfoldable pub sum_terms : (ℕ → F) → ℕ → ℕ → F → F
  sum_terms term i zero acc = acc
  sum_terms term i (suc n) acc = sum_terms term (suc i) n (fl.plus acc (term i))

-- A point on the line and its unit direction.
pub record Line (F : Type 0) : Type 0 where
  pub through : F × F
  pub heading : F × F

module _ {F G : Type 0} (fl : Arithmetic F) (db : Arithmetic G) (widen : F → G)
    (narrow : G → F) where
  unfoldable pub sum_over : (F × F → G) → List (F × F) → G → G
  sum_over term [] acc = acc
  sum_over term (p ∷ ps) acc = sum_over term ps (db.plus acc (term p))

  unfoldable pub principal : G → G → G → G × G
  principal sxx sxy syy =
      let tr = db.plus sxx syy in
      let det = db.minus (db.times sxx syy) (db.times sxy sxy) in
      let l1 = db.plus (db.times (db.ratio 1 2) tr) (
        db.root (
          larger_of db (db.ratio 0 1) (db.minus (db.times (db.times (db.ratio 1 4) tr) tr) det))) in
      if db.less (db.ratio 1 (10 ^ 12)) (db.magnitude sxy)
      then (db.minus l1 syy, sxy)
      else if db.at_most syy sxx
      then (db.ratio 1 1, db.ratio 0 1)
      else (db.ratio 0 1, db.ratio 1 1)

  unfoldable pub line_of : G → G → G × G → Option (Line F)
  line_of cx cy (dx, dy) =
      let n = db.hypot dx dy in
      if db.less n (db.ratio 1 (10 ^ 12))
      then none
      else some (record {
        through = (narrow cx, narrow cy);
        heading = (narrow (db.over dx n), narrow (db.over dy n));
      })

  unfoldable pub fit_line : List (F × F) → Option (Line F)
  fit_line pts =
      let count = db.ratio (length pts) 1 in
      let cx = db.over (sum_over (λ p. widen p.0) pts (db.ratio 0 1)) count in
      let cy = db.over (sum_over (λ p. widen p.1) pts (db.ratio 0 1)) count in
      let dx : F × F → G = λ p. db.minus (widen p.0) cx in
      let dy : F × F → G = λ p. db.minus (widen p.1) cy in
      let sxx = sum_over (λ p. db.times (dx p) (dx p)) pts (db.ratio 0 1) in
      let sxy = sum_over (λ p. db.times (dx p) (dy p)) pts (db.ratio 0 1) in
      let syy = sum_over (λ p. db.times (dy p) (dy p)) pts (db.ratio 0 1) in
      if ltb (length pts) 2 then none else line_of cx cy (principal sxx sxy syy)
