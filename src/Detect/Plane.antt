-- ===== src/Detect/Plane.antt =====
-- What extractYFromYUV420 (src/frame_processor_helpers.cpp) makes of a frame that is complete.
use cherupi_v4l.Base.{
  Bool, List, Option, [], ap, ap₂, arith, false, get_or, get_or-append_left, get_or-append_right,
  if◌then◌else◌, length, length-append, none, refl, some, subst, suc, sym, true, zero, ℕ, ◌*◌, ◌++◌,
  ◌+◌, ◌-◌, ◌/◌, ◌<◌, ◌∙◌, ◌≡◌, ◌≤◌,
}
use native.Mathlib.Nat.{mul-le-mul_right}
use cherupi_v4l.Detect.Luma.{
  extract_y, half_row, half_rows, joined_rows, plane_size, whole_row, whole_rows,
}
use cherupi_v4l.Detect.Rows.{IsRow, half_row-IsRow, source_byte, whole_row-IsRow}
use cherupi_v4l.Types.{FrameData}

-- `wide` columns and `n` rows whose pixels are `f`.
abbrev pub IsPlane : ℕ → ℕ → (ℕ → ℕ → ℕ) → Option (List ℕ) → Type 0
IsPlane wide n f o =
    (bs : List ℕ) × (o ≡ some bs)
    × (length bs ≡ n * wide)
    × ((r c : ℕ) → r < n → c < wide → get_or bs (r * wide + c) 0 ≡ f r c)

first_row : (wide c : ℕ) → 0 * wide + c ≡ c
first_row wide c = omega arith

later_row : (wide len r c : ℕ) → len ≡ wide → suc r * wide + c - len ≡ r * wide + c
later_row wide len r c l = omega arith

joined_at :
    (wide n : ℕ) (f : ℕ → ℕ → ℕ) (xs ys : List ℕ)
    → length xs ≡ wide
    → ((c : ℕ) → c < wide → get_or xs c 0 ≡ f 0 c)
    → ((r c : ℕ) → r < n → c < wide → get_or ys (r * wide + c) 0 ≡ f (suc r) c)
    → (r c : ℕ) → r < suc n
    → c < wide
    → get_or (xs ++ ys) (r * wide + c) 0 ≡ f r c
joined_at wide n f xs ys l g g' zero c below within =
    ap (λ i. get_or (xs ++ ys) i 0) (first_row wide c)
    ∙ get_or-append_left xs ys c 0 (omega arith)
    ∙ g c within
joined_at wide n f xs ys l g g' (suc r) c below within =
    get_or-append_right xs ys (suc r * wide + c) 0 (omega arith)
    ∙ ap (λ i. get_or ys i 0) (later_row wide (length xs) r c l)
    ∙ g' r c (omega arith) within

joined_rows-IsPlane :
    (wide n : ℕ) (f : ℕ → ℕ → ℕ) (o os : Option (List ℕ))
    → IsRow wide (λ c. f 0 c) o
    → IsPlane wide n (λ r c. f (suc r) c) os
    → IsPlane wide (suc n) f (joined_rows o os)
unfolding joined_rows
joined_rows-IsPlane wide n f none os (bs, e, l, g) p = cc
joined_rows-IsPlane wide n f (some xs) none (bs, e, l, g) (cs, e', l', g') = cc
joined_rows-IsPlane wide n f (some xs) (some ys) (bs, e, l, g) (cs, e', l', g') =
    let same : xs ≡ bs = cc in
    let same' : ys ≡ cs = cc in
    (
      xs ++ ys,
      refl,
      omega (arith, length-append xs ys, ap length same, ap length same'),
      joined_at wide n f xs ys (omega (arith, ap length same))
          (λ c within. ap (λ zs. get_or zs c 0) same ∙ g c within)
          (λ r c below within. ap (λ zs. get_or zs (r * wide + c) 0) same' ∙ g' r c below within),
    )

IsRow-eq :
    (wide : ℕ) (f g : ℕ → ℕ) (o : Option (List ℕ))
    → ((c : ℕ) → f c ≡ g c)
    → IsRow wide f o
    → IsRow wide g o
IsRow-eq wide f g o h (bs, e, l, k) = (bs, e, l, λ c within. k c within ∙ h c)

IsPlane-eq :
    (wide n : ℕ) (f g : ℕ → ℕ → ℕ) (o : Option (List ℕ))
    → ((r c : ℕ) → f r c ≡ g r c)
    → IsPlane wide n f o
    → IsPlane wide n g o
IsPlane-eq wide n f g o h (bs, e, l, k) = (bs, e, l, λ r c below within. k r c below within ∙ h r c)

plus_zero : (n : ℕ) → n ≡ n + 0
plus_zero n = omega arith

zero_plus : (n : ℕ) → 0 + n ≡ n
zero_plus n = omega arith

suc_plus : (n r : ℕ) → suc n + r ≡ n + suc r
suc_plus n r = omega arith

row_fits :
    (row n line wide size : ℕ)
    → wide ≤ line
    → (row + suc n) * line ≤ size
    → row * line + wide ≤ size
row_fits row n line wide size w h = grind arith

half_row_fits :
    (row n line wide size : ℕ)
    → wide ≤ line
    → (row + suc n) * 2 * line ≤ size
    → row * 2 * line + (0 + wide / 2) * 2 ≤ size + 1
half_row_fits row n line wide size w h = grind arith

whole_rows-IsPlane :
    (frame : FrameData) (row n : ℕ)
    → frame.width ≤ frame.bytes_per_line
    → (row + n) * frame.bytes_per_line ≤ length frame.bytes
    → IsPlane frame.width n
        (λ r c. get_or frame.bytes ((row + r) * frame.bytes_per_line + c) 0)
        (whole_rows frame row n)
unfolding whole_rows
whole_rows-IsPlane frame row zero w h =
    ([], refl, omega arith, λ r c below within. absurd (omega arith))
whole_rows-IsPlane frame row (suc n) w h =
    let at : ℕ → ℕ → ℕ = λ r c. get_or frame.bytes ((row + r) * frame.bytes_per_line + c) 0 in
    joined_rows-IsPlane frame.width n at
      (whole_row frame.bytes (row * frame.bytes_per_line) frame.width)
      (whole_rows frame (suc row) n)
      (IsRow-eq frame.width (λ c. get_or frame.bytes (row * frame.bytes_per_line + c) 0)
        (λ c. at 0 c) (whole_row frame.bytes (row * frame.bytes_per_line) frame.width)
        (λ c. ap (λ k. get_or frame.bytes (k * frame.bytes_per_line + c) 0) (plus_zero row))
        (whole_row-IsRow frame.bytes (row * frame.bytes_per_line) frame.width
          (row_fits row n frame.bytes_per_line frame.width (length frame.bytes) w h)))
      (IsPlane-eq frame.width n
        (λ r c. get_or frame.bytes ((suc row + r) * frame.bytes_per_line + c) 0)
        (λ r c. at (suc r) c) (whole_rows frame (suc row) n)
        (λ r c. ap (λ k. get_or frame.bytes (k * frame.bytes_per_line + c) 0) (suc_plus row r))
        (whole_rows-IsPlane frame (suc row) n w
          (subst (λ k. k * frame.bytes_per_line ≤ length frame.bytes) (sym (suc_plus row n)) h)))

half_rows-IsPlane :
    (frame : FrameData) (row n : ℕ)
    → frame.width ≤ frame.bytes_per_line
    → (row + n) * 2 * frame.bytes_per_line ≤ length frame.bytes
    → IsPlane
        (frame.width / 2)
        n
        (λ r c. get_or frame.bytes ((row + r) * 2 * frame.bytes_per_line + c * 2) 0)
        (half_rows frame row n)
unfolding half_rows
half_rows-IsPlane frame row zero w h =
    ([], refl, omega arith, λ r c below within. absurd (omega arith))
half_rows-IsPlane frame row (suc n) w h =
    let at : ℕ → ℕ → ℕ =
      λ r c. get_or frame.bytes ((row + r) * 2 * frame.bytes_per_line + c * 2) 0 in
    joined_rows-IsPlane (frame.width / 2) n at
      (half_row frame.bytes (row * 2 * frame.bytes_per_line) 0 (frame.width / 2))
      (half_rows frame (suc row) n)
      (IsRow-eq (frame.width / 2)
        (λ c. get_or frame.bytes (row * 2 * frame.bytes_per_line + (0 + c) * 2) 0) (λ c. at 0 c)
        (half_row frame.bytes (row * 2 * frame.bytes_per_line) 0 (frame.width / 2))
        (λ c.
          ap₂ (λ k m. get_or frame.bytes (k * 2 * frame.bytes_per_line + m * 2) 0) (plus_zero row)
            (zero_plus c))
        (half_row-IsRow frame.bytes (row * 2 * frame.bytes_per_line) 0 (frame.width / 2)
          (half_row_fits row n frame.bytes_per_line frame.width (length frame.bytes) w h)))
      (IsPlane-eq (frame.width / 2) n
        (λ r c. get_or frame.bytes ((suc row + r) * 2 * frame.bytes_per_line + c * 2) 0)
        (λ r c. at (suc r) c) (half_rows frame (suc row) n)
        (λ r c.
          ap (λ k. get_or frame.bytes (k * 2 * frame.bytes_per_line + c * 2) 0) (suc_plus row r))
        (half_rows-IsPlane frame (suc row) n w (
          subst (λ k. k * 2 * frame.bytes_per_line ≤ length frame.bytes) (sym (suc_plus row n)) h)))

extract_y-some :
    (frame : FrameData) (full_res : Bool)
    → 0 < length frame.bytes
    → 0 < frame.bytes_per_line
    → extract_y frame full_res
      ≡ (if full_res then whole_rows frame 0 frame.height else half_rows frame 0 (frame.height / 2))
unfolding extract_y
extract_y-some frame full_res h k = ground arith

whole_index : (r c line : ℕ) → (0 + r) * line + c ≡ r * 1 * line + c * 1
whole_index r c line = grind arith

half_index : (r c line : ℕ) → (0 + r) * 2 * line + c * 2 ≡ r * 2 * line + c * 2
half_index r c line = ap (λ k. k * 2 * line + c * 2) (zero_plus r)

half_double : (n : ℕ) → (0 + n / 2) * 2 ≤ n
half_double n = omega arith

half_fits : (n line size : ℕ) → n * line ≤ size → (0 + n / 2) * 2 * line ≤ size
half_fits n line size h = omega (arith, mul-le-mul_right line (half_double n), h)

-- Of a frame that has all of its rows, each at least as long as the frame is wide, the plane is read
-- without leaving the frame's bytes: it has the pixels of the luma plane, or in half resolution
-- every second pixel of every second row, and nothing else.
pub extract_y-IsPlane :
    (frame : FrameData) (full_res : Bool)
    → 0 < length frame.bytes
    → 0 < frame.bytes_per_line
    → frame.width ≤ frame.bytes_per_line
    → frame.height * frame.bytes_per_line ≤ length frame.bytes
    → IsPlane
        (plane_size full_res frame.width)
        (plane_size full_res frame.height)
        (source_byte frame full_res)
        (extract_y frame full_res)
unfolding plane_size
extract_y-IsPlane frame true some_bytes some_line w h =
    subst (λ o. IsPlane frame.width frame.height (source_byte frame true) o)
      (sym (extract_y-some frame true some_bytes some_line))
      (IsPlane-eq frame.width frame.height
        (λ r c. get_or frame.bytes ((0 + r) * frame.bytes_per_line + c) 0) (source_byte frame true)
        (whole_rows frame 0 frame.height)
        (λ r c. ap (λ i. get_or frame.bytes i 0) (whole_index r c frame.bytes_per_line))
        (whole_rows-IsPlane frame 0 frame.height w (
          subst (λ k. k * frame.bytes_per_line ≤ length frame.bytes) (sym (zero_plus frame.height))
            h)))
extract_y-IsPlane frame false some_bytes some_line w h =
    subst (λ o. IsPlane (frame.width / 2) (frame.height / 2) (source_byte frame false) o)
      (sym (extract_y-some frame false some_bytes some_line))
      (IsPlane-eq (frame.width / 2) (frame.height / 2)
        (λ r c. get_or frame.bytes ((0 + r) * 2 * frame.bytes_per_line + c * 2) 0)
        (source_byte frame false) (half_rows frame 0 (frame.height / 2))
        (λ r c. ap (λ i. get_or frame.bytes i 0) (half_index r c frame.bytes_per_line))
        (half_rows-IsPlane frame 0 (frame.height / 2) w
          (half_fits frame.height frame.bytes_per_line (length frame.bytes) h)))
