-- ===== src/Detect/Rows.antt =====
-- What extractYFromYUV420 (src/frame_processor_helpers.cpp) makes of a frame that is complete.
use cherupi_v4l.Base.{
  Bool, List, Option, [], ap, arith, drop, get_elem?, get_elem?-get_or, get_or, get_or-drop,
  get_or-take, if◌then◌else◌, length, length-drop, length-take, none, refl, some, suc, take, zero,
  ℕ, ◌*◌, ◌+◌, ◌<◌, ◌∙◌, ◌∷◌, ◌≡◌, ◌≤◌,
}
use cherupi_v4l.Detect.Luma.{add_byte, half_row, whole_row}
use cherupi_v4l.Types.{FrameData}

-- The pixel of row `row` and column `col` of the plane, in the frame.
abbrev pub source_byte : FrameData → Bool → ℕ → ℕ → ℕ
source_byte frame full_res row col =
    let k : ℕ = if full_res then 1 else 2 in
    get_or frame.bytes (row * k * frame.bytes_per_line + col * k) 0

-- A row `wide` bytes long whose bytes are `f`.
abbrev pub IsRow : ℕ → (ℕ → ℕ) → Option (List ℕ) → Type 0
IsRow wide f o =
    (bs : List ℕ) × (o ≡ some bs) × (length bs ≡ wide) × ((c : ℕ) → c < wide → get_or bs c 0 ≡ f c)

length-slice :
    (src : List ℕ) (at count : ℕ)
    → at + count ≤ length src
    → length (take count (drop at src)) ≡ count
length-slice src at count h = omega (arith, length-take count (drop at src), length-drop at src)

add_byte_at :
    (n : ℕ) (f : ℕ → ℕ) (xs : List ℕ)
    → ((c : ℕ) → c < n → get_or xs c 0 ≡ f (suc c))
    → (c : ℕ) → c < suc n
    → get_or (f 0 ∷ xs) c 0 ≡ f c
add_byte_at n f xs g zero below = refl
add_byte_at n f xs g (suc c) below = g c (omega arith)

next_column : (at col c : ℕ) → at + (suc col + c) * 2 ≡ at + (col + suc c) * 2
next_column at col c = omega arith

pub whole_row-IsRow :
    (src : List ℕ) (at count : ℕ)
    → at + count ≤ length src
    → IsRow count (λ c. get_or src (at + c) 0) (whole_row src at count)
unfolding whole_row
whole_row-IsRow src at count h = (
  take count (drop at src),
  ground arith,
  length-slice src at count h,
  λ c below. get_or-take (drop at src) count c 0 below ∙ get_or-drop src at c 0,
)

add_byte-IsRow :
    (n : ℕ) (f : ℕ → ℕ) (o : Option (List ℕ))
    → IsRow n (λ c. f (suc c)) o
    → IsRow (suc n) f (add_byte (some (f 0)) o)
unfolding add_byte
add_byte-IsRow n f none (bs, e, l, g) = cc
add_byte-IsRow n f (some xs) (bs, e, l, g) =
    let same : xs ≡ bs = cc in
    (
      f 0 ∷ xs,
      refl,
      omega (arith, ap length same),
      λ c below. add_byte_at n f xs (λ k b. ap (λ ys. get_or ys k 0) same ∙ g k b) c below,
    )

pub half_row-IsRow :
    (src : List ℕ) (at col n : ℕ)
    → at + (col + n) * 2 ≤ length src + 1
    → IsRow n (λ c. get_or src (at + (col + c) * 2) 0) (half_row src at col n)
unfolding half_row
half_row-IsRow src at col zero h = ([], refl, refl, λ c below. absurd (omega arith))
half_row-IsRow src at col (suc n) h =
    let here : get_elem? src (at + col * 2) ≡ some (get_or src (at + (col + 0) * 2) 0) =
      get_elem?-get_or src (at + col * 2) 0 (omega arith)
      ∙ ap (λ i. some (get_or src i 0)) (omega arith) in
    let rest = half_row-IsRow src at (suc col) n (omega arith) in
    rw here (
      add_byte-IsRow n (λ c. get_or src (at + (col + c) * 2) 0) (half_row src at (suc col) n)
        (
          rest.0,
          rest.1,
          rest.2,
          λ c below. rest.3 c below ∙ ap (λ i. get_or src i 0) (next_column at col c),
        ))
