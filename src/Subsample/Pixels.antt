-- ===== src/Subsample/Pixels.antt =====
-- What subsampleYuv420 (src/frame_subsample.cpp) makes of each pixel of the three planes.
use cherupi_v4l.Base.{
  List, ap, ap₂, arith, get_or, get_or-append_left, get_or-append_right, refl, suc, sym, zero, ℕ,
  ◌%◌, ◌*◌, ◌++◌, ◌+◌, ◌/◌, ◌<◌, ◌∙◌, ◌≡◌,
}
use cherupi_v4l.Subsample.{
  block_sum, decimated_byte, decimated_row, decimated_rows, length-decimated_row, row_sum,
}

-- The sum of `g` over the numbers below `n`.
abbrev pub total : (ℕ → ℕ) → ℕ → ℕ
total g zero = 0
total g (suc n) = total g n + g n

total-front : (g : ℕ → ℕ) (n : ℕ) → total g (suc n) ≡ g 0 + total (λ k. g (suc k)) n
total-front g zero = omega arith
total-front g (suc n) = omega (arith, total-front g n)

total-eq : (g h : ℕ → ℕ) (n : ℕ) → ((k : ℕ) → g k ≡ h k) → total g n ≡ total h n
total-eq g h zero e = refl
total-eq g h (suc n) e = omega (arith, total-eq g h n e, e n)

-- The rounded average of a square of bytes.
abbrev pub average : (ℕ → ℕ → ℕ) → ℕ → ℕ
average px factor =
    (total (λ i. total (λ j. px i j) factor) factor + factor * factor / 2) / (factor * factor) % 256

row_sum-total :
    (src : List ℕ) (offset n : ℕ) → row_sum src offset n ≡ total (λ j. get_or src (offset + j) 0) n
unfolding row_sum
row_sum-total src offset zero = refl
row_sum-total src offset (suc n) =
    let first : get_or src offset 0 ≡ get_or src (offset + 0) 0 =
      ap (λ k. get_or src k 0) (omega arith) in
    let others =
      total-eq (λ j. get_or src (suc offset + j) 0) (λ j. get_or src (offset + suc j) 0) n
        (λ j. ap (λ k. get_or src k 0) (omega arith)) in
    ap₂ (λ a b. a + b) first (row_sum-total src (suc offset) n ∙ others)
    ∙ sym (total-front (λ j. get_or src (offset + j) 0) n)

block_sum-total :
    (src : List ℕ) (stride offset factor n : ℕ)
    → block_sum src stride offset factor n
      ≡ total (λ i. total (λ j. get_or src (offset + i * stride + j) 0) factor) n
unfolding block_sum
block_sum-total src stride offset factor zero = refl
block_sum-total src stride offset factor (suc n) =
    let px : ℕ → ℕ → ℕ = λ i j. get_or src (offset + i * stride + j) 0 in
    let first : row_sum src offset factor ≡ total (px 0) factor =
      row_sum-total src offset factor
      ∙ total-eq (λ j. get_or src (offset + j) 0) (px 0) factor
          (λ j. ap (λ k. get_or src k 0) (omega arith)) in
    let others =
      total-eq (λ i. total (λ j. get_or src (offset + stride + i * stride + j) 0) factor)
        (λ i. total (px (suc i)) factor) n
        (λ i.
          total-eq (λ j. get_or src (offset + stride + i * stride + j) 0) (px (suc i)) factor
            (λ j. ap (λ k. get_or src k 0) (omega arith))) in
    ap₂ (λ a b. a + b) first (block_sum-total src stride (offset + stride) factor n ∙ others)
    ∙ sym (total-front (λ i. total (px i) factor) n)

block_index : (a i s b j : ℕ) → a * s + b + i * s + j ≡ (a + i) * s + (b + j)
block_index a i s b j = grind arith

pub decimated_byte-average :
    (src : List ℕ) (stride factor r c : ℕ)
    → decimated_byte src stride factor r c
      ≡ average (λ i j. get_or src ((r * factor + i) * stride + (c * factor + j)) 0) factor
unfolding decimated_byte
decimated_byte-average src stride factor r c =
    let offset : ℕ = r * factor * stride + c * factor in
    let same =
      block_sum-total src stride offset factor factor
      ∙ total-eq (λ i. total (λ j. get_or src (offset + i * stride + j) 0) factor)
          (λ i. total (λ j. get_or src ((r * factor + i) * stride + (c * factor + j)) 0) factor)
          factor
          (λ i.
            total-eq (λ j. get_or src (offset + i * stride + j) 0)
              (λ j. get_or src ((r * factor + i) * stride + (c * factor + j)) 0) factor
              (λ j. ap (λ k. get_or src k 0) (block_index (r * factor) i stride (c * factor) j))) in
    ap (λ n. (n + factor * factor / 2) / (factor * factor) % 256) same

decimated_row-at :
    (src : List ℕ) (stride factor oy ox n c : ℕ)
    → c < n
    → get_or (decimated_row src stride factor oy ox n) c 0
      ≡ decimated_byte src stride factor oy (ox + c)
unfolding decimated_row
decimated_row-at src stride factor oy ox zero c h = absurd (omega arith)
decimated_row-at src stride factor oy ox (suc n) zero h =
    ap (decimated_byte src stride factor oy) (omega arith)
decimated_row-at src stride factor oy ox (suc n) (suc c) h =
    decimated_row-at src stride factor oy (suc ox) n c (omega arith)
    ∙ ap (decimated_byte src stride factor oy) (omega arith)

pub decimated_rows-at :
    (src : List ℕ) (stride factor width oy n r c : ℕ)
    → r < n
    → c < width
    → get_or (decimated_rows src stride factor width oy n) (r * width + c) 0
      ≡ decimated_byte src stride factor (oy + r) c
unfolding decimated_rows
decimated_rows-at src stride factor width oy zero r c h k = absurd (omega arith)
decimated_rows-at src stride factor width oy (suc n) zero c h k =
    let row = decimated_row src stride factor oy 0 width in
    let rest = decimated_rows src stride factor width (suc oy) n in
    let size = length-decimated_row src stride factor oy 0 width in
    let column : 0 * width + c ≡ c = omega arith in
    ap (λ m. get_or (row ++ rest) m 0) column
    ∙ get_or-append_left row rest c 0 (omega (arith, size, k))
    ∙ decimated_row-at src stride factor oy 0 width c k
    ∙ ap₂ (decimated_byte src stride factor) (omega arith) (omega arith)
decimated_rows-at src stride factor width oy (suc n) (suc r) c h k =
    let row = decimated_row src stride factor oy 0 width in
    let rest = decimated_rows src stride factor width (suc oy) n in
    let size = length-decimated_row src stride factor oy 0 width in
    get_or-append_right row rest (suc r * width + c) 0 (omega (arith, size))
    ∙ ap (λ m. get_or rest m 0) (omega (arith, size))
    ∙ decimated_rows-at src stride factor width (suc oy) n r c (omega arith) k
    ∙ ap (λ m. decimated_byte src stride factor m c) (omega arith)
