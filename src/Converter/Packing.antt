-- ===== src/Converter/Packing.antt =====
-- The packing loops of decodeYuvFrame (src/tools/yuv420_convert.cpp).
use cherupi_v4l.Base.{
  List, [], ap, append_assoc, arith, drop, leb, length, length-append, length-replicate,
  length-take, none, refl, replicate, some, suc, sym, take, true, zero, ℕ, ◌*◌, ◌++◌, ◌+◌, ◌-◌, ◌/◌,
  ◌∙◌, ◌∷◌, ◌≡◌, ◌≤◌,
}
use cherupi_v4l.Converter.Decode.{
  Config, copy_bytes, copy_rows, expected_data, i420_size, pack_i420, u_size, y_size,
}
use native.Mathlib.Nat.{mul-le-mul}

suc_add : (n k : ℕ) → suc n + k ≡ suc (n + k)
suc_add n k = omega arith

zero_sub : (k : ℕ) → 0 ≡ 0 - k
zero_sub k = omega arith

sub_zero : (k : ℕ) → k ≡ k - 0
sub_zero k = omega arith

zero_add : (k : ℕ) → 0 + k ≡ k
zero_add k = omega arith

mul_comm : (a b : ℕ) → a * b ≡ b * a
mul_comm a b = omega arith

-- The buffer after the first `n` bytes of the source, the rest still zero.
abbrev filled : ℕ → ℕ → List ℕ → List ℕ
filled size n src = take n src ++ replicate (size - n) 0

take-nil : (n : ℕ) → take {A = ℕ} n [] ≡ []
take-nil zero = refl
take-nil (suc n) = refl

take-take_append : (n m : ℕ) (xs : List ℕ) → take n xs ++ take m (drop n xs) ≡ take (n + m) xs
take-take_append zero m xs = ap (λ k. take k xs) (omega arith)
take-take_append (suc n) m [] = take-nil m ∙ sym (take-nil (suc n + m))
take-take_append (suc n) m (x ∷ xs) =
    ap (◌∷◌ x) (take-take_append n m xs) ∙ ap (λ k. take k (x ∷ xs)) (sym (suc_add n m))

take-front : (xs ys : List ℕ) → take (length xs) (xs ++ ys) ≡ xs
take-front [] ys = refl
take-front (x ∷ xs) ys = ap (◌∷◌ x) (take-front xs ys)

drop-front : (xs ys : List ℕ) (k : ℕ) → drop (length xs + k) (xs ++ ys) ≡ drop k ys
drop-front [] ys k = ap (λ n. drop n ys) (omega arith)
drop-front (x ∷ xs) ys k =
    ap (λ n. drop n (x ∷ (xs ++ ys))) (suc_add (length xs) k) ∙ drop-front xs ys k

drop-replicate : (k n : ℕ) → drop k (replicate {A = ℕ} n 0) ≡ replicate (n - k) 0
drop-replicate zero n = ap (λ m. replicate m 0) (omega arith)
drop-replicate (suc k) zero = ap (λ m. replicate m 0) (zero_sub (suc k))
drop-replicate (suc k) (suc n) = drop-replicate k n ∙ ap (λ m. replicate m 0) (omega arith)

length-filled :
    (size n : ℕ) (src : List ℕ)
    → n ≤ length src
    → length src ≤ size
    → length (filled size n src) ≡ size
length-filled size n src h k = omega (
  arith,
  length-append (take n src) (replicate (size - n) 0),
  length-take n src,
  length-replicate {A = ℕ} (size - n) 0,
)

filled-step :
    (at count size : ℕ) (src : List ℕ)
    → at + count ≤ length src
    → take at (filled size at src)
        ++ (take count (drop at src) ++ drop (at + count) (filled size at src))
      ≡ filled size (at + count) src
filled-step at count size src h =
    let front : List ℕ = take at src in
    let here : length front ≡ at = omega (arith, length-take at src) in
    let kept : take at (filled size at src) ≡ front =
      ap (λ n. take n (filled size at src)) (sym here)
      ∙ take-front front (replicate (size - at) 0) in
    let rest : drop (at + count) (filled size at src) ≡ replicate (size - (at + count)) 0 =
      ap (λ n. drop (n + count) (filled size at src)) (sym here)
      ∙ drop-front front (replicate (size - at) 0) count
      ∙ drop-replicate count (size - at)
      ∙ ap (λ n. replicate n 0) (omega arith) in
    ap (λ t. t ++ (take count (drop at src) ++ drop (at + count) (filled size at src))) kept
    ∙ ap (λ t. front ++ (take count (drop at src) ++ t)) rest
    ∙ sym (append_assoc front (take count (drop at src)) (replicate (size - (at + count)) 0))
    ∙ ap (λ t. t ++ replicate (size - (at + count)) 0) (take-take_append at count src)

copy_bytes-filled :
    (at count size : ℕ) (src : List ℕ)
    → at + count ≤ length src
    → length src ≤ size
    → copy_bytes at count src (filled size at src) ≡ some (filled size (at + count) src)
unfolding copy_bytes
copy_bytes-filled at count size src h k =
    let reads : leb (at + count) (length src) ≡ true = ground arith in
    let writes : leb (at + count) (length (filled size at src)) ≡ true =
      ground (arith, length-filled size at src) in
    ground (arith, filled-step at count size src)

copy_rows-filled :
    (count wide at size : ℕ) (src : List ℕ)
    → at + count * wide ≤ length src
    → length src ≤ size
    → copy_rows count wide at src (filled size at src) ≡ some (filled size (at + count * wide) src)
unfolding copy_rows
copy_rows-filled zero wide at size src h k = ap (λ n. some (filled size n src)) (omega arith)
copy_rows-filled (suc count) wide at size src h k =
    ap (λ o. elim o [ none ↦ none | some dst ↦ copy_rows count wide (at + wide) src dst ])
      (copy_bytes-filled at wide size src (omega arith) k)
    ∙ copy_rows-filled count wide (at + wide) size src (omega arith) k
    ∙ ap (λ n. some (filled size n src)) (omega arith)

quarters : (a b s h : ℕ) → 2 * a ≤ s → 2 * b ≤ h → 4 * (a * b) ≤ s * h
quarters a b s h p q = omega (arith, mul-le-mul p q)

half_le : (n : ℕ) → 2 * (n / 2) ≤ n
half_le n = omega arith

-- The two chroma planes fit the buffer behind the luma plane, odd sizes included.
expected_data-fits : (cfg : Config) → expected_data cfg ≤ i420_size cfg
unfolding expected_data i420_size y_size u_size
expected_data-fits cfg = omega (
  arith,
  quarters (cfg.stride / 2) (cfg.height / 2) cfg.stride cfg.height (half_le cfg.stride)
      (half_le cfg.height),
)

chroma_rows : (cfg : Config) → cfg.height / 2 * (cfg.stride / 2) ≡ u_size cfg
unfolding u_size
chroma_rows cfg = mul_comm (cfg.height / 2) (cfg.stride / 2)

luma_rows : (cfg : Config) → cfg.height * cfg.stride ≡ y_size cfg
unfolding y_size
luma_rows cfg = mul_comm cfg.height cfg.stride

expected_parts : (cfg : Config) → expected_data cfg ≡ y_size cfg + u_size cfg + u_size cfg
unfolding expected_data
expected_parts cfg = refl

take_all : (xs : List ℕ) → take (length xs) xs ≡ xs
take_all [] = refl
take_all (x ∷ xs) = ap (◌∷◌ x) (take_all xs)

-- The rows of the three planes are packed without leaving either buffer: the result is the bytes
-- of the frame as they are, and zeros up to the size of the buffer.
pub pack_i420-eq :
    (cfg : Config) (yuv : List ℕ)
    → length yuv ≡ expected_data cfg
    → pack_i420 cfg yuv ≡ some (yuv ++ replicate (i420_size cfg - length yuv) 0)
unfolding pack_i420
pack_i420-eq cfg yuv h =
    let size : ℕ = i420_size cfg in
    let wide : ℕ = cfg.stride / 2 in
    let y : ℕ = y_size cfg in
    let v : ℕ = y + cfg.height / 2 * wide in
    let fits : length yuv ≤ size = omega (arith, expected_data-fits cfg) in
    let zeros : replicate size 0 ≡ filled size 0 yuv = ap (λ n. replicate n 0) (sub_zero size) in
    let luma : copy_rows cfg.height cfg.stride 0 yuv (replicate size 0) ≡ some (filled size y yuv) =
      ap (copy_rows cfg.height cfg.stride 0 yuv) zeros
      ∙ copy_rows-filled cfg.height cfg.stride 0 size yuv
          (omega (arith, luma_rows cfg, expected_parts cfg)) fits
      ∙ ap (λ n. some (filled size n yuv)) (zero_add (cfg.height * cfg.stride) ∙ luma_rows cfg) in
    let chroma =
      copy_rows-filled (cfg.height / 2) wide y size yuv
        (omega (arith, chroma_rows cfg, expected_parts cfg)) fits in
    let rest =
      copy_rows-filled (cfg.height / 2) wide v size yuv
        (omega (arith, chroma_rows cfg, expected_parts cfg)) fits in
    let total : v + cfg.height / 2 * wide ≡ length yuv =
      omega (arith, chroma_rows cfg, expected_parts cfg) in
    ap
      (λ o. elim o [
        | none ↦ none
        | some with_y ↦ elim (copy_rows (cfg.height / 2) wide y yuv with_y) [
          | none ↦ none
          | some with_u ↦ copy_rows (cfg.height / 2) wide v yuv with_u
        ]
      ])
      luma
    ∙ ap (λ o. elim o [ none ↦ none | some with_u ↦ copy_rows (cfg.height / 2) wide v yuv with_u ])
        chroma
    ∙ rest
    ∙ ap (λ n. some (filled size n yuv)) total
    ∙ ap (λ t. some (t ++ replicate (size - length yuv) 0)) (take_all yuv)
