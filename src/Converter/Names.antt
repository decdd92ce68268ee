-- ===== src/Converter/Names.antt =====
-- The names that src/frame_processor_helpers.cpp gives the saved frames, read by the converter
-- (src/tools/yuv420_convert.cpp).
use cherupi_v4l.Base.{
  Bool-cases, List, [], ap, append-nil, append_assoc, arith, inl, inr, ltb, some, suc, sym, zero, ℕ,
  ◌%◌, ◌++◌, ◌+◌, ◌/◌, ◌<◌, ◌^◌, ◌∙◌, ◌∷◌, ◌≡◌, ◌≢◌,
}
use cherupi_v4l.Converter.Stem.{
  Lacks, parse_yuv_stem, parse_yuv_stem-parts, split_name, split_name-parts, stem,
}
use cherupi_v4l.Processor.Filename.{decimal, digits_fuel, make_filename}
use cherupi_v4l.Converter.Number.{stoul, stoul-decimal}

Lacks-append : (c : ℕ) (xs ys : List ℕ) → Lacks c xs → Lacks c ys → Lacks c (xs ++ ys)
Lacks-append c [] ys h k = k
Lacks-append c (x ∷ xs) ys h k = (h.0, Lacks-append c xs ys h.1 k)

digits_fuel-Lacks :
    (c f n : ℕ) (acc : List ℕ) → c < 48 → Lacks c acc → Lacks c (digits_fuel f n acc)
unfolding digits_fuel
digits_fuel-Lacks c zero n acc l h = h
digits_fuel-Lacks c (suc f) n acc l h = elim (Bool-cases (ltb n 10)) [
  | inl e ↦ rw e ((λ p. absurd (omega arith)), h)
  | inr e ↦
      rw e (digits_fuel-Lacks c f (n / 10) ((48 + n % 10) ∷ acc) l ((λ p. absurd (omega arith)), h))
]

decimal-Lacks : (c n : ℕ) → c < 48 → Lacks c (decimal n)
unfolding decimal
decimal-Lacks c n l = digits_fuel-Lacks c (suc n) n [] l tt

abbrev pub yuv_stem : ℕ → ℕ → List ℕ
yuv_stem camera_id frame_id = b'c' ∷ b'a' ∷ b'm' ∷ (decimal camera_id ++ b'-' ∷ decimal frame_id)

yuv_stem-Lacks :
    (c camera_id frame_id : ℕ) → c < 48 → c ≢ b'-' → Lacks c (yuv_stem camera_id frame_id)
yuv_stem-Lacks c camera_id frame_id l h =
    let digits =
      Lacks-append c (decimal camera_id) (b'-' ∷ decimal frame_id) (decimal-Lacks c camera_id l)
        ((λ p. h (sym p)), decimal-Lacks c frame_id l) in
    (
      (λ p. absurd (omega arith)),
      ((λ p. absurd (omega arith)), ((λ p. absurd (omega arith)), digits)),
    )

stoul-decimal_self : (n : ℕ) → n < 2 ^ 64 → stoul (decimal n) ≡ some n
stoul-decimal_self n l = ap stoul (sym (append-nil (decimal n))) ∙ stoul-decimal n [] l tt

pub parse_yuv_stem-yuv_stem :
    (camera_id frame_id : ℕ)
    → camera_id < 2 ^ 32
    → frame_id < 2 ^ 32
    → parse_yuv_stem (yuv_stem camera_id frame_id) ≡ some (camera_id, frame_id)
parse_yuv_stem-yuv_stem camera_id frame_id l m =
    parse_yuv_stem-parts (decimal camera_id) (decimal frame_id) camera_id frame_id
      (decimal-Lacks b'-' camera_id (omega arith)) (stoul-decimal_self camera_id (omega arith))
      (stoul-decimal_self frame_id (omega arith))
    ∙ ground arith

pub split_name-path :
    (dir ext : List ℕ) (camera_id frame_id : ℕ)
    → Lacks b'/' ext
    → Lacks b'.' ext
    → split_name (dir ++ b'/' ∷ (yuv_stem camera_id frame_id ++ b'.' ∷ ext))
      ≡ (yuv_stem camera_id frame_id, b'.' ∷ ext)
split_name-path dir ext camera_id frame_id h k =
    split_name-parts dir b'c' (b'a' ∷ b'm' ∷ (decimal camera_id ++ b'-' ∷ decimal frame_id)) ext
      (omega arith)
      (Lacks-append b'/' (yuv_stem camera_id frame_id) (b'.' ∷ ext)
        (yuv_stem-Lacks b'/' camera_id frame_id (omega arith) (omega arith)) (omega arith, h))
      k

make_filename-path :
    (dir : List ℕ) (camera_id frame_id : ℕ)
    → make_filename dir camera_id frame_id
      ≡ dir ++ b'/' ∷ (yuv_stem camera_id frame_id ++ b'.' ∷ b'y' ∷ b'u' ∷ b'v' ∷ [])
unfolding make_filename
make_filename-path dir camera_id frame_id = simp append_assoc

-- The converter reads back the camera and the frame number, both 32 bits wide, from the name under
-- which the processor has saved a frame, in whatever directory.
pub parse_yuv_stem-make_filename :
    (dir : List ℕ) (camera_id frame_id : ℕ)
    → camera_id < 2 ^ 32
    → frame_id < 2 ^ 32
    → parse_yuv_stem (stem (make_filename dir camera_id frame_id)) ≡ some (camera_id, frame_id)
parse_yuv_stem-make_filename dir camera_id frame_id l m =
    ap (λ path. parse_yuv_stem (stem path)) (make_filename-path dir camera_id frame_id)
    ∙ ap (λ parts. parse_yuv_stem parts.0)
        (split_name-path dir (b'y' ∷ b'u' ∷ b'v' ∷ []) camera_id frame_id (omega arith)
          (omega arith))
    ∙ parse_yuv_stem-yuv_stem camera_id frame_id l m
