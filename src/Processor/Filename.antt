-- ===== src/Processor/Filename.antt =====
-- makeFilename of src/frame_processor_helpers.cpp, over bytes: DIR/camC-F.yuv.
use cherupi_v4l.Base.{List, [], if◌then◌else◌, ltb, suc, zero, ℕ, ◌%◌, ◌++◌, ◌+◌, ◌/◌, ◌∷◌}

-- The decimal digits of a number, on fuel; `suc n` rounds are enough for `n`.
unfoldable pub digits_fuel : ℕ → ℕ → List ℕ → List ℕ
digits_fuel zero n acc = acc
digits_fuel (suc f) n acc =
    let rest = digits_fuel f (n / 10) ((48 + n % 10) ∷ acc) in
    if ltb n 10 then (48 + n) ∷ acc else rest

unfoldable pub decimal : ℕ → List ℕ
unfolding digits_fuel
decimal n = digits_fuel (suc n) n []

unfoldable pub make_filename : List ℕ → ℕ → ℕ → List ℕ
unfolding decimal
make_filename dir camera_id frame_id =
    dir
    ++ (b'/' ∷ b'c' ∷ b'a' ∷ b'm' ∷ [])
    ++ decimal camera_id
    ++ (b'-' ∷ [])
    ++ decimal frame_id
    ++ (b'.' ∷ b'y' ∷ b'u' ∷ b'v' ∷ [])
