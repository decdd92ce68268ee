-- ===== src/Stream/Wire.antt =====
-- Packed little-endian structures: a structure is the list of its fields, each with its width in
-- bytes. Writing a value of another range keeps its low bytes, as the conversion to the field's
-- unsigned type does.
use native.Mathlib.Nat.{pow-suc}
use cherupi_v4l.Base.{
  All, List, Option, [], ap, append_assoc, arith, length, none, refl, some, subst, suc, zero, ℕ,
  ◌%◌, ◌*◌, ◌++◌, ◌+◌, ◌/◌, ◌<◌, ◌^◌, ◌∙◌, ◌∷◌, ◌≡◌,
}

unfoldable pub le_bytes : ℕ → ℕ → List ℕ
le_bytes zero n = []
le_bytes (suc k) n = n % 256 ∷ le_bytes k (n / 256)

unfoldable pub from_le : List ℕ → ℕ
from_le [] = 0
from_le (b ∷ bs) = b + 256 * from_le bs

unfoldable pub encode_fields : List (ℕ × ℕ) → List ℕ
encode_fields [] = []
encode_fields ((k, n) ∷ fs) = le_bytes k n ++ encode_fields fs

abbrev pub widths : List (ℕ × ℕ) → List ℕ
widths [] = []
widths ((k, n) ∷ fs) = k ∷ widths fs

abbrev pub values : List (ℕ × ℕ) → List ℕ
values [] = []
values ((k, n) ∷ fs) = n ∷ values fs

-- How a client reads a structure: `none` where the bytes run out.
unfoldable pub split_at {ℓ} : {A : Type ℓ} → ℕ → List A → Option (List A × List A)
split_at zero bs = some ([], bs)
split_at (suc k) [] = none
split_at (suc k) (b ∷ bs) = elim (split_at k bs) [
  | none ↦ none
  | some (front, back) ↦ some (b ∷ front, back)
]

unfoldable pub decode_fields : List ℕ → List ℕ → Option (List ℕ × List ℕ)
decode_fields [] bs = some ([], bs)
decode_fields (k ∷ ks) bs = elim (split_at k bs) [
  | none ↦ none
  | some (front, back) ↦ elim (decode_fields ks back) [
    | none ↦ none
    | some (ns, rest) ↦ some (from_le front ∷ ns, rest)
  ]
]

abbrev pub Fits : ℕ × ℕ → Type 0
Fits (k, n) = n < 256 ^ k

pub length-le_bytes : (k n : ℕ) → length (le_bytes k n) ≡ k
unfolding le_bytes
length-le_bytes zero n = refl
length-le_bytes (suc k) n = ap suc (length-le_bytes k (n / 256))

from_le-le_bytes : (k n : ℕ) → n < 256 ^ k → from_le (le_bytes k n) ≡ n
unfolding from_le le_bytes
from_le-le_bytes zero n h = omega arith
from_le-le_bytes (suc k) n h =
    let below : n / 256 < 256 ^ k = omega (arith, rw pow-suc at h) in
    omega (arith, from_le-le_bytes k (n / 256) below)

pub split_at-append {ℓ} :
    {A : Type ℓ} (xs ys : List A) → split_at (length xs) (xs ++ ys) ≡ some (xs, ys)
unfolding split_at
split_at-append [] ys = refl
split_at-append (x ∷ xs) ys = ground (arith, split_at-append xs ys)

-- A client that reads a structure whose fields are in range gets the fields back, and what follows.
decode-encode_fields :
    (fs : List (ℕ × ℕ)) (rest : List ℕ)
    → All Fits fs
    → decode_fields (widths fs) (encode_fields fs ++ rest) ≡ some (values fs, rest)
unfolding decode_fields encode_fields
decode-encode_fields [] rest h = refl
decode-encode_fields ((k, n) ∷ fs) rest h =
    let after : List ℕ = encode_fields fs ++ rest in
    let cut : split_at k (le_bytes k n ++ after) ≡ some (le_bytes k n, after) =
      subst (λ j. split_at j (le_bytes k n ++ after) ≡ some (le_bytes k n, after))
        (length-le_bytes k n) (split_at-append (le_bytes k n) after) in
    let read : split_at k ((le_bytes k n ++ encode_fields fs) ++ rest)
        ≡ some (le_bytes k n, after) =
      ap (split_at k) (append_assoc (le_bytes k n) (encode_fields fs) rest) ∙ cut in
    ground (arith, decode-encode_fields fs rest h.1, from_le-le_bytes k n h.0)
