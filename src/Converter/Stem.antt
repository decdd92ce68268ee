-- ===== src/Converter/Stem.antt =====
-- The names of the files: parseYuvStem and wantsGrayscale of src/tools/yuv420_convert.cpp, with what
-- they use of std::filesystem::path (filename, stem, extension), over bytes.
use cherupi_v4l.Base.{
  Bool, List, Option, [], ap, arith, false, if◌then◌else◌, leb, map, none, refl, some, true, ℕ, ◌%◌,
  ◌&&◌, ◌++◌, ◌+◌, ◌==◌, ◌^◌, ◌∙◌, ◌∷◌, ◌≡◌, ◌≢◌,
}
use cherupi_v4l.Converter.Number.{stoul}
use cherupi_v4l.Command.Path.{bytes_eq}

consed : ℕ → Option (List ℕ × List ℕ) → Option (List ℕ × List ℕ)
consed x none = none
consed x (some (front, back)) = some (x ∷ front, back)

-- Before and after the first `c`.
unfoldable pub split_first : ℕ → List ℕ → Option (List ℕ × List ℕ)
unfolding consed
split_first c [] = none
split_first c (x ∷ xs) = if x == c then some ([], xs) else consed x (split_first c xs)

later_split : Bool → ℕ → List ℕ → Option (List ℕ × List ℕ) → Option (List ℕ × List ℕ)
later_split here x xs (some (front, back)) = some (x ∷ front, back)
later_split true x xs none = some ([], xs)
later_split false x xs none = none

-- Before and after the last `c`.
unfoldable pub split_last : ℕ → List ℕ → Option (List ℕ × List ℕ)
unfolding later_split
split_last c [] = none
split_last c (x ∷ xs) = later_split (x == c) x xs (split_last c xs)

after_slash : List ℕ → Option (List ℕ × List ℕ) → List ℕ
after_slash path none = path
after_slash path (some (dir, base)) = base

unfoldable pub file_name : List ℕ → List ℕ
unfolding after_slash
file_name path = after_slash path (split_last b'/' path)

-- The stem and the extension, which has its dot. A dot in front starts no extension.
at_dot : List ℕ → Option (List ℕ × List ℕ) → List ℕ × List ℕ
at_dot name none = (name, [])
at_dot name (some ([], back)) = (name, [])
at_dot name (some (c ∷ front, back)) =
    if bytes_eq name (b'.' ∷ b'.' ∷ []) then (name, []) else (c ∷ front, b'.' ∷ back)

unfoldable pub split_name : List ℕ → List ℕ × List ℕ
unfolding at_dot
split_name path = at_dot (file_name path) (split_last b'.' (file_name path))

abbrev pub stem : List ℕ → List ℕ
stem path = (split_name path).0

abbrev pub extension : List ℕ → List ℕ
extension path = (split_name path).1

-- Both numbers are cast to uint32_t.
two_numbers : Option ℕ → Option ℕ → Option (ℕ × ℕ)
two_numbers (some a) (some b) = some (a % 2 ^ 32, b % 2 ^ 32)
two_numbers (some a) none = none
two_numbers none b = none

at_dash : Option (List ℕ × List ℕ) → Option (ℕ × ℕ)
unfolding two_numbers
at_dash none = none
at_dash (some (front, back)) = two_numbers (stoul front) (stoul back)

unfoldable pub parse_yuv_stem : List ℕ → Option (ℕ × ℕ)
unfolding at_dash bytes_eq
parse_yuv_stem (c ∷ a ∷ m ∷ rest) =
    if bytes_eq (c ∷ a ∷ m ∷ []) (b'c' ∷ b'a' ∷ b'm' ∷ [])
    then at_dash (split_first b'-' rest)
    else none
parse_yuv_stem short = none

-- std::tolower
to_lower : ℕ → ℕ
to_lower c = if leb b'A' c && leb c b'Z' then c + 32 else c

unfoldable pub wants_grayscale : List ℕ → Bool
unfolding to_lower bytes_eq
wants_grayscale output = bytes_eq (map to_lower (extension output)) (b'.' ∷ b'p' ∷ b'g' ∷ b'm' ∷ [])

-- No `c` in a text.
abbrev pub Lacks : ℕ → List ℕ → Type 0
Lacks c [] = Unit
Lacks c (x ∷ xs) = (x ≢ c) × Lacks c xs

split_first-here :
    (c : ℕ) (front back : List ℕ)
    → Lacks c front
    → split_first c (front ++ c ∷ back) ≡ some (front, back)
unfolding split_first
split_first-here c [] back h = ground arith
split_first-here c (x ∷ xs) back h = ground (arith, split_first-here c xs back)

split_last-none : (c : ℕ) (xs : List ℕ) → Lacks c xs → split_last c xs ≡ none
unfolding split_last
split_last-none c [] h = refl
split_last-none c (x ∷ xs) h =
    let test : (x == c) ≡ false = ground arith in rw (split_last-none c xs h.1, test) refl

split_last-here :
    (c : ℕ) (front back : List ℕ)
    → Lacks c back
    → split_last c (front ++ c ∷ back) ≡ some (front, back)
unfolding split_last
split_last-here c [] back h =
    let test : (c == c) ≡ true = ground arith in rw (split_last-none c back h, test) refl
split_last-here c (x ∷ xs) back h = rw (split_last-here c xs back h) refl

pub parse_yuv_stem-parts :
    (front back : List ℕ) (a b : ℕ)
    → Lacks b'-' front
    → stoul front ≡ some a
    → stoul back ≡ some b
    → parse_yuv_stem (b'c' ∷ b'a' ∷ b'm' ∷ (front ++ b'-' ∷ back)) ≡ some (a % 2 ^ 32, b % 2 ^ 32)
unfolding parse_yuv_stem
parse_yuv_stem-parts front back a b h e f = rw (split_first-here b'-' front back h, e, f) refl

at_dot-here :
    (c : ℕ) (name front ext : List ℕ)
    → bytes_eq name (b'.' ∷ b'.' ∷ []) ≡ false
    → at_dot name (some (c ∷ front, ext)) ≡ (c ∷ front, b'.' ∷ ext)
unfolding at_dot
at_dot-here c name front ext h = rw h refl

pub split_name-parts :
    (dir : List ℕ) (c : ℕ) (front ext : List ℕ)
    → c ≢ b'.'
    → Lacks b'/' ((c ∷ front) ++ b'.' ∷ ext)
    → Lacks b'.' ext
    → split_name (dir ++ b'/' ∷ ((c ∷ front) ++ b'.' ∷ ext)) ≡ (c ∷ front, b'.' ∷ ext)
unfolding bytes_eq
split_name-parts dir c front ext n h k =
    let name : List ℕ = (c ∷ front) ++ b'.' ∷ ext in
    let base : file_name (dir ++ b'/' ∷ name) ≡ name =
      unfold file_name in ap (after_slash (dir ++ b'/' ∷ name)) (split_last-here b'/' dir name h) in
    unfold split_name in
    (ap (λ b. at_dot b (split_last b'.' b)) base
      ∙ ap (at_dot name) (split_last-here b'.' (c ∷ front) ext k)
      ∙ at_dot-here c name front ext (ground arith))
