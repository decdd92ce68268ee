-- ===== src/Processor/OutputDir.antt =====
-- normalizeBaseDir of src/frame_processor_helpers.cpp and createOutputDirectory of
-- src/frame_processor.cpp, over bytes. std::filesystem and the clock are arguments.
use cherupi_v4l.Base.{
  Bool, List, Option, [], arith, false, if◌then◌else◌, none, refl, some, true, ℕ, ◌==◌, ◌||◌, ◌∷◌,
  ◌≡◌,
}

unfoldable pub is_blank : ℕ → Bool
is_blank c = c == b' ' || c == 9 || c == 10 || c == 13

-- erase(0, find_first_not_of(" \t\n\r"))
unfoldable pub trim_front : List ℕ → List ℕ
trim_front [] = []
trim_front (c ∷ cs) = if is_blank c then trim_front cs else c ∷ cs

-- erase(find_last_not_of(" \t\n\r") + 1)
unfoldable pub trim_back : List ℕ → List ℕ
trim_back [] = []
trim_back (c ∷ cs) = elim (trim_back cs) [
  | [] ↦ if is_blank c then [] else c ∷ []
  | d ∷ ds ↦ c ∷ d ∷ ds
]

abbrev dot : List ℕ
dot = b'.' ∷ []

unfoldable pub or_dot : List ℕ → List ℕ
or_dot [] = dot
or_dot (c ∷ cs) = c ∷ cs

unfoldable pub normalize_base_dir : List ℕ → List ℕ
unfolding is_blank trim_front trim_back or_dot
normalize_base_dir base = or_dot (trim_back (trim_front base))

-- What the code asks of std::filesystem and of the clock.
pub record FileSystem : Type 0 where
  -- exists(path); `none` where it throws.
  pub exists : List ℕ → Option Bool
  pub is_directory : List ℕ → Bool
  -- create_directory(path); `none` where it throws.
  pub create_directory : List ℕ → Option Bool
  -- makeTimestampedDir(path, now)
  pub timestamped : List ℕ → List ℕ

unfoldable pub is_nil {ℓ} : {A : Type ℓ} → List A → Bool
is_nil [] = true
is_nil (a ∷ rest) = false

-- The directory that will be used, or `none` where the function returns false.
unfoldable pub create_in : FileSystem → List ℕ → Option (List ℕ)
create_in fs dir = elim (fs.exists dir) [
  | none ↦ none
  | some true ↦ if fs.is_directory dir then some dir else none
  | some false ↦ elim (fs.create_directory dir) [
    | none ↦ none
    | some made ↦ if made then some dir else none
  ]
]

unfoldable pub create_output_directory : FileSystem → List ℕ → Bool → Option (List ℕ)
unfolding normalize_base_dir is_nil create_in
create_output_directory fs output_dir prepend_timestamp =
    if is_nil (trim_front output_dir)
    then some (normalize_base_dir output_dir)
    else create_in fs (
        if prepend_timestamp
        then fs.timestamped (normalize_base_dir output_dir)
        else normalize_base_dir output_dir)

trim_front-trimmed :
    (cs : List ℕ) (c : ℕ) (ds : List ℕ) → trim_front cs ≡ c ∷ ds → is_blank c ≡ false
unfolding trim_front
trim_front-trimmed [] c ds h = cc
trim_front-trimmed (d ∷ cs) c ds h = ground (arith, trim_front-trimmed cs c ds)

trim_back-head :
    (c : ℕ) (cs : List ℕ) → is_blank c ≡ false → (ds : List ℕ) × (trim_back (c ∷ cs) ≡ c ∷ ds)
unfolding trim_back
trim_back-head c cs h =
    elim (trim_back cs)
      as (λ r.
        (ds : List ℕ) × (elim r [ [] ↦ if is_blank c then [] else c ∷ [] | d ∷ ds ↦ c ∷ d ∷ ds ]
          ≡ c ∷ ds)) [ [] ↦ ([], rw h) | d ∷ ds ↦ (d ∷ ds, refl) ]
