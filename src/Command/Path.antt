-- ===== src/Command/Path.antt =====
-- roleForPath of src/command_parser.cpp, over the bytes of the path.
use cherupi_v4l.Base.{
  Bool, List, [], arith, false, if◌then◌else◌, inl, inr, length, ltb, refl, true, ℕ, ◌&&◌, ◌++◌,
  ◌==◌, ◌↔◌, ◌∷◌, ◌≡◌, ◌⊎◌,
}
use cherupi_v4l.Types.{ClientRole, commander, observer}

-- "/observer"
abbrev pub observer_path : List ℕ
observer_path = b'/' ∷ b'o' ∷ b'b' ∷ b's' ∷ b'e' ∷ b'r' ∷ b'v' ∷ b'e' ∷ b'r' ∷ []

-- path.substr(0, path.find('?'))
unfoldable pub drop_query : List ℕ → List ℕ
drop_query [] = []
drop_query (c ∷ cs) = if c == b'?' then [] else c ∷ drop_query cs

-- remove_suffix(1) of a path that ends in a slash.
unfoldable pub strip_last_slash : List ℕ → List ℕ
strip_last_slash [] = []
strip_last_slash (c ∷ []) = if c == b'/' then [] else c ∷ []
strip_last_slash (c ∷ d ∷ cs) = c ∷ strip_last_slash (d ∷ cs)

unfoldable pub bytes_eq : List ℕ → List ℕ → Bool
bytes_eq [] [] = true
bytes_eq [] (d ∷ ds) = false
bytes_eq (c ∷ cs) [] = false
bytes_eq (c ∷ cs) (d ∷ ds) = c == d && bytes_eq cs ds

unfoldable pub role_of_path : List ℕ → ClientRole
unfolding strip_last_slash bytes_eq
role_of_path path =
    let trimmed = if ltb 1 (length path) then strip_last_slash path else path in
    if bytes_eq trimmed observer_path then observer else commander

unfoldable pub role_for_path : List ℕ → ClientRole
unfolding drop_query role_of_path
role_for_path path = role_of_path (drop_query path)

bytes_eq→eq : (cs ds : List ℕ) → bytes_eq cs ds ≡ true → cs ≡ ds
unfolding bytes_eq
bytes_eq→eq [] [] h = refl
bytes_eq→eq [] (d ∷ ds) h = cc
bytes_eq→eq (c ∷ cs) [] h = cc
bytes_eq→eq (c ∷ cs) (d ∷ ds) h = ground (arith, bytes_eq→eq cs ds)

strip_last_slash_cases :
    (cs : List ℕ) → (strip_last_slash cs ≡ cs) ⊎ (cs ≡ strip_last_slash cs ++ b'/' ∷ [])
unfolding strip_last_slash
strip_last_slash_cases [] = inl refl
strip_last_slash_cases (c ∷ []) = ground arith
strip_last_slash_cases (c ∷ d ∷ cs) = ground (arith, strip_last_slash_cases (d ∷ cs))

role_of_path-observer :
    (path : List ℕ)
    → role_of_path path ≡ observer
    → (path ≡ observer_path) ⊎ (path ≡ observer_path ++ b'/' ∷ [])
unfolding role_of_path
role_of_path-observer path h = ground (
  arith,
  strip_last_slash_cases path,
  bytes_eq→eq path observer_path,
  bytes_eq→eq (strip_last_slash path) observer_path,
)

-- A connection is an observer exactly when its path, up to the first question mark, is /observer,
-- with or without one slash behind it; every other path is a commander's.
role_for_path-observer :
    (path : List ℕ)
    → (role_for_path path ≡ observer)
      ↔ ((drop_query path ≡ observer_path) ⊎ (drop_query path ≡ observer_path ++ b'/' ∷ []))
unfolding role_for_path
role_for_path-observer path = (role_of_path-observer (drop_query path), back)
  where
    back :
        (drop_query path ≡ observer_path) ⊎ (drop_query path ≡ observer_path ++ b'/' ∷ [])
        → role_of_path (drop_query path) ≡ observer
    back (inl e) = rw e
    back (inr e) = rw e
