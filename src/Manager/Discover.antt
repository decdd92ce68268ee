-- ===== src/Manager/Discover.antt =====
-- discoverCameras and getCamera of src/camera_manager.cpp. A model name is the list of its bytes.
-- ::tolower in the C locale.
use cherupi_v4l.Base.{
  Bool, Bool-cases, List, Option, [], arith, false, get_elem?, if◌then◌else◌, inl, inr, leb, none,
  refl, some, suc, true, zero, ℕ, ◌&&◌, ◌+◌, ◌==◌, ◌||◌, ◌∷◌, ◌≡◌,
}
use cherupi_v4l.Camera.{Camera}

unfoldable pub to_lower : ℕ → ℕ
to_lower c = if leb b'A' c && leb c b'Z' then c + 32 else c

unfoldable pub lower_all : List ℕ → List ℕ
lower_all [] = []
lower_all (c ∷ cs) = to_lower c ∷ lower_all cs

unfoldable pub is_prefix : List ℕ → List ℕ → Bool
is_prefix [] text = true
is_prefix (p ∷ ps) [] = false
is_prefix (p ∷ ps) (c ∷ cs) = (p == c) && is_prefix ps cs

-- text.find(part) != npos
unfoldable pub contains : List ℕ → List ℕ → Bool
contains part [] = is_prefix part []
contains part (c ∷ cs) = is_prefix part (c ∷ cs) || contains part cs

-- A model that libcamera does not know is skipped.
unfoldable pub is_match : List ℕ → Option (List ℕ) → Bool
is_match sensor none = false
is_match sensor (some model) = contains (lower_all sensor) (lower_all model)

module _ {D : Type 0} where
  -- `fresh id` is a new camera with that id.
  unfoldable pub number_matches :
      (ℕ → Camera D) → List ℕ → List (Option (List ℕ)) → ℕ → List (Camera D)
  number_matches fresh sensor [] id = []
  number_matches fresh sensor (model ∷ models) id =
      let kept = number_matches fresh sensor models (suc id) in
      let passed = number_matches fresh sensor models id in
      if is_match sensor model then fresh id ∷ kept else passed

  -- `up` is whether libcamera's manager starts; the cameras are discovered once.
  unfoldable pub discover_cameras :
      (ℕ → Camera D) → Bool → List ℕ → List (Option (List ℕ)) → List (Camera D) → List (Camera D)
  discover_cameras fresh up sensor models [] =
      if up then number_matches fresh sensor models 0 else []
  discover_cameras fresh up sensor models (c ∷ cs) = c ∷ cs

  -- The id of each camera is its position from `first` on, so that getCamera finds it.
  unfoldable pub NumberedFrom : ℕ → List (Camera D) → Type 0
  NumberedFrom first [] = Unit {0}
  NumberedFrom first (c ∷ cs) = (c.camera_id ≡ first) × NumberedFrom (suc first) cs

  number_matches-NumberedFrom :
      (fresh : ℕ → Camera D) (sensor : List ℕ) (models : List (Option (List ℕ))) (id : ℕ)
      → ((i : ℕ) → (fresh i).camera_id ≡ i)
      → NumberedFrom id (number_matches fresh sensor models id)
  unfolding number_matches NumberedFrom
  number_matches-NumberedFrom fresh sensor [] id h = tt
  number_matches-NumberedFrom fresh sensor (model ∷ models) id h =
      elim (Bool-cases (is_match sensor model)) [
        | inl e ↦ rw e (h id, number_matches-NumberedFrom fresh sensor models (suc id) h)
        | inr e ↦ rw e (number_matches-NumberedFrom fresh sensor models id h)
      ]

  NumberedFrom-get_elem :
      (cs : List (Camera D)) (first i : ℕ) (c : Camera D)
      → NumberedFrom first cs
      → get_elem? cs i ≡ some c
      → c.camera_id ≡ first + i
  unfolding NumberedFrom
  NumberedFrom-get_elem [] first i c v h = cc
  NumberedFrom-get_elem (d ∷ cs) first zero c v h = ground (arith, v.0, h)
  NumberedFrom-get_elem (d ∷ cs) first (suc i) c v h =
      omega (arith, NumberedFrom-get_elem cs (suc first) i c v.1 h)

  discovered_once :
      (fresh : ℕ → Camera D) (up : Bool) (sensor : List ℕ) (models : List (Option (List ℕ)))
      (cs : List (Camera D)) (i : ℕ) (c : Camera D)
      → get_elem? cs i ≡ some c
      → discover_cameras fresh up sensor models cs ≡ cs
  unfolding discover_cameras
  discovered_once fresh up sensor models [] i c h = cc
  discovered_once fresh up sensor models (d ∷ cs) i c h = refl

  discover_cameras-NumberedFrom :
      (fresh : ℕ → Camera D) (up : Bool) (sensor : List ℕ) (models : List (Option (List ℕ)))
      → ((i : ℕ) → (fresh i).camera_id ≡ i)
      → NumberedFrom 0 (discover_cameras fresh up sensor models [])
  unfolding discover_cameras NumberedFrom
  discover_cameras-NumberedFrom fresh true sensor models h =
      number_matches-NumberedFrom fresh sensor models 0 h
  discover_cameras-NumberedFrom fresh false sensor models h = tt

  -- Whatever models libcamera lists, and whichever of them match, the camera that getCamera returns
  -- for an id has this id; and a later discovery changes nothing.
  discover_cameras-ids :
      (fresh : ℕ → Camera D) (sensor other : List ℕ) (models models' : List (Option (List ℕ)))
      (id : ℕ) (up up' : Bool) (c : Camera D)
      → ((i : ℕ) → (fresh i).camera_id ≡ i)
      → let cs = discover_cameras fresh up sensor models [] in
        get_elem? cs id ≡ some c
        → (c.camera_id ≡ id) × (discover_cameras fresh up' other models' cs ≡ cs)
  discover_cameras-ids fresh sensor other models models' id up up' c h e =
      let cs = discover_cameras fresh up sensor models [] in
      (
        omega (
          arith,
          NumberedFrom-get_elem cs 0 id c (discover_cameras-NumberedFrom fresh up sensor models h)
              e,
        ),
        discovered_once fresh up' other models' cs id c e,
      )
