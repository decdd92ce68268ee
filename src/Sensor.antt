-- ===== src/Sensor.antt =====
-- src/sensor_mode.cpp: the bit depth of a raw format and the choice of a mode by its size. A name
-- is the list of its characters' codes.
use mathlib.Core.List.Memᴰ.{Memᴰ, head, tail}
use cherupi_v4l.Base.{
  Bool, Bool-cases, List, Option, [], ap, ap₂, arith, false, if◌then◌else◌, inl, inr, leb, ltb,
  none, not, refl, some, sym, true, ℕ, ◌%◌, ◌&&◌, ◌*◌, ◌++◌, ◌+◌, ◌-◌, ◌<◌, ◌==◌, ◌^◌, ◌||◌, ◌∙◌,
  ◌∷◌, ◌≡◌, ◌≤◌, ◌⊎◌,
}

abbrev pub is_digit : ℕ → Bool
is_digit c = leb 48 c && leb c 57

unfoldable pub skip_to_digit : List ℕ → List ℕ
skip_to_digit [] = []
skip_to_digit (c ∷ cs) = if is_digit c then c ∷ cs else skip_to_digit cs

-- `depth` is an unsigned of 32 bits.
unfoldable pub read_number : List ℕ → ℕ → ℕ
read_number [] depth = depth
read_number (c ∷ cs) depth =
    if is_digit c then read_number cs ((depth * 10 + (c - 48)) % 2 ^ 32) else depth

unfoldable pub bit_depth_of : List ℕ → ℕ
bit_depth_of format_name = read_number (skip_to_digit format_name) 0

pub record RawFormat : Type 0 where
  pub name : List ℕ
  pub sizes : List (ℕ × ℕ)

pub record Selection : Type 0 where
  pub format : List ℕ
  pub bit_depth : ℕ

unfoldable pub has_size : List (ℕ × ℕ) → ℕ → ℕ → Bool
has_size [] width height = false
has_size ((w, h) ∷ sizes) width height =
    ((w == width) && (h == height)) || has_size sizes width height

unfoldable pub improved : Option Selection → RawFormat → ℕ → Option Selection
improved none fmt depth = some (record { format = fmt.name; bit_depth = depth })
improved (some best) fmt depth =
    if ltb best.bit_depth depth
    then some (record { format = fmt.name; bit_depth = depth })
    else some best

unfoldable pub select_from : Option Selection → List RawFormat → ℕ → ℕ → Option Selection
select_from best [] width height = best
select_from best (fmt ∷ formats) width height =
    let depth = bit_depth_of fmt.name in
    let best' =
      if (depth == 0) || not (has_size fmt.sizes width height)
      then best
      else improved best fmt depth in
    select_from best' formats width height

unfoldable pub select_raw_mode : List RawFormat → ℕ → ℕ → Option Selection
select_raw_mode formats width height = select_from none formats width height

abbrev depth_or_zero : Option Selection → ℕ
depth_or_zero none = 0
depth_or_zero (some s) = s.bit_depth

select_from-grows :
    (best : Option Selection) (formats : List RawFormat) (width height : ℕ)
    → depth_or_zero best ≤ depth_or_zero (select_from best formats width height)
unfolding select_from improved
select_from-grows best [] width height = omega arith
select_from-grows none (fmt ∷ formats) width height = ground (
  arith,
  select_from-grows none formats width height,
  select_from-grows (some (record { format = fmt.name; bit_depth = bit_depth_of fmt.name })) formats
      width height,
)
select_from-grows (some best) (fmt ∷ formats) width height = ground (
  arith,
  select_from-grows (some best) formats width height,
  select_from-grows (some (record { format = fmt.name; bit_depth = bit_depth_of fmt.name })) formats
      width height,
)

improved-depth :
    (best : Option Selection) (fmt : RawFormat) (depth : ℕ)
    → depth ≤ depth_or_zero (improved best fmt depth)
unfolding improved
improved-depth none fmt depth = omega arith
improved-depth (some best) fmt depth = ground arith

select_from-best :
    (best : Option Selection) (before after : List RawFormat) (fmt : RawFormat) (width height : ℕ)
    → has_size fmt.sizes width height ≡ true
    → bit_depth_of fmt.name ≤ depth_or_zero (select_from best (before ++ fmt ∷ after) width height)
unfolding select_from
select_from-best best [] after fmt width height h =
    let next : Option Selection =
      if (bit_depth_of fmt.name == 0) || not (has_size fmt.sizes width height)
      then best
      else improved best fmt (bit_depth_of fmt.name) in
    let here : bit_depth_of fmt.name ≤ depth_or_zero next =
      ground (arith, h, improved-depth best fmt (bit_depth_of fmt.name)) in
    omega (arith, here, select_from-grows next after width height)
select_from-best best (g ∷ before) after fmt width height h =
    select_from-best
      (if (bit_depth_of g.name == 0) || not (has_size g.sizes width height)
        then best
        else improved best g (bit_depth_of g.name))
      before after fmt width height h

chosen :
    (o : Option Selection) (depth : ℕ)
    → 0 < depth
    → depth ≤ depth_or_zero o
    → (s : Selection) × (o ≡ some s) × (depth ≤ s.bit_depth)
chosen none depth above h = absurd (omega arith)
chosen (some s) depth above h = (s, refl, h)

has_size-Memᴰ :
    (sizes : List (ℕ × ℕ)) (width height : ℕ)
    → has_size sizes width height ≡ true
    → Memᴰ (width, height) sizes
unfolding has_size
has_size-Memᴰ [] width height h = cc
has_size-Memᴰ ((w, k) ∷ sizes) width height h = elim (Bool-cases ((w == width) && (k == height))) [
  | inl e ↦
      let same_width : width ≡ w = ground arith in
      let same_height : height ≡ k = ground arith in
      head (ap₂ (λ a b. (a, b)) same_width same_height)
  | inr e ↦ tail (has_size-Memᴰ sizes width height (ground arith))
]

Memᴰ-has_size :
    (width height : ℕ) {sizes : List (ℕ × ℕ)}
    → Memᴰ (width, height) sizes
    → has_size sizes width height ≡ true
unfolding has_size
Memᴰ-has_size width height (head e) =
    let same_width = ap (λ (p : ℕ × ℕ). p.0) e in
    let same_height = ap (λ (p : ℕ × ℕ). p.1) e in ground arith
Memᴰ-has_size width height (tail h) = ground (arith, Memᴰ-has_size width height h)

-- The selection is that of a listed format which reaches the size.
abbrev pub IsOf : List RawFormat → ℕ → ℕ → Selection → Type 0
IsOf formats width height s =
    (f : RawFormat) × Memᴰ f formats
    × Memᴰ (width, height) f.sizes
    × (s.format ≡ f.name)
    × (s.bit_depth ≡ bit_depth_of f.name)

improved-cases :
    (best : Option Selection) (fmt : RawFormat) (depth : ℕ)
    → (improved best fmt depth ≡ best)
      ⊎ (improved best fmt depth ≡ some (record { format = fmt.name; bit_depth = depth }))
unfolding improved
improved-cases none fmt depth = inr refl
improved-cases (some best) fmt depth = ground arith

next-cases :
    (best : Option Selection) (fmt : RawFormat) (width height : ℕ)
    → let depth = bit_depth_of fmt.name in
      let next =
        if (depth == 0) || not (has_size fmt.sizes width height)
        then best
        else improved best fmt depth in
      (next ≡ best)
      ⊎ ((has_size fmt.sizes width height ≡ true)
          × (next ≡ some (record { format = fmt.name; bit_depth = depth })))
next-cases best fmt width height = ground (arith, improved-cases best fmt (bit_depth_of fmt.name))

select_from-IsOf :
    (best : Option Selection) (formats : List RawFormat) (width height : ℕ) (s : Selection)
    → select_from best formats width height ≡ some s
    → (best ≡ some s) ⊎ IsOf formats width height s
unfolding select_from
select_from-IsOf best [] width height s h = inl h
select_from-IsOf best (fmt ∷ formats) width height s h =
    let depth = bit_depth_of fmt.name in
    let next =
      if (depth == 0) || not (has_size fmt.sizes width height)
      then best
      else improved best fmt depth in
    elim (select_from-IsOf next formats width height s h) [
      | inr (f, m, reaches, named, deep) ↦ inr (f, tail m, reaches, named, deep)
      | inl e ↦ elim (next-cases best fmt width height) [
        | inl same ↦ inl (sym same ∙ e)
        | inr (reaches, chose) ↦
            let it : record { format = fmt.name; bit_depth = depth } ≡ s = cc in
            inr (
              fmt,
              head refl,
              has_size-Memᴰ fmt.sizes width height reaches,
              sym (ap (λ (x : Selection). x.format) it),
              sym (ap (λ (x : Selection). x.bit_depth) it),
            )
      ]
    ]

-- Where a format with a bit depth has the requested size, a mode is chosen: it is that of a listed
-- format that has the size, and no listed format that has the size is deeper than it.
pub select_raw_mode-best :
    (before after : List RawFormat) (fmt : RawFormat) (width height : ℕ)
    → Memᴰ (width, height) fmt.sizes
    → 0 < bit_depth_of fmt.name
    → (s : Selection) × (select_raw_mode (before ++ fmt ∷ after) width height ≡ some s)
      × IsOf (before ++ fmt ∷ after) width height s
      × (bit_depth_of fmt.name ≤ s.bit_depth)
unfolding select_raw_mode
select_raw_mode-best before after fmt width height h deep =
    let (s, e, k) =
      chosen (select_from none (before ++ fmt ∷ after) width height) (bit_depth_of fmt.name) deep
        (select_from-best none before after fmt width height (Memᴰ-has_size width height h)) in
    elim (select_from-IsOf none (before ++ fmt ∷ after) width height s e) [
      | inl impossible ↦ cc
      | inr from ↦ (s, e, from, k)
    ]
