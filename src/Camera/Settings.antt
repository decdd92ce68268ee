-- ===== src/Camera/Settings.antt =====
-- The settings of a camera (setLensPosition, setExposureTime, setFrameDuration and the end of
-- onRequestComplete of src/camera.cpp). All three follow one pattern: a call stores the value and
-- bumps the generation; the completion thread attaches the controls when the generations differ.
use cherupi_v4l.Base.{
  Bool, List, [], arith, if◌then◌else◌, length, none, refl, some, ◌%◌, ◌+◌, ◌<◌, ◌==◌, ◌^◌, ◌∷◌,
  ◌≡◌,
}
use cherupi_v4l.Camera.{Camera, Setting}
use cherupi_v4l.Base.Int.{is_negative, max_zero, negsuc, pos, ℤ}

module _ {V : Type 0} where
  unfoldable pub set_value : V → Setting V → Setting V
  set_value v s = record s { wanted = v; generation = (s.generation + 1) % 2 ^ 64 }

  -- At start() the controls always go along.
  unfoldable pub hand_over : Setting V → Setting V
  hand_over s = record s { in_force = s.wanted; applied_generation = s.generation }

  -- At the end of onRequestComplete: only a value that is not applied yet is attached.
  unfoldable pub attach : Setting V → Setting V
  attach s = if s.generation == s.applied_generation then s else hand_over s

  unfoldable pub set_values : List V → Setting V → Setting V
  set_values [] s = s
  set_values (v ∷ vs) s = set_values vs (set_value v s)

  abbrev pub last_or : V → List V → V
  last_or d [] = d
  last_or d (v ∷ vs) = last_or v vs

  -- The value in force is the wanted one, and both counters are 64 bits wide.
  pub record IsSettled (s : Setting V) : Type 0 where
    pub same_generation : s.generation ≡ s.applied_generation
    pub same_value : s.in_force ≡ s.wanted
    pub fits : s.generation < 2 ^ 64

  set_values-generation :
      (vs : List V) (s : Setting V)
      → s.generation < 2 ^ 64
      → ((set_values vs s).generation ≡ (s.generation + length vs) % 2 ^ 64)
        × ((set_values vs s).applied_generation ≡ s.applied_generation)
        × ((set_values vs s).in_force ≡ s.in_force)
        × ((set_values vs s).wanted ≡ last_or s.wanted vs)
  unfolding set_values set_value
  set_values-generation [] s h = (omega arith, refl, refl, refl)
  set_values-generation (v ∷ vs) s h =
      let (g, a, f, w) = set_values-generation vs (set_value v s) (omega arith) in
      (omega (arith, g), a, f, w)

  -- After any calls since the last settled moment, fewer than 2^64 of them, the next completed
  -- request puts the value of the last call in force, and the camera is settled again.
  attach-IsSettled :
      (vs : List V) (s : Setting V)
      → IsSettled s
      → length vs < 2 ^ 64
      → IsSettled (attach (set_values vs s))
        × ((attach (set_values vs s)).in_force ≡ last_or s.wanted vs)
  unfolding attach hand_over
  attach-IsSettled [] s v h =
      ground (arith, set_values-generation [] s v.fits, v.same_generation, v.same_value, v.fits)
  attach-IsSettled (x ∷ vs) s v h =
      ground (arith, set_values-generation (x ∷ vs) s v.fits, v.same_generation, v.fits)

module _ {D : Type 0} where
  -- `is_negative` is the test `< 0.0f`.
  unfoldable pub set_lens_position : (D → Bool) → D → Camera D → Camera D
  set_lens_position is_negative v c = record c {
    lens = set_value (if is_negative v then none else some v) c.lens;
  }

  unfoldable pub set_exposure_time : ℤ → Camera D → Camera D
  set_exposure_time (negsuc n) c = record c { exposure = set_value none c.exposure }
  set_exposure_time (pos n) c = record c { exposure = set_value (some n) c.exposure }

  unfoldable pub set_frame_duration : ℤ → Camera D → Camera D
  set_frame_duration z c = record c { duration = set_value (max_zero z) c.duration }
