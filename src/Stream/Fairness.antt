-- ===== src/Stream/Fairness.antt =====
-- The order in which StreamManager::streamingLoop (src/stream_manager.cpp) asks its cameras.
use cherupi_v4l.Base.{
  Bool, Bool-cases, List, [], ap, arith, false, get_or, get_or-append_left, get_or-append_right,
  inl, inr, length, length-append, ltb, ltb→lt, refl, suc, sym, true, zero, ℕ, ◌%◌, ◌++◌, ◌+◌, ◌-◌,
  ◌<◌, ◌∙◌, ◌∷◌, ◌≡◌, ◌≤◌,
}
use native.Mathlib.Nat.{mod-add-mod, mod-eq_of_lt, add-zero}
use cherupi_v4l.Stream.Loop.{Loop, Search, advance, end_turn, search_cameras, turn_camera}
use cherupi_v4l.Stream.Visit.{Pacing, Visit, visit}

-- From `first` on, `asked` goes round the order camera by camera, and `following` comes next.
pub record GoesRound (order : List ℕ) (first : ℕ) (asked : List ℕ) (following : ℕ) : Type 0 where
  pub asks :
      (j : ℕ) → j < length asked → get_or asked j 0 ≡ get_or order ((first + j) % length order) 0
  pub follows : following ≡ (first + length asked) % length order

pub GoesRound-none : (order : List ℕ) (i : ℕ) → i < length order → GoesRound order i [] i
GoesRound-none order i h = record {
  asks = λ j below. absurd (omega arith);
  follows = rw add-zero (sym (mod-eq_of_lt h));
}

later_index :
    (order : List ℕ) (i : ℕ) (xs : List ℕ) (k j : ℕ)
    → k ≡ (i + length xs) % length order
    → length xs ≤ j
    → (k + (j - length xs)) % length order ≡ (i + j) % length order
later_index order i xs k j e late =
    ap (λ t. (t + (j - length xs)) % length order) e
    ∙ mod-add-mod (i + length xs) (length order) (j - length xs)
    ∙ ap (λ n. n % length order) (omega arith)

pub GoesRound-append :
    (order : List ℕ) (i : ℕ) (xs : List ℕ) (k : ℕ) (ys : List ℕ) (m : ℕ)
    → GoesRound order i xs k
    → GoesRound order k ys m
    → GoesRound order i (xs ++ ys) m
GoesRound-append order i xs k ys m f g = record {
  asks = λ j below. elim (Bool-cases (ltb j (length xs))) [
    | inl e ↦
        get_or-append_left xs ys j 0 (ltb→lt j (length xs) e) ∙ f.asks j (ltb→lt j (length xs) e)
    | inr e ↦
        get_or-append_right xs ys j 0 (ground arith)
        ∙ g.asks (j - length xs) (ground (arith, length-append xs ys))
        ∙ ap (λ n. get_or order n 0) (later_index order i xs k j f.follows (ground arith))
  ];
  follows =
      g.follows
      ∙ ap (λ t. (t + length ys) % length order) f.follows
      ∙ mod-add-mod (i + length xs) (length order) (length ys)
      ∙ ap (λ n. n % length order) (omega (arith, length-append xs ys));
}

GoesRound-one :
    (order : List ℕ) (i : ℕ)
    → i < length order
    → GoesRound order i (get_or order i 0 ∷ []) ((i + 1) % length order)
GoesRound-one order i h = record {
  asks = λ j below.
      let first : j ≡ 0 = omega arith in rw first (rw add-zero (rw (mod-eq_of_lt h) refl));
  follows = refl;
}

pub next_index_below : (i n : ℕ) → i < n → (i + 1) % n < n
next_index_below i n h = grind arith

module _ {D F T : Type 0} where
  end_turn-order :
      (stopped found : Bool) (c : ℕ) (s after : Loop D F T) (rest : Search D F T)
      → after.camera_order ≡ s.camera_order
      → rest.loop.camera_order ≡ s.camera_order
      → (end_turn stopped found c s after rest).loop.camera_order ≡ s.camera_order
  unfolding end_turn
  end_turn-order true found c s after rest e f = refl
  end_turn-order false true c s after rest e f = e
  end_turn-order false false c s after rest e f = f

  end_turn-GoesRound :
      (stopped found : Bool) (s after : Loop D F T) (rest : Search D F T)
      → s.current_index < length s.camera_order
      → after.current_index ≡ (s.current_index + 1) % length s.camera_order
      → GoesRound s.camera_order
          ((s.current_index + 1) % length s.camera_order)
          rest.asked
          rest.loop.current_index
      → let r = end_turn stopped found (turn_camera s) s after rest in
        GoesRound s.camera_order s.current_index r.asked r.loop.current_index
  unfolding end_turn turn_camera
  end_turn-GoesRound true found s after rest h e g = GoesRound-none s.camera_order s.current_index h
  end_turn-GoesRound false true s after rest h e g =
      rw e (GoesRound-one s.camera_order s.current_index h)
  end_turn-GoesRound false false s after rest h e g =
      GoesRound-append s.camera_order s.current_index (turn_camera s ∷ [])
        ((s.current_index + 1) % length s.camera_order) rest.asked rest.loop.current_index
        (GoesRound-one s.camera_order s.current_index h) g

  end_turn-asked :
      (stopped found : Bool) (c : ℕ) (s after : Loop D F T) (n : ℕ) (rest : Search D F T)
      → (length rest.asked ≤ n)
        × (rest.found_frame ≡ false → rest.is_stopped ≡ false → length rest.asked ≡ n)
      → let r = end_turn stopped found c s after rest in
        (length r.asked ≤ suc n)
        × (r.found_frame ≡ false → r.is_stopped ≡ false → length r.asked ≡ suc n)
  unfolding end_turn
  end_turn-asked true found c s after n rest h = (omega arith, λ e f. cc)
  end_turn-asked false true c s after n rest h = (omega arith, λ e f. cc)
  end_turn-asked false false c s after n rest h = (omega arith, λ e f. ap suc (h.1 e f))

module _ {D F L T : Type 0} (pace : Pacing D F T) (turns : ℕ → Visit D F L T) where
  pub search_cameras-order :
      (n turn : ℕ) (s : Loop D F T)
      → (search_cameras pace turns n turn s).loop.camera_order ≡ s.camera_order
  unfolding search_cameras advance
  search_cameras-order zero turn s = refl
  search_cameras-order (suc n) turn s =
      let after : Loop D F T = advance (visit pace (turns turn) (turn_camera s) s.streaming).0 s in
      end_turn-order (turns turn).should_stop
        (visit pace (turns turn) (turn_camera s) s.streaming).1 (turn_camera s) s after
        (search_cameras pace turns n (suc turn) after) refl
        (search_cameras-order n (suc turn) after)

  pub search_cameras-GoesRound :
      (n turn : ℕ) (s : Loop D F T)
      → s.current_index < length s.camera_order
      → let r = search_cameras pace turns n turn s in
        GoesRound s.camera_order s.current_index r.asked r.loop.current_index
  unfolding search_cameras advance
  search_cameras-GoesRound zero turn s h = GoesRound-none s.camera_order s.current_index h
  search_cameras-GoesRound (suc n) turn s h =
      let after : Loop D F T = advance (visit pace (turns turn) (turn_camera s) s.streaming).0 s in
      end_turn-GoesRound (turns turn).should_stop
        (visit pace (turns turn) (turn_camera s) s.streaming).1 s after
        (search_cameras pace turns n (suc turn) after) h refl
        (search_cameras-GoesRound n (suc turn) after
          (next_index_below s.current_index (length s.camera_order) h))

  pub search_cameras-asked :
      (n turn : ℕ) (s : Loop D F T)
      → let r = search_cameras pace turns n turn s in
        (length r.asked ≤ n) × (r.found_frame ≡ false → r.is_stopped ≡ false → length r.asked ≡ n)
  unfolding search_cameras
  search_cameras-asked zero turn s = (omega arith, λ e f. refl)
  search_cameras-asked (suc n) turn s =
      let after : Loop D F T = advance (visit pace (turns turn) (turn_camera s) s.streaming).0 s in
      end_turn-asked (turns turn).should_stop
        (visit pace (turns turn) (turn_camera s) s.streaming).1 (turn_camera s) s after n
        (search_cameras pace turns n (suc turn) after) (search_cameras-asked n (suc turn) after)
