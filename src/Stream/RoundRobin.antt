-- ===== src/Stream/RoundRobin.antt =====
-- The rounds of StreamManager::streamingLoop (src/stream_manager.cpp) serve the cameras in turn.
use cherupi_v4l.Base.{
  Bool, Bool-cases, List, [], arith, false, inl, inr, length, not, refl, subst, sym, true, ℕ, ◌+◌,
  ◌<◌, ◌||◌, ◌∙◌, ◌∷◌, ◌≡◌,
}
use cherupi_v4l.Stream.Fairness.{
  GoesRound, GoesRound-append, GoesRound-none, search_cameras-GoesRound, search_cameras-order,
}
use cherupi_v4l.Stream.Loop.{
  Look, Loop, Round, changed_by, continue_loop, ends, fetch, keys, may_fetch, no_cameras,
  pass_guards, refresh_order, round, same_keys, searches, streaming_loop, waits,
}
use cherupi_v4l.Stream.Visit.{Pacing}
use native.Mathlib.Nat.{mod-lt}

same_keys_self : (xs : List ℕ) → same_keys xs xs ≡ true
unfolding same_keys
same_keys_self [] = refl
same_keys_self (x ∷ xs) = ground (arith, same_keys_self xs)

module _ {D F T : Type 0} where
  refresh_order-kept :
      (s : Loop D F T)
      → (refresh_order s).camera_order ≡ s.camera_order
      → (refresh_order s).current_index ≡ s.current_index
  unfolding refresh_order
  refresh_order-kept s h = elim (Bool-cases (same_keys (keys s.streaming.streams) s.camera_order)) [
    | inl e ↦ rw e refl
    | inr e ↦
        let same : keys s.streaming.streams ≡ s.camera_order = ground arith in
        let kept : same_keys (keys s.streaming.streams) s.camera_order ≡ true =
          rw same (same_keys_self s.camera_order) in
        cc
  ]

  -- The loop after the round still has the cameras `order`.
  abbrev pub HasOrder : List ℕ → Round D F T → Type 0
  HasOrder order ends = Unit
  HasOrder order (waits q) = q.camera_order ≡ order
  HasOrder order (searches r) = r.loop.camera_order ≡ order

  abbrev pub RoundGoes : List ℕ → ℕ → Round D F T → Type 0
  RoundGoes order i ends = Unit
  RoundGoes order i (waits q) = q.current_index ≡ i
  RoundGoes order i (searches r) = GoesRound order i r.asked r.loop.current_index

  RoundGoes-same :
      (x : Round D F T) (a b : List ℕ) (i : ℕ)
      → HasOrder a x
      → HasOrder b x
      → (a ≡ b → RoundGoes b i x)
      → RoundGoes b i x
  RoundGoes-same ends a b i p q f = tt
  RoundGoes-same (waits s) a b i p q f = f (sym p ∙ q)
  RoundGoes-same (searches r) a b i p q f = f (sym p ∙ q)

  pass_guards-RoundGoes :
      (stopped held_back : Bool) (s : Loop D F T) (next : Round D F T) (order : List ℕ) (i : ℕ)
      → s.current_index ≡ i
      → HasOrder order (pass_guards stopped held_back s next)
      → (HasOrder order next → RoundGoes order i next)
      → RoundGoes order i (pass_guards stopped held_back s next)
  unfolding pass_guards
  pass_guards-RoundGoes true held_back s next order i e k f = tt
  pass_guards-RoundGoes false true s next order i e k f = e
  pass_guards-RoundGoes false false s next order i e k f = f k

  -- The rounds find the same cameras subscribed: the order is not rebuilt.
  abbrev pub KeepsAfter : (Loop D F T → Type 0) → List ℕ → Round D F T → Type 0
  KeepsAfter next order ends = Unit
  KeepsAfter next order (waits q) = (q.camera_order ≡ order) × next q
  KeepsAfter next order (searches r) = (r.loop.camera_order ≡ order) × next r.loop

  pub KeepsAfter-HasOrder :
      (next : Loop D F T → Type 0) (order : List ℕ) (x : Round D F T)
      → KeepsAfter next order x
      → HasOrder order x
  KeepsAfter-HasOrder next order ends k = tt
  KeepsAfter-HasOrder next order (waits q) k = k.0
  KeepsAfter-HasOrder next order (searches r) k = k.0

  continue_loop-GoesRound :
      (Rest : Loop D F T → Type 0) (next : Loop D F T → List ℕ × Loop D F T) (order : List ℕ)
      (i : ℕ) (x : Round D F T) (s : Loop D F T)
      → s.current_index ≡ i
      → i < length order
      → KeepsAfter Rest order x
      → RoundGoes order i x
      → ((q : Loop D F T)
          → q.camera_order ≡ order
          → q.current_index < length order
          → Rest q
          → GoesRound order q.current_index (next q).0 (next q).1.current_index)
      → let r = continue_loop next x s in GoesRound order i r.0 (r.1).current_index
  continue_loop-GoesRound Rest next order i ends s e h k g f =
      subst (λ m. GoesRound order i [] m) (sym e) (GoesRound-none order i h)
  continue_loop-GoesRound Rest next order i (waits q) s e h k g f =
      subst (λ m. GoesRound order m (next q).0 (next q).1.current_index) g
        (f q k.0 (omega arith) k.1)
  continue_loop-GoesRound Rest next order i (searches r) s e h k g f =
      GoesRound-append order i r.asked r.loop.current_index (next r.loop).0
        (next r.loop).1.current_index g
        (f r.loop k.0
          (subst (λ m. m < length order) (sym g.follows)
            (mod-lt (i + length r.asked) (omega arith)))
          k.1)

module _ {D F L T : Type 0} (pace : Pacing D F T) where
  fetch-RoundGoes :
      (l : Look D F L T) (s : Loop D F T)
      → s.current_index < length s.camera_order
      → RoundGoes s.camera_order s.current_index (fetch pace l s)
  unfolding fetch
  fetch-RoundGoes l s h = elim (Bool-cases (no_cameras s)) [
    | inl e ↦ rw e refl
    | inr e ↦ elim (Bool-cases (may_fetch pace l)) [
      | inl f ↦ rw (e, f) (search_cameras-GoesRound pace l.turns (length s.camera_order) 0 s h)
      | inr f ↦ rw (e, f) refl
    ]
  ]

  fetch-order : (l : Look D F L T) (s : Loop D F T) → HasOrder s.camera_order (fetch pace l s)
  unfolding fetch
  fetch-order l s = elim (Bool-cases (no_cameras s)) [
    | inl e ↦ rw e refl
    | inr e ↦ elim (Bool-cases (may_fetch pace l)) [
      | inl f ↦ rw (e, f) (search_cameras-order pace l.turns (length s.camera_order) 0 s)
      | inr f ↦ rw (e, f) refl
    ]
  ]

  fetch_same-RoundGoes :
      (l : Look D F L T) (r : Loop D F T) (order : List ℕ) (i : ℕ)
      → r.camera_order ≡ order
      → r.current_index ≡ i
      → i < length order
      → RoundGoes order i (fetch pace l r)
  fetch_same-RoundGoes l r order i e f h =
      subst (λ o. RoundGoes o i (fetch pace l r)) e
        (subst (λ k. RoundGoes r.camera_order k (fetch pace l r)) f
          (fetch-RoundGoes l r (ground arith)))

  pub round-RoundGoes :
      (l : Look D F L T) (s : Loop D F T)
      → s.current_index < length s.camera_order
      → HasOrder s.camera_order (round pace l s)
      → RoundGoes s.camera_order s.current_index (round pace l s)
  unfolding round changed_by
  round-RoundGoes l s h k =
      let r : Loop D F T = refresh_order (changed_by pace l s) in
      pass_guards-RoundGoes l.should_stop (l.has_backpressure || not l.has_sink)
        (changed_by pace l s) (fetch pace l r) s.camera_order s.current_index refl k
        (λ kept.
          RoundGoes-same (fetch pace l r) r.camera_order s.camera_order s.current_index
            (fetch-order l r) kept
            (λ same.
              fetch_same-RoundGoes l r s.camera_order s.current_index same
                (refresh_order-kept (changed_by pace l s) same) h))

  abbrev pub KeepsOrder : List (Look D F L T) → Loop D F T → Type 0
  KeepsOrder [] s = Unit
  KeepsOrder (l ∷ ls) s = KeepsAfter (λ q. KeepsOrder ls q) s.camera_order (round pace l s)

  -- While the cameras stay the same, the rounds together ask them in turn: the next one asked is
  -- always the one after the camera that was asked last, across waits, frames sent and rounds.
  pub streaming_loop-GoesRound :
      (ls : List (Look D F L T)) (s : Loop D F T)
      → s.current_index < length s.camera_order
      → KeepsOrder ls s
      → let r = streaming_loop pace ls s in
        GoesRound s.camera_order s.current_index r.0 (r.1).current_index
  unfolding streaming_loop
  streaming_loop-GoesRound [] s h k = GoesRound-none s.camera_order s.current_index h
  streaming_loop-GoesRound (l ∷ ls) s h k =
      continue_loop-GoesRound (λ q. KeepsOrder ls q) (λ q. streaming_loop pace ls q) s.camera_order
        s.current_index (round pace l s) s refl h k
        (round-RoundGoes l s h
          (KeepsAfter-HasOrder (λ q. KeepsOrder ls q) s.camera_order (round pace l s) k))
        (λ q e below kept.
          subst
            (λ order.
              GoesRound order q.current_index (streaming_loop pace ls q).0
                (streaming_loop pace ls q).1.current_index)
            e
            (streaming_loop-GoesRound ls q
              (subst (λ order. q.current_index < length order) (sym e) below) kept))
