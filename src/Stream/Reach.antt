-- ===== src/Stream/Reach.antt =====
-- Rounds of StreamManager::streamingLoop (src/stream_manager.cpp) that nothing holds back come to
-- each camera.
use cherupi_v4l.Base.{
  Bool, Bool-cases, List, [], ap, arith, false, get_or, inl, inr, length, length-append, ltb,
  ltb→lt, not, refl, subst, suc, sym, true, zero, ℕ, ◌%◌, ◌*◌, ◌+◌, ◌-◌, ◌<◌, ◌==◌, ◌||◌, ◌∙◌, ◌∷◌,
  ◌≡◌, ◌≤◌,
}
use cherupi_v4l.Stream.Loop.{
  Look, Loop, Round, Search, advance, changed_by, continue_loop, end_turn, ends, fetch, keys,
  may_fetch, no_cameras, pass_guards, refresh_order, round, same_keys, search_cameras, searches,
  streaming_loop, turn_camera, waits,
}
use cherupi_v4l.Stream.Visit.{Pacing, Visit, visit}
use cherupi_v4l.Stream.Fairness.{GoesRound, search_cameras-order}
use cherupi_v4l.Stream.RoundRobin.{
  HasOrder, KeepsAfter, KeepsAfter-HasOrder, KeepsOrder, RoundGoes, round-RoundGoes,
  streaming_loop-GoesRound,
}
use native.Mathlib.Nat.{add-mul-mod_self_left, mod-eq_of_lt, mod-lt}

same_keys-length : (xs ys : List ℕ) → same_keys xs ys ≡ true → length xs ≡ length ys
unfolding same_keys
same_keys-length [] [] h = refl
same_keys-length [] (y ∷ ys) h = cc
same_keys-length (x ∷ xs) [] h = cc
same_keys-length (x ∷ xs) (y ∷ ys) h = ground (arith, same_keys-length xs ys)

length-keys : {V : Type 0} → (m : List (ℕ × V)) → length (keys m) ≡ length m
unfolding keys
length-keys [] = refl
length-keys ((k, v) ∷ m) = ap suc (length-keys m)

module _ {D F T : Type 0} where
  refresh_order-length :
      (s : Loop D F T)
      → length (refresh_order s).camera_order ≡ length (refresh_order s).streaming.streams
  unfolding refresh_order
  refresh_order-length s = elim (Bool-cases (same_keys (keys s.streaming.streams) s.camera_order)) [
    | inl e ↦ rw e (
        sym (same_keys-length (keys s.streaming.streams) s.camera_order e)
        ∙ length-keys s.streaming.streams)
    | inr e ↦ rw e (length-keys s.streaming.streams)
  ]

  -- The round searches, and asks a camera at least.
  abbrev AsksOne : Round D F T → Type 0
  AsksOne ends = ⊥
  AsksOne (waits q) = ⊥
  AsksOne (searches r) = 0 < length r.asked

  end_turn-asks :
      (stopped found : Bool) (c : ℕ) (s after : Loop D F T) (rest : Search D F T)
      → stopped ≡ false
      → 0 < length (end_turn stopped found c s after rest).asked
  unfolding end_turn
  end_turn-asks true found c s after rest h = cc
  end_turn-asks false true c s after rest h = omega arith
  end_turn-asks false false c s after rest h = omega arith

  pass_guards-AsksOne :
      (stopped held_back : Bool) (s : Loop D F T) (next : Round D F T) (order : List ℕ)
      → stopped ≡ false
      → held_back ≡ false
      → HasOrder order (pass_guards stopped held_back s next)
      → (HasOrder order next → AsksOne next)
      → AsksOne (pass_guards stopped held_back s next)
  unfolding pass_guards
  pass_guards-AsksOne true held_back s next order e f k g = cc
  pass_guards-AsksOne false true s next order e f k g = cc
  pass_guards-AsksOne false false s next order e f k g = g k

  continue_loop-counts :
      (Rest : Loop D F T → Type 0) (next : Loop D F T → List ℕ × Loop D F T) (order : List ℕ)
      (i n : ℕ) (x : Round D F T) (s : Loop D F T)
      → i < length order
      → KeepsAfter Rest order x
      → RoundGoes order i x
      → AsksOne x
      → ((q : Loop D F T)
          → q.camera_order ≡ order
          → q.current_index < length order
          → Rest q
          → n ≤ length (next q).0)
      → suc n ≤ length (continue_loop next x s).0
  continue_loop-counts Rest next order i n ends s h k g a f = absurd a
  continue_loop-counts Rest next order i n (waits q) s h k g a f = absurd a
  continue_loop-counts Rest next order i n (searches r) s h k g a f =
      let below : r.loop.current_index < length order =
        subst (λ m. m < length order) (sym g.follows) (mod-lt (i + length r.asked) (omega arith)) in
      omega (arith, f r.loop k.0 below k.1, length-append r.asked (next r.loop).0)

asked_within :
    (order asked : List ℕ) (i m k : ℕ)
    → GoesRound order i asked m
    → i < length order
    → length order ≤ length asked
    → k < length order
    → (j : ℕ) × (j < length order) × (get_or asked j 0 ≡ get_or order k 0)
asked_within order asked i m k g h enough below = elim (Bool-cases (ltb k i)) [
  | inl e ↦
      let before : k < i = ltb→lt k i e in
      let j : ℕ = k + length order - i in
      let after : i + j ≡ k + length order * 1 = omega arith in
      (
        j,
        omega arith,
        g.asks j (omega arith)
            ∙ ap (λ n. get_or order n 0)
                (ap (λ n. n % length order) after
                  ∙ add-mul-mod_self_left k (length order) 1
                  ∙ mod-eq_of_lt below),
      )
  | inr e ↦
      let j : ℕ = k - i in
      let after : i + j ≡ k = ground arith in
      (
        j,
        omega arith,
        g.asks j (omega arith)
            ∙ ap (λ n. get_or order n 0) (ap (λ n. n % length order) after ∙ mod-eq_of_lt below),
      )
]

module _ {D F L T : Type 0} (pace : Pacing D F T) where
  -- Nothing holds the round back, and the loop is not stopped before its first turn.
  pub record IsOpen (l : Look D F L T) : Type 0 where
    pub runs : l.should_stop ≡ false
    pub flows : l.has_backpressure ≡ false
    pub connected : l.has_sink ≡ true
    pub fetches : may_fetch pace l ≡ true
    pub turns_begin : (l.turns 0).should_stop ≡ false

  abbrev pub AllOpen : List (Look D F L T) → Type 0
  AllOpen [] = Unit
  AllOpen (l ∷ ls) = IsOpen l × AllOpen ls

  search_cameras-asks :
      (turns : ℕ → Visit D F L T) (n : ℕ) (s : Loop D F T)
      → (turns 0).should_stop ≡ false
      → 0 < n
      → 0 < length (search_cameras pace turns n 0 s).asked
  unfolding search_cameras
  search_cameras-asks turns zero s e h = absurd (omega arith)
  search_cameras-asks turns (suc n) s e h =
      let after : Loop D F T = advance (visit pace (turns 0) (turn_camera s) s.streaming).0 s in
      end_turn-asks (turns 0).should_stop (visit pace (turns 0) (turn_camera s) s.streaming).1
        (turn_camera s) s after (search_cameras pace turns n 1 after) e

  fetch-AsksOne :
      (l : Look D F L T) (r : Loop D F T)
      → IsOpen l
      → 0 < length r.camera_order
      → length r.camera_order ≡ length r.streaming.streams
      → AsksOne (fetch pace l r)
  unfolding fetch no_cameras
  fetch-AsksOne l r o h e =
      let some_camera : length r.streaming.streams == 0 ≡ false = ground arith in
      rw (some_camera, o.fetches)
        (search_cameras-asks l.turns (length r.camera_order) r o.turns_begin h)

  fetch-kept :
      (l : Look D F L T) (r : Loop D F T) (order : List ℕ)
      → HasOrder order (fetch pace l r)
      → r.camera_order ≡ order
  unfolding fetch
  fetch-kept l r order k = elim (Bool-cases (no_cameras r)) [
    | inl e ↦ rw e at k
    | inr e ↦ elim (Bool-cases (may_fetch pace l)) [
      | inl f ↦ sym (search_cameras-order pace l.turns (length r.camera_order) 0 r) ∙ rw (e, f) at k
      | inr f ↦ rw (e, f) at k
    ]
  ]

  -- The round whose order is kept has the cameras that it had before.
  round-AsksOne :
      (l : Look D F L T) (s : Loop D F T)
      → IsOpen l
      → 0 < length s.camera_order
      → HasOrder s.camera_order (round pace l s)
      → AsksOne (round pace l s)
  unfolding round
  round-AsksOne l s o h k =
      let r : Loop D F T = refresh_order (changed_by pace l s) in
      pass_guards-AsksOne l.should_stop (l.has_backpressure || not l.has_sink) (changed_by pace l s)
        (fetch pace l r) s.camera_order o.runs (rw (o.flows, o.connected) refl) k
        (λ kept.
          fetch-AsksOne l r o
            (subst (λ order. 0 < length order) (sym (fetch-kept l r s.camera_order kept)) h)
            (refresh_order-length (changed_by pace l s)))

  streaming_loop-counts :
      (ls : List (Look D F L T)) (s : Loop D F T)
      → s.current_index < length s.camera_order
      → KeepsOrder pace ls s
      → AllOpen ls
      → length ls ≤ length (streaming_loop pace ls s).0
  unfolding streaming_loop
  streaming_loop-counts [] s h k o = omega arith
  streaming_loop-counts (l ∷ ls) s h k o =
      let same =
        KeepsAfter-HasOrder (λ q. KeepsOrder pace ls q) s.camera_order (round pace l s) k in
      continue_loop-counts (λ q. KeepsOrder pace ls q) (λ q. streaming_loop pace ls q)
        s.camera_order s.current_index (length ls) (round pace l s) s h k
        (round-RoundGoes pace l s h same) (round-AsksOne l s o.0 (omega arith) same)
        (λ q e below kept.
          streaming_loop-counts ls q (subst (λ order. q.current_index < length order) (sym e) below)
            kept o.1)

  -- While the cameras stay the same, rounds that nothing holds back, as many as there are cameras,
  -- ask every camera for a frame, within the first askings of that number, and always ask next the
  -- camera after the one asked last.
  pub streaming_loop-reaches :
      (ls : List (Look D F L T)) (s : Loop D F T) (k : ℕ)
      → s.current_index < length s.camera_order
      → KeepsOrder pace ls s
      → AllOpen ls
      → length s.camera_order ≤ length ls
      → k < length s.camera_order
      → let r = streaming_loop pace ls s in
        GoesRound s.camera_order s.current_index r.0 (r.1).current_index
        × ((j : ℕ) × (j < length s.camera_order) × (get_or r.0 j 0 ≡ get_or s.camera_order k 0))
  streaming_loop-reaches ls s k h kept all_open enough below =
      let r = streaming_loop pace ls s in
      let g = streaming_loop-GoesRound pace ls s h kept in
      (
        g,
        asked_within s.camera_order r.0 s.current_index r.1.current_index k g h
            (omega (arith, streaming_loop-counts ls s h kept all_open)) below,
      )
