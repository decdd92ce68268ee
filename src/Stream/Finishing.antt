-- ===== src/Stream/Finishing.antt =====
-- The end of a transfer: every wait is bounded, the transfer is released, and an undisturbed frame
-- arrives.
use cherupi_v4l.Base.{
  Bool, List, [], ap, append-nil, arith, false, none, not, refl, some, suc, sym, true, zero, ℕ,
  ◌&&◌, ◌++◌, ◌+◌, ◌∙◌, ◌∷◌, ◌≡◌, ◌≤◌,
}
use cherupi_v4l.Stream.Send.{
  Environment, Guard, Observed, Sent, Streamer, carry_on, chunk_guard, exhausted, go, guard,
  poll_buffer, quit, send_chunked_frame, send_chunks, send_guard, soft_buffer_limit,
  wait_for_backpressure, wait_for_buffer_drain, wait_for_priority_clear, yields, ◌⟫◌,
}
use cherupi_v4l.Stream.Delivery.{send_chunked_frame-prefix}

abbrev ends : Guard → Bool
ends exhausted = false
ends (go t) = true
ends quit = true
ends yields = true

-- The clock passes the deadline at tick `n`.
abbrev pub HasDeadline : Environment → ℕ → Type 0
HasDeadline env n = (t : ℕ) → n ≤ t → (env t).is_past_deadline ≡ true

abbrev pub IsCalm : Observed → Type 0
IsCalm o =
    (o.should_stop ≡ false)
    × (o.is_streaming ≡ true)
    × (o.has_backpressure ≡ false)
    × (o.has_sink ≡ true)
    × (o.buffered_amount ≤ soft_buffer_limit)
    × (o.is_priority_clear ≡ true)
    × (o.accepts ≡ true)

ends-guard : (b : Bool) (t : ℕ) → ends (guard b t) ≡ true
ends-guard true t = refl
ends-guard false t = refl

ends-then :
    (g : Guard) (f : ℕ → Guard)
    → ends g ≡ true
    → ((u : ℕ) → ends (f u) ≡ true)
    → ends (g ⟫ f) ≡ true
ends-then (go t) f h k = k t
ends-then quit f h k = refl
ends-then yields f h k = refl
ends-then exhausted f h k = h

module _ (env : Environment) where
  wait_for_backpressure-ends : (n t : ℕ) → ends (wait_for_backpressure env n t) ≡ true
  unfolding wait_for_backpressure
  wait_for_backpressure-ends zero t = ends-guard (not (env t).has_backpressure) (suc t)
  wait_for_backpressure-ends (suc n) t = ground (arith, wait_for_backpressure-ends n (suc (suc t)))

  poll_buffer-ends : (n t : ℕ) → ends (poll_buffer env n t) ≡ true
  unfolding poll_buffer
  poll_buffer-ends zero t = refl
  poll_buffer-ends (suc n) t = ground (arith, poll_buffer-ends n (suc (suc t)))

  wait_for_buffer_drain-ends : (t : ℕ) → ends (wait_for_buffer_drain env t) ≡ true
  unfolding wait_for_buffer_drain
  wait_for_buffer_drain-ends t = ground (arith, poll_buffer-ends 400 (suc t))

  wait_for_priority_clear-ends :
      (n fuel t : ℕ)
      → HasDeadline env n
      → n ≤ fuel + t
      → ends (wait_for_priority_clear env (suc fuel) t) ≡ true
  unfolding wait_for_priority_clear
  wait_for_priority_clear-ends n zero t deadline h = ground (arith, deadline t (omega arith))
  wait_for_priority_clear-ends n (suc fuel) t deadline h =
      ground (arith, wait_for_priority_clear-ends n fuel (suc t) deadline (omega arith))

  chunk_guard-ends :
      (n fuel t : ℕ) → HasDeadline env n → n ≤ fuel → ends (chunk_guard env (suc fuel) t) ≡ true
  unfolding chunk_guard send_guard
  chunk_guard-ends n fuel t deadline h =
      ends-then _ _
        (ends-then _ _
          (ends-then _ _
            (ends-then _ _
              (ends-then _ _ (ends-guard (not (env t).should_stop) (suc t))
                (λ u. ends-guard (env u).is_streaming (suc u)))
              (λ u. wait_for_backpressure-ends 50 u))
            wait_for_buffer_drain-ends)
          (λ u. wait_for_priority_clear-ends n fuel u deadline (omega arith)))
        (λ u. ends-guard ((env u).has_sink && (env u).accepts) (suc u))

abbrev Goes : Guard → Type 0
Goes g = (u : ℕ) × (g ≡ go u)

Goes-then : (g : Guard) (f : ℕ → Guard) → Goes g → ((u : ℕ) → Goes (f u)) → Goes (g ⟫ f)
Goes-then g f (u, e) k = let (v, e') = k u in (v, ap (λ m. m ⟫ f) e ∙ e')

Goes-guard : (b : Bool) (t : ℕ) → b ≡ true → Goes (guard b t)
Goes-guard b t h = (t, ap (λ x. guard x t) h)

module _ (env : Environment) (calm : (u : ℕ) → IsCalm (env u)) where
  wait_for_backpressure-calm : (n t : ℕ) → Goes (wait_for_backpressure env (suc n) t)
  unfolding wait_for_backpressure
  wait_for_backpressure-calm n t = (suc (suc t), ground (arith, calm t, calm (suc t)))

  wait_for_buffer_drain-calm : (t : ℕ) → Goes (wait_for_buffer_drain env t)
  unfolding wait_for_buffer_drain
  wait_for_buffer_drain-calm t = (suc t, ground (arith, calm t))

  wait_for_priority_clear-calm : (fuel t : ℕ) → Goes (wait_for_priority_clear env (suc fuel) t)
  unfolding wait_for_priority_clear
  wait_for_priority_clear-calm fuel t = (suc t, ground (arith, calm t))

  send_guard-calm : (t : ℕ) → Goes (send_guard env t)
  unfolding send_guard
  send_guard-calm t = (suc t, ground (arith, calm t))

  chunk_guard-calm : (fuel t : ℕ) → Goes (chunk_guard env (suc fuel) t)
  unfolding chunk_guard
  chunk_guard-calm fuel t =
      Goes-then _ _
        (Goes-then _ _
          (Goes-then _ _
            (Goes-then _ _
              (Goes-then _ _ (Goes-guard (not (env t).should_stop) (suc t) (ground (arith, calm t)))
                (λ u. Goes-guard (env u).is_streaming (suc u) (ground (arith, calm u))))
              (λ u. wait_for_backpressure-calm 49 u))
            wait_for_buffer_drain-calm)
          (wait_for_priority_clear-calm fuel))
        send_guard-calm

abbrev pub IsFinished : {R : Type 0} → Sent R → Type 0
IsFinished r = (a : Bool) × (r.success ≡ some a) × (r.streamer.current_transfer ≡ none)

abbrev Succeeds : {R : Type 0} → Sent R → Type 0
Succeeds r = r.success ≡ some true

module _ {R : Type 0} (record_chunk_sent : R → R) (env : Environment) where
  carry_on-IsFinished :
      (g : Guard) (next : ℕ → Sent R) (s : Streamer R)
      → ends g ≡ true
      → ((u : ℕ) → IsFinished (next u))
      → IsFinished (carry_on record_chunk_sent env g next s)
  carry_on-IsFinished (go t) next s h k = k t
  carry_on-IsFinished quit next s h k = (false, refl, refl)
  carry_on-IsFinished yields next s h k = (false, refl, refl)
  carry_on-IsFinished exhausted next s h k = absurd (ground (arith, h))

  send_chunks-IsFinished :
      (n fuel : ℕ) (messages : List (List ℕ)) (index t : ℕ) (s : Streamer R)
      → HasDeadline env n
      → n ≤ fuel
      → IsFinished (send_chunks record_chunk_sent env (suc fuel) messages index t s)
  unfolding send_chunks
  send_chunks-IsFinished n fuel [] index t s deadline h = (true, refl, refl)
  send_chunks-IsFinished n fuel (message ∷ messages) index t s deadline h =
      carry_on-IsFinished (chunk_guard env (suc fuel) t) _ s
        (chunk_guard-ends env n fuel t deadline h)
        (λ u. send_chunks-IsFinished n fuel messages (suc index) (suc u) _ deadline h)

  -- A transfer ends, with success or without, and is released: no wait is cut off by the fuel when
  -- the deadline passes at a tick below it.
  pub send_chunked_frame-finishes :
      (n fuel : ℕ) (header : List ℕ) (messages : List (List ℕ)) (s : Streamer R)
      → HasDeadline env n
      → n ≤ fuel
      → IsFinished (send_chunked_frame record_chunk_sent env (suc fuel) header messages s)
  unfolding send_chunked_frame send_guard
  send_chunked_frame-finishes n fuel header messages s deadline h =
      carry_on-IsFinished (send_guard env 0) _ _
        (ends-guard ((env 0).has_sink && (env 0).accepts) 1)
        (λ t. send_chunks-IsFinished n fuel messages 0 t _ deadline h)

  carry_on-Succeeds :
      (g : Guard) (next : ℕ → Sent R) (s : Streamer R)
      → Goes g
      → ((u : ℕ) → Succeeds (next u))
      → Succeeds (carry_on record_chunk_sent env g next s)
  carry_on-Succeeds g next s (u, e) k =
      ap (λ m. (carry_on record_chunk_sent env m next s).success) e ∙ k u

  send_chunks-Succeeds :
      (fuel : ℕ) (messages : List (List ℕ)) (index t : ℕ) (s : Streamer R)
      → ((u : ℕ) → IsCalm (env u))
      → Succeeds (send_chunks record_chunk_sent env (suc fuel) messages index t s)
  unfolding send_chunks
  send_chunks-Succeeds fuel [] index t s calm = refl
  send_chunks-Succeeds fuel (message ∷ messages) index t s calm =
      carry_on-Succeeds (chunk_guard env (suc fuel) t) _ s (chunk_guard-calm env calm fuel t)
        (λ u. send_chunks-Succeeds fuel messages (suc index) (suc u) _ calm)

  -- While nothing disturbs a transfer, it reports success, and the client has received the header
  -- message and every chunk in order.
  pub send_chunked_frame-arrives :
      (fuel : ℕ) (header : List ℕ) (messages : List (List ℕ)) (s : Streamer R)
      → ((u : ℕ) → IsCalm (env u))
      → let r = send_chunked_frame record_chunk_sent env (suc fuel) header messages s in
        (r.success ≡ some true) × (r.streamer.wire ≡ s.wire ++ header ∷ messages)
  unfolding send_chunked_frame
  send_chunked_frame-arrives fuel header messages s calm =
      let success =
        carry_on-Succeeds (send_guard env 0) _ _ (send_guard-calm env calm 0)
          (λ t. send_chunks-Succeeds fuel messages 0 t _ calm) in
      let (front, back, split, received, whole) =
        send_chunked_frame-prefix record_chunk_sent env (suc fuel) header messages s in
      let all : header ∷ messages ≡ front =
        split ∙ ap (λ b. front ++ b) (whole success) ∙ append-nil front in
      (success, received ∙ ap (λ m. s.wire ++ m) (sym all))
