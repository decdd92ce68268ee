-- ===== src/Detect/Slots.antt =====
-- The jobs on the four quadrants (detectCheckerboard2x2 and detectAruco2x2 of src/frame_processor.cpp):
-- they go in batches of at most four threads, and each writes a slot of its own. `finish` is the
-- order in which the jobs of a batch are done.
use cherupi_v4l.Base.{
  Bool, Bool-cases, List, [], ap, arith, false, if◌then◌else◌, inl, inr, ltb, min, refl, suc, true,
  zero, ℕ, ◌%◌, ◌+◌, ◌-◌, ◌<◌, ◌==◌, ◌^◌, ◌||◌, ◌∙◌, ◌∷◌, ◌≡◌, ◌≤◌,
}
use cherupi_v4l.Base.Int.{negsuc, pos, ℤ}

-- The conversion of an int to size_t, and std::clamp<size_t>(threads, 1, 4).
unfoldable pub pool_size : ℤ → ℕ
pool_size (pos n) = if ltb n 1 then 1 else if ltb 4 n then 4 else n
pool_size (negsuc n) =
    if ltb 4 (2 ^ 64 - 1 - n % 2 ^ 64)
    then 4
    else if ltb (2 ^ 64 - 1 - n % 2 ^ 64) 1
    then 1
    else 2 ^ 64 - 1 - n % 2 ^ 64

unfoldable pub up_from : ℕ → ℕ → List ℕ
up_from i zero = []
up_from i (suc n) = i ∷ up_from (suc i) n

-- `for (i = 0; i < 4; i += pool)` with min(pool, 4 - i) jobs at a time, on fuel; 4 rounds are enough.
unfoldable pub batches : ℕ → ℕ → ℕ → List (List ℕ)
batches zero pool i = []
batches (suc fuel) pool i =
    let rest = batches fuel pool (i + pool) in
    if ltb i 4 then up_from i (min pool (4 - i)) ∷ rest else []

abbrev pub covers : ℕ → List ℕ → Bool
covers k [] = false
covers k (i ∷ is) = i == k || covers k is

abbrev covers_any : ℕ → List (List ℕ) → Bool
covers_any k [] = false
covers_any k (b ∷ bs) = covers k b || covers_any k bs

pool_size_bounds : (threads : ℤ) → (0 < pool_size threads) × (pool_size threads ≤ 4)
unfolding pool_size
pool_size_bounds (pos n) = ground arith
pool_size_bounds (negsuc n) = ground arith

batches_of_cover :
    (k : ℕ)
    → k < 4
    → (covers_any k (batches 4 1 0) ≡ true)
      × (covers_any k (batches 4 2 0) ≡ true)
      × (covers_any k (batches 4 3 0) ≡ true)
      × (covers_any k (batches 4 4 0) ≡ true)
unfolding batches up_from
batches_of_cover zero h = (refl, refl, refl, refl)
batches_of_cover (suc zero) h = (refl, refl, refl, refl)
batches_of_cover (suc (suc zero)) h = (refl, refl, refl, refl)
batches_of_cover (suc (suc (suc zero))) h = (refl, refl, refl, refl)
batches_of_cover (suc (suc (suc (suc k)))) h = absurd (omega arith)

batches-cover :
    (pool k : ℕ) → (0 < pool) × (pool ≤ 4) → k < 4 → covers_any k (batches 4 pool 0) ≡ true
batches-cover zero k h below = absurd (omega arith)
batches-cover (suc zero) k h below = (batches_of_cover k below).0
batches-cover (suc (suc zero)) k h below = (batches_of_cover k below).1
batches-cover (suc (suc (suc zero))) k h below = (batches_of_cover k below).2
batches-cover (suc (suc (suc (suc zero)))) k h below = (batches_of_cover k below).3
batches-cover (suc (suc (suc (suc (suc n))))) k h below = absurd (omega arith)

module _ {R : Type 0} (job : ℕ → R) where
  unfoldable pub write_slots : List ℕ → (ℕ → R) → ℕ → R
  write_slots [] results = results
  write_slots (i ∷ is) results = write_slots is (λ k. if i == k then job i else results k)

  unfoldable pub run_jobs : (List ℕ → List ℕ) → List (List ℕ) → (ℕ → R) → ℕ → R
  run_jobs finish [] results = results
  run_jobs finish (b ∷ bs) results = run_jobs finish bs (write_slots (finish b) results)

  later_slot :
      (i : ℕ) (is : List ℕ) (r : R) (k : ℕ)
      → (if covers k is then job k else (if i == k then job i else r))
        ≡ (if (i == k) || covers k is then job k else r)
  later_slot i is r k = elim (Bool-cases (covers k is)) [
    | inl e ↦ ground arith
    | inr e ↦ ground arith
  ]

  write_slots-covers :
      (is : List ℕ) (results : ℕ → R) (k : ℕ)
      → write_slots is results k ≡ (if covers k is then job k else results k)
  unfolding write_slots
  write_slots-covers [] results k = refl
  write_slots-covers (i ∷ is) results k =
      write_slots-covers is (λ j. if i == j then job i else results j) k
      ∙ later_slot i is (results k) k

  run_jobs-covers :
      (finish : List ℕ → List ℕ) (bs : List (List ℕ)) (results : ℕ → R) (k : ℕ)
      → ((b : List ℕ) → covers k (finish b) ≡ covers k b)
      → run_jobs finish bs results k ≡ (if covers_any k bs then job k else results k)
  unfolding run_jobs
  run_jobs-covers finish [] results k h = refl
  run_jobs-covers finish (b ∷ bs) results k h =
      run_jobs-covers finish bs (write_slots (finish b) results) k h
      ∙ ground (arith, write_slots-covers (finish b) results k, h b)

  -- Whatever the number of threads, and in whatever order the jobs of a batch are done: the slot of
  -- each of the four quadrants holds what its own job finds, as if the jobs ran one by one.
  pub run_jobs-eq :
      (finish : List ℕ → List ℕ) (threads : ℤ) (results : ℕ → R) (k : ℕ)
      → ((b : List ℕ) → covers k (finish b) ≡ covers k b)
      → k < 4
      → run_jobs finish (batches 4 (pool_size threads) 0) results k ≡ job k
  run_jobs-eq finish threads results k h below =
      run_jobs-covers finish (batches 4 (pool_size threads) 0) results k h
      ∙ ap (λ b. if b then job k else results k)
          (batches-cover (pool_size threads) k (pool_size_bounds threads) below)
