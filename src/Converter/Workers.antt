-- ===== src/Converter/Workers.antt =====
-- The batch's workers (main of src/tools/yuv420_convert.cpp) do what one loop over the tasks does,
-- in whatever order they take their steps.
use cherupi_v4l.Base.{
  Bool, Bool-cases, List, Option, [], ap, arith, get_elem?, if◌then◌else◌, inl, inr, length,
  length-replicate, ltb, min, none, refl, replicate, some, suc, zero, ℕ, ◌++◌, ◌+◌, ◌<◌, ◌==◌, ◌∙◌,
  ◌∷◌, ◌≡◌, ◌≤◌,
}
use cherupi_v4l.Converter.Batch.{
  Batch, Task, Worker, converting, done, fetched, fetching, run_batch, set_worker, start_batch,
  step_worker, succeeds,
}
use cherupi_v4l.Converter.Decode.{Conversion}

-- The sum of `g` over a list of numbers, over the numbers below `n`, and over what is being
-- converted.
pub sum_of : (ℕ → ℕ) → List ℕ → ℕ
sum_of g [] = 0
sum_of g (i ∷ is) = g i + sum_of g is

pub sum_below : (ℕ → ℕ) → ℕ → ℕ
sum_below g zero = 0
sum_below g (suc n) = sum_below g n + g n

busy : (ℕ → ℕ) → Worker → ℕ
busy g fetching = 0
busy g (converting i) = g i
busy g done = 0

is_done : Worker → ℕ
is_done fetching = 0
is_done (converting i) = 0
is_done done = 1

unfoldable pub over_workers : (Worker → ℕ) → List Worker → ℕ
over_workers f [] = 0
over_workers f (w ∷ ws) = f w + over_workers f ws

sum_of-append : (g : ℕ → ℕ) (xs ys : List ℕ) → sum_of g (xs ++ ys) ≡ sum_of g xs + sum_of g ys
unfolding sum_of
sum_of-append g [] ys = omega arith
sum_of-append g (x ∷ xs) ys = omega (arith, sum_of-append g xs ys)

pub over_workers-set_worker :
    (f : Worker → ℕ) (w : ℕ) (old new : Worker) (ws : List Worker)
    → get_elem? ws w ≡ some old
    → over_workers f (set_worker w new ws) + f old ≡ over_workers f ws + f new
unfolding over_workers set_worker
over_workers-set_worker f w old new [] h = cc
over_workers-set_worker f zero old new (x ∷ xs) h =
    let same : x ≡ old = cc in omega (arith, ap f same)
over_workers-set_worker f (suc w) old new (x ∷ xs) h =
    omega (arith, over_workers-set_worker f w old new xs h)

pub occurs : ℕ → ℕ → ℕ
occurs k i = if i == k then 1 else 0

abbrev pub AllDone : List Worker → Type 0
AllDone [] = Unit
AllDone (w ∷ ws) = (w ≡ done) × AllDone ws

min-zero : (n : ℕ) → min 0 n ≡ 0
min-zero n = omega arith

pub over_idle :
    (f : Worker → ℕ) (n : ℕ) → f fetching ≡ 0 → over_workers f (replicate n fetching) ≡ 0
unfolding over_workers
over_idle f zero h = refl
over_idle f (suc n) h = omega (arith, h, over_idle f n h)

length-set_worker :
    (w : ℕ) (new : Worker) (ws : List Worker) → length (set_worker w new ws) ≡ length ws
unfolding set_worker
length-set_worker w new [] = refl
length-set_worker zero new (x ∷ xs) = refl
length-set_worker (suc w) new (x ∷ xs) = ap suc (length-set_worker w new xs)

length-start : (jobs : ℕ) → length (start_batch jobs).workers ≡ jobs
unfolding start_batch
length-start jobs = length-replicate jobs fetching

AllDone-is_done : (ws : List Worker) → 0 < length ws → AllDone ws → 0 < over_workers is_done ws
unfolding over_workers is_done
AllDone-is_done [] h all = absurd (omega arith)
AllDone-is_done (x ∷ xs) h all = omega (arith, ap is_done all.0)

AllDone-busy : (g : ℕ → ℕ) (ws : List Worker) → AllDone ws → over_workers (busy g) ws ≡ 0
unfolding over_workers busy
AllDone-busy g [] all = refl
AllDone-busy g (x ∷ xs) all = omega (arith, ap (busy g) all.0, AllDone-busy g xs all.1)

sum_below-occurs : (k n : ℕ) → sum_below (occurs k) n ≡ (if ltb k n then 1 else 0)
unfolding sum_below occurs
sum_below-occurs k zero = ground arith
sum_below-occurs k (suc n) = ground (arith, sum_below-occurs k n)

module _ (converts : Task → Conversion Bool) (tasks : List Task) where
  pub succeeds_count : ℕ → ℕ
  succeeds_count i = if succeeds converts tasks i then 1 else 0

  pub fails_count : ℕ → ℕ
  fails_count i = if succeeds converts tasks i then 0 else 1

  drawn-exhausted :
      (before new after next : ℕ)
      → after + 0 ≡ before + new
      → 0 < after
      → (0 < before → length tasks ≤ next)
      → (0 < new → length tasks ≤ next + 1)
      → length tasks ≤ next + 1
  drawn-exhausted zero new after next e h f g = g (omega arith)
  drawn-exhausted (suc before) new after next e h f g = omega (arith, f (omega arith))

  counts_total : (n : ℕ) → sum_below succeeds_count n + sum_below fails_count n ≡ n
  unfolding sum_below succeeds_count fails_count
  counts_total zero = omega arith
  counts_total (suc n) = ground (arith, counts_total n)

  record Tallies (b : Batch) : Type 0 where
    pub each :
        (g : ℕ → ℕ)
        → sum_of g b.finished + over_workers (busy g) b.workers
          ≡ sum_below g (min b.next_idx (length tasks))
    pub oks : b.ok_count ≡ sum_of succeeds_count b.finished
    pub fails : b.fail_count ≡ sum_of fails_count b.finished
    pub exhausted_when_done : (0 < over_workers is_done b.workers) → length tasks ≤ b.next_idx

  -- A task number that is drawn is converted, or the worker is done.
  fetched-busy :
      (g : ℕ → ℕ) (i : ℕ)
      → sum_below g (min i (length tasks)) + busy g (fetched converts tasks i)
        ≡ sum_below g (min (i + 1) (length tasks))
  unfolding fetched busy sum_below
  fetched-busy g i =
      let n : ℕ = length tasks in
      elim (Bool-cases (ltb i n)) [
        | inl e ↦
            let here : min i n ≡ i = ground arith in
            let next : min (i + 1) n ≡ suc i = ground arith in
            let drawn : busy g (fetched converts tasks i) ≡ g i = rw e refl in
            omega (arith, ap (sum_below g) here, ap (sum_below g) next, drawn)
        | inr e ↦
            let same : min i n ≡ min (i + 1) n = ground arith in
            let drawn : busy g (fetched converts tasks i) ≡ 0 = rw e refl in
            omega (arith, ap (sum_below g) same, drawn)
      ]

  fetched-is_done : (i : ℕ) → 0 < is_done (fetched converts tasks i) → length tasks ≤ i + 1
  unfolding fetched is_done
  fetched-is_done i h = ground arith

  step-Tallies :
      (w : ℕ) (o : Option Worker) (b : Batch)
      → get_elem? b.workers w ≡ o
      → Tallies b
      → Tallies (step_worker converts tasks w o b)
  unfolding step_worker busy is_done sum_of succeeds_count fails_count
  step-Tallies w none b e t = t
  step-Tallies w (some done) b e t = t
  step-Tallies w (some fetching) b e t = record {
    each = λ g. omega (
      arith,
      t.each g,
      fetched-busy g b.next_idx,
      over_workers-set_worker (busy g) w fetching (fetched converts tasks b.next_idx) b.workers e,
    );
    oks = t.oks;
    fails = t.fails;
    exhausted_when_done = λ h.
        drawn-exhausted (over_workers is_done b.workers)
          (is_done (fetched converts tasks b.next_idx))
          (over_workers is_done (set_worker w (fetched converts tasks b.next_idx) b.workers))
          b.next_idx
          (over_workers-set_worker is_done w fetching (fetched converts tasks b.next_idx) b.workers
            e)
          h t.exhausted_when_done (fetched-is_done b.next_idx);
  }
  step-Tallies w (some (converting i)) b e t = record {
    each = λ g. omega (
      arith,
      t.each g,
      sum_of-append g b.finished (i ∷ []),
      over_workers-set_worker (busy g) w (converting i) fetching b.workers e,
    );
    oks = ground (arith, t.oks, sum_of-append succeeds_count b.finished (i ∷ []));
    fails = ground (arith, t.fails, sum_of-append fails_count b.finished (i ∷ []));
    exhausted_when_done = λ h.
        t.exhausted_when_done
          (omega (arith, over_workers-set_worker is_done w (converting i) fetching b.workers e));
  }

  run-Tallies : (ws : List ℕ) (b : Batch) → Tallies b → Tallies (run_batch converts tasks ws b)
  unfolding run_batch
  run-Tallies [] b t = t
  run-Tallies (w ∷ ws) b t =
      run-Tallies ws (step_worker converts tasks w (get_elem? b.workers w) b)
        (step-Tallies w (get_elem? b.workers w) b refl t)

  start-Tallies : (jobs : ℕ) → Tallies (start_batch jobs)
  unfolding start_batch sum_of sum_below busy is_done
  start-Tallies jobs = record {
    each = λ g.
        omega (arith, over_idle (busy g) jobs refl, ap (sum_below g) (min-zero (length tasks)));
    oks = refl;
    fails = refl;
    exhausted_when_done = λ h. absurd (omega (arith, over_idle is_done jobs refl));
  }

  step-length :
      (w : ℕ) (o : Option Worker) (b : Batch)
      → length (step_worker converts tasks w o b).workers ≡ length b.workers
  unfolding step_worker
  step-length w none b = refl
  step-length w (some fetching) b =
      length-set_worker w (fetched converts tasks b.next_idx) b.workers
  step-length w (some (converting i)) b = length-set_worker w fetching b.workers
  step-length w (some done) b = refl

  run-length :
      (ws : List ℕ) (b : Batch) → length (run_batch converts tasks ws b).workers ≡ length b.workers
  unfolding run_batch
  run-length [] b = refl
  run-length (w ∷ ws) b =
      run-length ws (step_worker converts tasks w (get_elem? b.workers w) b)
      ∙ step-length w (get_elem? b.workers w) b

  -- However the steps of the workers interleave: when all of at least one worker are done, every
  -- task has been converted exactly once, the two counts are those of one loop over the tasks, and
  -- together they are the number of tasks.
  pub run_batch-eq :
      (jobs : ℕ) (schedule : List ℕ) (k : ℕ)
      → 0 < jobs
      → AllDone (run_batch converts tasks schedule (start_batch jobs)).workers
      → let b = run_batch converts tasks schedule (start_batch jobs) in
        (sum_of (occurs k) b.finished ≡ (if ltb k (length tasks) then 1 else 0))
        × (b.ok_count ≡ sum_below succeeds_count (length tasks))
        × (b.fail_count ≡ sum_below fails_count (length tasks))
        × (b.ok_count + b.fail_count ≡ length tasks)
  run_batch-eq jobs schedule k h all =
      let b : Batch = run_batch converts tasks schedule (start_batch jobs) in
      let t : Tallies b = run-Tallies schedule (start_batch jobs) (start-Tallies jobs) in
      let some_worker : 0 < length b.workers =
        omega (arith, run-length schedule (start_batch jobs), length-start jobs) in
      let enough : length tasks ≤ b.next_idx =
        t.exhausted_when_done (AllDone-is_done b.workers some_worker all) in
      let reached : min b.next_idx (length tasks) ≡ length tasks = omega arith in
      let total : (g : ℕ → ℕ) → sum_of g b.finished ≡ sum_below g (length tasks) =
        λ g. omega (arith, t.each g, AllDone-busy g b.workers all, ap (sum_below g) reached) in
      (
        total (occurs k) ∙ sum_below-occurs k (length tasks),
        t.oks ∙ total succeeds_count,
        t.fails ∙ total fails_count,
        omega (
          arith,
          t.oks,
          t.fails,
          total succeeds_count,
          total fails_count,
          counts_total (length tasks),
        ),
      )
