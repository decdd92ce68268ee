-- ===== src/Converter/Progress.antt =====
-- The workers of a batch (main of src/tools/yuv420_convert.cpp) come to an end.
use cherupi_v4l.Base.{
  Bool, Bool-cases, List, Option, [], arith, get_elem?, inl, inr, length, ltb, ltb→lt, none, refl,
  replicate, some, suc, zero, ℕ, ◌*◌, ◌+◌, ◌-◌, ◌<◌, ◌∙◌, ◌∷◌, ◌≡◌, ◌≤◌, ◌⊎◌,
}
use cherupi_v4l.Converter.Batch.{
  Batch, Task, Worker, converting, done, fetched, fetching, run_batch, start_batch, step_worker,
}
use cherupi_v4l.Converter.Decode.{Conversion}
use cherupi_v4l.Converter.Workers.{AllDone, over_workers, over_workers-set_worker}

-- The steps a worker has still to take by itself: one to find no task, and one more in a conversion.
rank : Worker → ℕ
rank fetching = 1
rank (converting i) = 2
rank done = 0

-- The worker is there and not done.
abbrev pub IsActive : Option Worker → Type 0
IsActive none = ⊥
IsActive (some fetching) = Unit
IsActive (some (converting i)) = Unit
IsActive (some done) = ⊥

over_rank-zero : (ws : List Worker) → over_workers rank ws ≡ 0 → AllDone ws
unfolding over_workers rank
over_rank-zero [] h = tt
over_rank-zero (fetching ∷ ws) h = absurd (omega arith)
over_rank-zero (converting i ∷ ws) h = absurd (omega arith)
over_rank-zero (done ∷ ws) h = (refl, over_rank-zero ws (omega arith))

over_ready : (n : ℕ) → over_workers rank (replicate n fetching) ≡ n
unfolding over_workers rank
over_ready zero = refl
over_ready (suc n) = omega (arith, over_ready n)

module _ (converts : Task → Conversion Bool) (tasks : List Task) where
  remaining : Batch → ℕ
  remaining b = 2 * (length tasks - b.next_idx) + over_workers rank b.workers

  remaining-workers : (b : Batch) → remaining b ≡ 0 → over_workers rank b.workers ≡ 0
  unfolding remaining
  remaining-workers b h = omega arith

  -- Every step of the schedule is taken by a worker that is not done.
  abbrev pub IsActiveRun : List ℕ → Batch → Type 0
  IsActiveRun [] b = Unit
  IsActiveRun (w ∷ ws) b =
      IsActive (get_elem? b.workers w)
      × IsActiveRun ws (step_worker converts tasks w (get_elem? b.workers w) b)

  fetched-rank :
      (i : ℕ)
      → 2 * (length tasks - (i + 1)) + rank (fetched converts tasks i) + 1
        ≡ 2 * (length tasks - i) + 1
  unfolding fetched rank
  fetched-rank i = ground arith

  step-remaining :
      (w : ℕ) (o : Option Worker) (b : Batch)
      → get_elem? b.workers w ≡ o
      → IsActive o
      → remaining (step_worker converts tasks w o b) + 1 ≡ remaining b
  unfolding step_worker remaining rank
  step-remaining w none b e a = absurd a
  step-remaining w (some fetching) b e a = omega (
    arith,
    fetched-rank b.next_idx,
    over_workers-set_worker rank w fetching (fetched converts tasks b.next_idx) b.workers e,
  )
  step-remaining w (some (converting i)) b e a =
      omega (arith, over_workers-set_worker rank w (converting i) fetching b.workers e)
  step-remaining w (some done) b e a = absurd a

  run-remaining :
      (ws : List ℕ) (b : Batch)
      → IsActiveRun ws b
      → remaining (run_batch converts tasks ws b) + length ws ≡ remaining b
  unfolding run_batch
  run-remaining [] b a = omega arith
  run-remaining (w ∷ ws) b a = omega (
    arith,
    step-remaining w (get_elem? b.workers w) b refl a.0,
    run-remaining ws (step_worker converts tasks w (get_elem? b.workers w) b) a.1,
  )

  start-remaining : (jobs : ℕ) → remaining (start_batch jobs) ≡ 2 * length tasks + jobs
  unfolding remaining start_batch
  start-remaining jobs = omega (arith, over_ready jobs)

  -- A schedule in which every step is taken by a worker that is not done has at most two steps for
  -- each task and one for each worker; a shorter one can leave a worker at work, and one of that
  -- length leaves all of them done.
  pub run_batch-finishes :
      (jobs : ℕ) (schedule : List ℕ)
      → IsActiveRun schedule (start_batch jobs)
      → (length schedule ≤ 2 * length tasks + jobs)
        × ((length schedule < 2 * length tasks + jobs)
            ⊎ AllDone (run_batch converts tasks schedule (start_batch jobs)).workers)
  run_batch-finishes jobs schedule a =
      let b : Batch = run_batch converts tasks schedule (start_batch jobs) in
      let total : remaining b + length schedule ≡ 2 * length tasks + jobs =
        run-remaining schedule (start_batch jobs) a ∙ start-remaining jobs in
      (
        omega arith,
        elim (Bool-cases (ltb (length schedule) (2 * length tasks + jobs))) [
          | inl e ↦ inl (ltb→lt (length schedule) (2 * length tasks + jobs) e)
          | inr e ↦ inr (over_rank-zero b.workers (remaining-workers b (ground arith)))
        ],
      )
