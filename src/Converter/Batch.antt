-- ===== src/Converter/Batch.antt =====
-- The batch of src/tools/yuv420_convert.cpp (main with --batch): the tasks, the number of workers and
-- the workers themselves. A step is one worker's fetch_add or one conversion with its count, and a
-- schedule is the order in which the workers take their steps, so it stands for every interleaving.
-- `converts` tells what convertYuvFile makes of a task; no task reads what another one writes.
use cherupi_v4l.Base.{
  Bool, List, Option, [], false, get_elem?, if◌then◌else◌, length, ltb, none, replicate, some, suc,
  zero, ℕ, ◌++◌, ◌+◌, ◌==◌, ◌∷◌,
}
use cherupi_v4l.Converter.Decode.{Conversion, returns, throws}
use cherupi_v4l.Converter.Stem.{extension, parse_yuv_stem, stem}
use cherupi_v4l.Command.Path.{bytes_eq}

pub record Task : Type 0 where
  pub input : List ℕ
  pub output : List ℕ

-- The entries of the input directory that are not skipped.
unfoldable pub task_of : List ℕ → List ℕ → List ℕ → Option Task
task_of out_dir batch_ext path =
    if bytes_eq (extension path) (b'.' ∷ b'y' ∷ b'u' ∷ b'v' ∷ [])
    then elim (parse_yuv_stem (stem path)) [
      | none ↦ none
      | some parsed ↦
          some (record { input = path; output = out_dir ++ b'/' ∷ (stem path ++ b'.' ∷ batch_ext) })
    ]
    else none

unfoldable pub gather_tasks : List ℕ → List ℕ → List (List ℕ) → List Task
gather_tasks out_dir batch_ext [] = []
gather_tasks out_dir batch_ext (path ∷ paths) = elim (task_of out_dir batch_ext path) [
  | none ↦ gather_tasks out_dir batch_ext paths
  | some task ↦ task ∷ gather_tasks out_dir batch_ext paths
]

-- `requested` is --jobs, 0 where it is not given or not positive.
unfoldable pub job_count : ℕ → ℕ → ℕ → ℕ
job_count requested hardware tasks =
    let hw = if hardware == 0 then 1 else hardware in
    let jobs = if ltb 0 requested then requested else hw in
    let capped = if ltb tasks jobs then tasks else jobs in if capped == 0 then 1 else capped

pub data Worker : Type 0 where
  fetching : Worker  -- before next_idx.fetch_add(1)
  converting : ℕ → Worker
  done : Worker

pub record Batch : Type 0 where
  pub next_idx : ℕ
  pub ok_count : ℕ
  pub fail_count : ℕ
  pub finished : List ℕ  -- the tasks converted, in the order of completion
  pub workers : List Worker

unfoldable pub start_batch : ℕ → Batch
start_batch jobs = record {
  next_idx = 0;
  ok_count = 0;
  fail_count = 0;
  finished = [];
  workers = replicate jobs fetching;
}

-- An exception in a conversion counts as a failure.
unfoldable pub is_ok : Conversion Bool → Bool
is_ok throws = false
is_ok (returns success) = success

unfoldable pub set_worker : ℕ → Worker → List Worker → List Worker
set_worker w new [] = []
set_worker zero new (x ∷ xs) = new ∷ xs
set_worker (suc w) new (x ∷ xs) = x ∷ set_worker w new xs

module _ (converts : Task → Conversion Bool) (tasks : List Task) where
  unfoldable pub fetched : ℕ → Worker
  fetched i = if ltb i (length tasks) then converting i else done

  -- What comes of the task of that number.
  unfoldable pub succeeds : ℕ → Bool
  succeeds i = elim (get_elem? tasks i) [ none ↦ false | some task ↦ is_ok (converts task) ]

  unfoldable pub step_worker : ℕ → Option Worker → Batch → Batch
  step_worker w none b = b
  step_worker w (some fetching) b = record b {
    next_idx = b.next_idx + 1;
    workers = set_worker w (fetched b.next_idx) b.workers;
  }
  step_worker w (some (converting i)) b = record b {
    ok_count = if succeeds i then b.ok_count + 1 else b.ok_count;
    fail_count = if succeeds i then b.fail_count else b.fail_count + 1;
    finished = b.finished ++ i ∷ [];
    workers = set_worker w fetching b.workers;
  }
  step_worker w (some done) b = b

  unfoldable pub run_batch : List ℕ → Batch → Batch
  run_batch [] b = b
  run_batch (w ∷ ws) b = run_batch ws (step_worker w (get_elem? b.workers w) b)

  -- `return fail > 0 ? 1 : 0`
  unfoldable pub exit_code : Batch → ℕ
  exit_code b = if ltb 0 b.fail_count then 1 else 0
