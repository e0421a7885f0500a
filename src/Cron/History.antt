-- ===== src/Cron/History.antt =====
-- What happens to jobs: requests, polls of the worker, and goroutines that end in any order, each with
-- the job as it was read by the poll.
use thecloud.Prelude.{
  ℕ, zero, suc, Bool, true, false, Option, none, some, List, [], ◌∷◌, ◌++◌, Text, ◌≡◌, All,
  if◌then◌else◌,
}
use thecloud.Action.{Result, ok, err, World, Env, is_panic}
use thecloud.Cron.Types.{CronJob, Tables, Parser, Http}
use thecloud.Cron.Repo.{is_active}
use thecloud.Cron.Service.{create_job, pause_job, resume_job, delete_job}
use thecloud.Cron.Worker.{run_job, process_jobs}

-- `finish n` is the end of the goroutine with the index n, and `restart` that of the process.
pub data Event : Type 0 where
  create : Text → Text → Text → Text → Text → Event
  pause : ℕ → Event
  resume : ℕ → Event
  delete : ℕ → Event
  poll : Event
  finish : ℕ → Event
  restart : Event

-- The database, and the goroutines that run.
pub record State (O : Type 0) : Type 0 where
  pub world : World (Tables O)
  pub running : List CronJob

abbrev pub started : ℕ → List CronJob → Option CronJob
started n [] = none
started zero (j ∷ js) = some j
started (suc n) (j ∷ js) = started n js

abbrev pub without : ℕ → List CronJob → List CronJob
without n [] = []
without zero (j ∷ js) = js
without (suc n) (j ∷ js) = j ∷ without n js

abbrev pub polled : Result (List CronJob) → List CronJob
polled (ok jobs) = jobs
polled (err x) = []

module _ {O : Type 0} (parse : Parser) (http : Http O) where
  -- A goroutine that panics ends the process, and all others with it.
  unfoldable pub finish_job : Option CronJob → ℕ → Env → State O → State O
  finish_job none n e s = s
  finish_job (some job) n e s =
      let o = run_job parse http job e s.world in
      record { world = o.1; running = if is_panic o.0 then [] else without n s.running }

  unfoldable pub step : Event → Env → State O → State O
  step (create name schedule url method payload) e s = record s {
    world = (create_job parse name schedule url method payload e s.world).1;
  }
  step (pause id) e s = record s { world = (pause_job id e s.world).1 }
  step (resume id) e s = record s { world = (resume_job parse id e s.world).1 }
  step (delete id) e s = record s { world = (delete_job id e s.world).1 }
  step poll e s =
      let o = process_jobs e s.world in record { world = o.1; running = s.running ++ polled o.0 }
  step (finish n) e s = finish_job (started n s.running) n e s
  step restart e s = record s { running = [] }

  unfoldable pub run_all : List (Env × Event) → State O → State O
  run_all [] s = s
  run_all ((e, event) ∷ rest) s = run_all rest (step event e s)

abbrev pub has_time : Option ℕ → Bool
has_time none = false
has_time (some at) = true

-- An active job has a next run, and no other job has one.
abbrev pub IsScheduled : CronJob → Type 0
IsScheduled j = is_active j.status ≡ has_time j.next_run_at

abbrev pub IsActive : CronJob → Type 0
IsActive j = is_active j.status ≡ true

pub record IsValid {O : Type 0} (s : State O) : Type 0 where
  pub jobs : All IsScheduled s.world.tables.jobs
  pub running : All IsActive s.running
