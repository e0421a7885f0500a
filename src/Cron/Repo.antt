-- ===== src/Cron/Repo.antt =====
-- internal/repositories/postgres/cron_repo.go, with the constraints of migration 021.
use thecloud.Prelude.{
  ℕ, Bool, true, false, Option, none, some, List, [], ◌∷◌, ◌++◌, text_eq, keep, find?, any, modify,
  leb, ◌==◌, ◌&&◌, ◌||◌, not, if◌then◌else◌,
}
use thecloud.Errors.{plain}
use thecloud.Action.{Result, ok, err, Action, Done, call, call_at}
use thecloud.Cron.Types.{CronJob, CronJobRun, CronStatus, Tables}

abbrev row_or_error : Option CronJob → Result CronJob
row_or_error none = err plain
row_or_error (some j) = ok j

abbrev pub is_job : ℕ → CronJob → Bool
is_job id j = j.id == id

abbrev pub is_active : CronStatus → Bool
is_active CronStatus.active = true
is_active CronStatus.paused = false
is_active CronStatus.deleted = false

-- `next_run_at <= NOW()`: NULL is never due.
abbrev pub has_come : ℕ → Option ℕ → Bool
has_come time none = false
has_come time (some at) = leb at time

-- The rows that the worker selects.
abbrev pub is_due : ℕ → CronJob → Bool
is_due time j = is_active j.status && has_come time j.next_run_at

-- The columns that `UpdateJob` sets.
abbrev pub set_columns : CronJob → CronJob → CronJob
set_columns j row = record row {
  status = j.status;
  last_run_at = j.last_run_at;
  next_run_at = j.next_run_at;
}

module _ {O : Type 0} where
  -- `CreateJob`: the names of a user's jobs differ.
  unfoldable pub create_job_row : CronJob → Action (Tables O) Done
  create_job_row j = call λ t.
      if any (λ (x : CronJob). x.id == j.id || (x.user_id == j.user_id && text_eq x.name j.name))
        t.jobs
      then (err plain, t)
      else (ok tt, record t { jobs = t.jobs ++ j ∷ [] })

  -- `GetJobByID`.
  unfoldable pub get_job_by_id : ℕ → ℕ → Action (Tables O) CronJob
  get_job_by_id id user =
      call λ t. (row_or_error (find? (λ (j : CronJob). j.id == id && j.user_id == user) t.jobs), t)

  -- `ListJobs`.
  unfoldable pub list_job_rows : ℕ → Action (Tables O) (List CronJob)
  list_job_rows user = call λ t. (ok (keep (λ (j : CronJob). j.user_id == user) t.jobs), t)

  -- `UpdateJob`: neither a version nor a user, and no error if there is no such row.
  unfoldable pub update_job : CronJob → Action (Tables O) Done
  update_job j = call λ t. (ok tt, record t { jobs = modify (is_job j.id) (set_columns j) t.jobs })

  -- `DeleteJob`, with the cascade to the runs.
  unfoldable pub delete_job_row : ℕ → Action (Tables O) Done
  delete_job_row id = call λ t. (
    ok tt,
    record t {
      jobs = keep (λ j. not (is_job id j)) t.jobs;
      runs = keep (λ (r : CronJobRun). not (r.job_id == id)) t.runs;
    },
  )

  -- `GetNextJobsToRun`: outside of a transaction the locks end with the statement.
  unfoldable pub get_next_jobs_to_run : Action (Tables O) (List CronJob)
  get_next_jobs_to_run = call_at λ time t. (ok (keep (is_due time) t.jobs), t)

  -- `SaveJobRun`: the job has to be there.
  unfoldable pub save_job_run : CronJobRun → Action (Tables O) Done
  save_job_run r = call λ t.
      if any (λ (x : CronJobRun). x.id == r.id) t.runs || not (any (is_job r.job_id) t.jobs)
      then (err plain, t)
      else (ok tt, record t { runs = t.runs ++ r ∷ [] })
