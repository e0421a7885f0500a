-- ===== src/Cron/Service.antt =====
-- internal/core/services/cron.go. `parse` is the library of schedules.
use thecloud.Prelude.{ℕ, true, none, some, List, Text, ◌==◌}
use thecloud.Errors.{plain}
use thecloud.Action.{
  Action, Done, pure, raise, ask, raise_if, now, new_id, note, nil_id, ◌>>=◌, ◌>>◌,
}
use thecloud.Cron.Types.{CronJob, CronStatus, Tables, Parser}
use thecloud.Cron.Repo.{create_job_row, get_job_by_id, list_job_rows, update_job, delete_job_row}

-- The job that `CreateJob` writes.
abbrev pub new_job : ℕ → ℕ → Text → Text → Text → Text → Text → ℕ → CronJob
new_job id user name schedule url method payload next = record {
  id = id;
  user_id = user;
  name = name;
  schedule = schedule;
  target_url = url;
  target_method = method;
  target_payload = payload;
  status = CronStatus.active;
  last_run_at = none;
  next_run_at = some next;
}

module _ {O : Type 0} where
  -- The user of the request's context, who must be known.
  unfoldable pub known_user : Action (Tables O) ℕ
  known_user = do user ← ask (λ e. e.user); raise_if (user == nil_id) plain; pure user

  -- `ListJobs` and `GetJob`.
  unfoldable pub list_jobs : Action (Tables O) (List CronJob)
  list_jobs = do user ← known_user; list_job_rows user

  unfoldable pub get_job : ℕ → Action (Tables O) CronJob
  get_job id = do user ← known_user; get_job_by_id id user

  -- `PauseJob`.
  unfoldable pub pause_job : ℕ → Action (Tables O) Done
  pause_job id = do
    user ← ask (λ e. e.user)
    job ← get_job_by_id id user
    update_job (record job { status = CronStatus.paused; next_run_at = none })

  -- `DeleteJob`.
  unfoldable pub delete_job : ℕ → Action (Tables O) Done
  delete_job id = do
    user ← ask (λ e. e.user)
    get_job_by_id id user
    delete_job_row id
    note "cron.job_delete" user id

module _ {O : Type 0} (parse : Parser) where
  -- The parser of the service takes descriptors, and the time of the next run is asked for now.
  unfoldable pub next_run : Text → Action (Tables O) ℕ
  next_run schedule = elim (parse true schedule) [
    | none ↦ raise plain
    | some next ↦ do time ← now; pure (next time)
  ]

  -- `CreateJob`.
  unfoldable pub create_job : Text → Text → Text → Text → Text → Action (Tables O) CronJob
  create_job name schedule url method payload = do
    user ← known_user
    next ← next_run schedule
    id ← new_id
    let job = new_job id user name schedule url method payload next
    create_job_row job
    note "CRON_JOB_CREATED" user id
    note "cron.job_create" user id
    pure job

  -- `ResumeJob`.
  unfoldable pub resume_job : ℕ → Action (Tables O) Done
  resume_job id = do
    user ← ask (λ e. e.user)
    job ← get_job_by_id id user
    next ← next_run job.schedule
    update_job (record job { status = CronStatus.active; next_run_at = some next })
