-- ===== src/Cron/Worker.antt =====
-- internal/core/services/cron_worker.go. Each due job is run by a goroutine of its own, on the job as
-- it was read.
use thecloud.Prelude.{ℕ, false, none, some, List, [], Text, leb, ◌-◌, ◌*◌, if◌then◌else◌}
use thecloud.Errors.{plain}
use thecloud.Action.{
  Result, ok, err, World, Action, Done, Outcome, returned, panicked, pure, attempt, ignore, now,
  new_id, ◌>>=◌, ◌>>◌,
}
use thecloud.Cron.Types.{CronJob, CronJobRun, RunStatus, success, failed, Tables, Parser, Http}
use thecloud.Cron.Repo.{get_next_jobs_to_run, update_job, save_job_run}

abbrev inside : {O A : Type 0} → World (Tables O) → Result A × World O → Result A × World (Tables O)
inside w (r, w') = (
  r,
  record { tables = record w.tables { outside = w'.tables }; journal = w'.journal; tick = w'.tick },
)

-- What a request to a target does to the whole.
abbrev pub outside : {O A : Type 0} → Action O A → Action (Tables O) A
outside m e w =
    inside w (m e (record { tables = w.tables.outside; journal = w.journal; tick = w.tick }))

-- The result of an HTTP answer with this code.
abbrev pub result_of : ℕ → RunStatus
result_of code = if leb 400 code then failed else success

-- The row that `recordRun` writes; the duration is in seconds.
abbrev pub new_run : ℕ → CronJob → RunStatus → ℕ → Text → ℕ → ℕ → CronJobRun
new_run id job status code response duration time = record {
  id = id;
  job_id = job.id;
  status = status;
  status_code = code;
  response = response;
  duration_ms = duration * 1000;
  started_at = time - duration;
}

module _ {O : Type 0} (parse : Parser) (http : Http O) where
  -- The end of `recordRun`: this parser takes no descriptors, its error is dropped, and `Next` of a
  -- schedule that is nil panics.
  unfoldable pub reschedule : CronJob → Action (Tables O) (Outcome Done)
  reschedule job = elim (parse false job.schedule) [
    | none ↦ do now; pure panicked
    | some next ↦ do
      time ← now
      ignore (update_job (record job { last_run_at = some time; next_run_at = some (next time) }))
      pure (returned tt)
  ]

  -- `recordRun`.
  unfoldable pub record_run : CronJob → RunStatus → ℕ → Text → ℕ → Action (Tables O) (Outcome Done)
  record_run job status code response duration = do
    id ← new_id
    time ← now
    ignore (save_job_run (new_run id job status code response duration time))
    reschedule job

  -- The end of `runJob`, by what the request gave.
  unfoldable pub answered : CronJob → ℕ → Result (ℕ × Text) → Action (Tables O) (Outcome Done)
  answered job duration (err x) = record_run job failed 0 (http.message x) duration
  answered job duration (ok a) = record_run job (result_of a.0) a.0 a.1 duration

  -- The rest of `runJob` for a request that could be built.
  unfoldable pub send_request : CronJob → ℕ → Action (Tables O) (Outcome Done)
  send_request job start = do
    answer ← attempt (outside (http.send job.target_method job.target_url job.target_payload))
    end ← now
    answered job (end - start) answer

  -- `runJob`.
  unfoldable pub run_job : CronJob → Action (Tables O) (Outcome Done)
  run_job job = do
    start ← now
    if http.accepts job.target_method job.target_url
        then send_request job start
        else (do end ← now; record_run job failed 0 (http.message plain) (end - start))

-- `ProcessJobs`: the jobs that goroutines are started for.
unfoldable pub process_jobs : {O : Type 0} → Action (Tables O) (List CronJob)
process_jobs = do
  found ← attempt get_next_jobs_to_run
  elim found [ err x ↦ pure [] | ok jobs ↦ pure jobs ]
