-- ===== src/Cron/Runs.antt =====
-- What a goroutine of cron_worker.go leaves in the row of its job.
use thecloud.Prelude.{
  ℕ, suc, true, false, Option, none, some, Text, find?, find?-modify, find?-true, leb, ◌==◌, ◌&&◌,
  ◌-◌, ◌≡◌, refl, ◌∙◌, arith, inl, inr, Bool-cases, Option-cases,
}
use thecloud.Errors.{plain}
use thecloud.Action.{Result, ok, err, World, Env, Done, Outcome, returned, panicked}
use thecloud.Cron.Types.{CronJob, CronStatus, CronJobRun, Tables, Parser, Http, RunStatus, failed}
use thecloud.Cron.Repo.{
  is_job, is_due, is_active, set_columns, create_job_row, get_job_by_id, update_job, save_job_run,
}
use thecloud.Cron.Service.{known_user, next_run, create_job, pause_job}
use thecloud.Cron.Worker.{
  outside, result_of, answered, new_run, reschedule, record_run, send_request, run_job,
}

-- The row of a job.
abbrev pub row_of : {O : Type 0} → ℕ → Tables O → Option CronJob
row_of id t = find? (is_job id) t.jobs

module _ {O : Type 0} (parse : Parser) (http : Http O) (job : CronJob) (e : Env) where
  -- The action ends with `reschedule` in a world with the same jobs.
  abbrev Ends : World (Tables O) → Result (Outcome Done) × World (Tables O) → Type 0
  Ends w o =
      (w' : World (Tables O)) × (o ≡ reschedule parse http job e w')
      × (w'.tables.jobs ≡ w.tables.jobs)

  save_job_run-jobs :
      (r : CronJobRun) (w : World (Tables O)) → (save_job_run r e w).1.tables.jobs ≡ w.tables.jobs
  unfolding save_job_run
  save_job_run-jobs r w = ground arith

  record_run-Ends :
      (status : RunStatus) (code : ℕ) (response : Text) (duration : ℕ) (w : World (Tables O))
      → Ends w (record_run parse http job status code response duration e w)
  unfolding record_run
  record_run-Ends status code response duration w =
      let run = new_run (e.fresh w.tick) job status code response duration (e.clock (suc w.tick)) in
      let w' = record w { tick = suc (suc w.tick) } in
      ((save_job_run run e w').1, refl, save_job_run-jobs run w')

  answered-Ends :
      (duration : ℕ) (r : Result (ℕ × Text)) (w : World (Tables O))
      → Ends w (answered parse http job duration r e w)
  unfolding answered
  answered-Ends duration (ok a) w = record_run-Ends (result_of a.0) a.0 a.1 duration w
  answered-Ends duration (err x) w = record_run-Ends failed 0 (http.message x) duration w

  send_request-Ends :
      (start : ℕ) (w : World (Tables O)) → Ends w (send_request parse http job start e w)
  unfolding send_request
  send_request-Ends start w =
      let o = outside (http.send job.target_method job.target_url job.target_payload) e w in
      answered-Ends (e.clock o.1.tick - start) o.0 (record o.1 { tick = suc o.1.tick })

  run_job-Ends : (w : World (Tables O)) → Ends w (run_job parse http job e w)
  unfolding run_job
  run_job-Ends w = elim (Bool-cases (http.accepts job.target_method job.target_url)) [
    | inl fine ↦ rw fine (send_request-Ends (e.clock w.tick) (record w { tick = suc w.tick }))
    | inr bad ↦ rw bad (
        record_run-Ends failed 0 (http.message plain) (e.clock (suc w.tick) - e.clock w.tick)
          (record w { tick = suc (suc w.tick) }))
  ]

  reschedule_lem :
      (next : ℕ → ℕ) (row : CronJob) (w : World (Tables O))
      → ((n : ℕ) → e.fails n ≡ false)
      → parse false job.schedule ≡ some next
      → row_of job.id w.tables ≡ some row
      → (let at = e.clock w.tick in
          let o = reschedule parse http job e w in
          (o.0 ≡ ok (returned tt))
          × (row_of job.id o.1.tables
              ≡ some (
                  set_columns
                    (record job { last_run_at = some at; next_run_at = some (next at) })
                    row)))
  unfolding reschedule update_job
  reschedule_lem next row w fine read found = ground (
    arith,
    fine (suc w.tick),
    find?-true (is_job job.id) w.tables.jobs row found,
    find?-modify (is_job job.id) (is_job job.id)
        (set_columns (record job {
          last_run_at = some (e.clock w.tick);
          next_run_at = some (next (e.clock w.tick));
        }))
        w.tables.jobs (λ x. refl),
  )

-- If the database answers and the schedule can be read, then whatever the request gives, a goroutine
-- leaves in the row of its active job a time of its last run and the next run after that: the worker
-- selects the job again exactly from the next run on.
pub run_job-is_due :
    {O : Type 0} (parse : Parser) (http : Http O) (e : Env) (w : World (Tables O))
    (job row : CronJob) (next : ℕ → ℕ)
    → ((n : ℕ) → e.fails n ≡ false)
    → parse false job.schedule ≡ some next
    → is_active job.status ≡ true
    → row_of job.id w.tables ≡ some row
    → (let o = run_job parse http job e w in
        (o.0 ≡ ok (returned tt))
        × ((at : ℕ) × (x : CronJob) × (row_of job.id o.1.tables ≡ some x)
            × (x.last_run_at ≡ some at)
            × ((time : ℕ) → is_due time x ≡ leb (next at) time)))
run_job-is_due parse http e w job row next fine read active found =
    let (w', ends, same) = run_job-Ends parse http job e w in
    let (result, left) = reschedule_lem parse http job e next row w' fine read (rw same found) in
    let at = e.clock w'.tick in
    rw ends (
      result,
      (
        at,
        set_columns (record job { last_run_at = some at; next_run_at = some (next at) }) row,
        left,
        refl,
        λ time. ground (arith, active),
      ),
    )

pause_job_lem :
    {O : Type 0} (e : Env) (w : World (Tables O)) (id : ℕ) (j : CronJob)
    → row_of id w.tables ≡ some j
    → (pause_job id e w).0 ≡ ok tt
    → (x : CronJob) × (row_of id (pause_job id e w).1.tables ≡ some x)
      × (is_active x.status ≡ false)
unfolding pause_job get_job_by_id update_job
pause_job_lem e w id j found done =
    elim (Option-cases (find? (λ (j : CronJob). j.id == id && j.user_id == e.user) w.tables.jobs)) [
      | inl foreign ↦ ground arith
      | inr (own, here) ↦ (
        set_columns (record own { status = CronStatus.paused; next_run_at = none }) j,
        ground (
          arith,
          find?-true (λ (j : CronJob). j.id == id && j.user_id == e.user) w.tables.jobs own here,
          find?-true (is_job id) w.tables.jobs j found,
          find?-modify (is_job id) (is_job own.id)
              (set_columns (record own { status = CronStatus.paused; next_run_at = none }))
              w.tables.jobs (λ x. refl),
        ),
        refl,
      )
    ]

-- A pause can be undone: if a job is paused while a goroutine runs it as it was read before, and the
-- database answers, the goroutine makes the row active again.
pub pause_job-undone :
    {O : Type 0} (parse : Parser) (http : Http O) (e worker : Env) (w : World (Tables O))
    (job : CronJob) (next : ℕ → ℕ)
    → row_of job.id w.tables ≡ some job
    → is_active job.status ≡ true
    → (pause_job job.id e w).0 ≡ ok tt
    → ((n : ℕ) → worker.fails n ≡ false)
    → parse false job.schedule ≡ some next
    → (let w' = (pause_job job.id e w).1 in
        (x : CronJob) × (y : CronJob) × (row_of job.id w'.tables ≡ some x)
        × (is_active x.status ≡ false)
        × (row_of job.id (run_job parse http job worker w').1.tables ≡ some y)
        × (is_active y.status ≡ true))
pause_job-undone parse http e worker w job next found active done fine read =
    let (x, marked, off) = pause_job_lem e w job.id job found done in
    let (w', ends, same) = run_job-Ends parse http job worker (pause_job job.id e w).1 in
    let (result, left) =
      reschedule_lem parse http job worker next x w' fine read (rw same marked) in
    let at = worker.clock w'.tick in
    (
      x,
      set_columns (record job { last_run_at = some at; next_run_at = some (next at) }) x,
      marked,
      off,
      rw ends left,
      active,
    )

create_job-schedule :
    {O : Type 0} (parse : Parser) (e : Env) (w : World (Tables O))
    (name schedule url method payload : Text) {job : CronJob}
    → (create_job parse name schedule url method payload e w).0 ≡ ok job
    → job.schedule ≡ schedule
unfolding create_job known_user next_run create_job_row
create_job-schedule parse e w name schedule url method payload done = ground (arith, done)

reschedule-panics :
    {O : Type 0} (parse : Parser) (http : Http O) (job : CronJob) (e : Env) (w : World (Tables O))
    → parse false job.schedule ≡ none
    → ((reschedule parse http job e w).0 ≡ ok panicked)
      × ((reschedule parse http job e w).1.tables.jobs ≡ w.tables.jobs)
unfolding reschedule
reschedule-panics parse http job e w unread = rw (unread, reschedule) (refl, refl)

-- A job that was created with a schedule which the parser of the worker does not take makes the worker
-- panic each time it is run, whatever the request gives and whatever calls fail, and the jobs stay as
-- they were.
pub create_job-panics :
    {O : Type 0} (parse : Parser) (http : Http O) (e worker : Env) (w w' : World (Tables O))
    (name schedule url method payload : Text) {job : CronJob}
    → (create_job parse name schedule url method payload e w).0 ≡ ok job
    → parse false schedule ≡ none
    → ((run_job parse http job worker w').0 ≡ ok panicked)
      × ((run_job parse http job worker w').1.tables.jobs ≡ w'.tables.jobs)
create_job-panics parse http e worker w w' name schedule url method payload {job} done unread =
    let (w'', ends, same) = run_job-Ends parse http job worker w' in
    let kept = create_job-schedule parse e w name schedule url method payload done in
    let (dead, left) = reschedule-panics parse http job worker w'' (rw kept unread) in
    rw ends (dead, left ∙ same)
