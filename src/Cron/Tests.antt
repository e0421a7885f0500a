-- ===== src/Cron/Tests.antt =====
-- One user with a job that runs every minute, and an HTTP target that always answers.
use thecloud.Prelude.{
  ℕ, true, false, none, some, [], ◌∷◌, text, text_eq, ◌≡◌, refl, ◌+◌, leb, if◌then◌else◌,
}
use thecloud.Action.{ok, World, Env, Done, returned, panicked, pure}
use thecloud.Cron.Types.{CronJob, Tables, Parser, Http}
use thecloud.Cron.Repo.{is_due, is_active, get_job_by_id, update_job, create_job_row}
use thecloud.Cron.Service.{known_user, next_run, new_job, create_job, pause_job}
use thecloud.Cron.Worker.{run_job}
use thecloud.Cron.History.{pause, poll, finish, IsValid, run_all}
use thecloud.Cron.Valid.{run_all-IsValid}
use thecloud.Cron.Runs.{row_of, run_job-is_due, pause_job-undone, create_job-panics}

-- Two schedules: every minute, and a descriptor.
abbrev toy : Parser
toy descriptors s =
    if text_eq s (text "* * * * *")
    then some (λ t. t + 60)
    else if text_eq s (text "@hourly")
    then (if descriptors then some (λ t. t + 3600) else none)
    else none

abbrev web : Http Done
web = record {
  accepts = λ method url. true;
  send = λ method url payload. pure (204, text "204 No Content");
  message = λ x. [];
}

abbrev quiet : Env
quiet = record { fails = λ n. false; clock = λ n. 1000 + n; fresh = λ n. 50 + n; user = 7 }

abbrev minutely : CronJob
minutely = new_job 1 7 (text "ping") (text "* * * * *") (text "http://a") (text "GET") [] 990

abbrev start : World (Tables Done)
start = record {
  tables = record { jobs = minutely ∷ []; runs = []; outside = tt };
  journal = [];
  tick = 0;
}

run_all-IsValid_example : IsValid (
    run_all toy web
      ((quiet, poll) ∷ (quiet, pause 1) ∷ (quiet, finish 0) ∷ [])
      (record { world = start; running = [] }))
run_all-IsValid_example =
    run_all-IsValid toy web ((quiet, poll) ∷ (quiet, pause 1) ∷ (quiet, finish 0) ∷ [])
      (record { world = start; running = [] }) (record { jobs = (refl, tt); running = tt })

run_job-is_due_example :
    ((run_job toy web minutely quiet start).0 ≡ ok (returned tt))
    × ((at : ℕ) × (x : CronJob) × (row_of 1 (run_job toy web minutely quiet start).1.tables
          ≡ some x)
        × (x.last_run_at ≡ some at)
        × ((time : ℕ) → is_due time x ≡ leb (at + 60) time))
run_job-is_due_example =
    run_job-is_due toy web quiet start minutely minutely (λ t. t + 60) (λ n. refl) refl refl refl

pause_job-undone_example :
    (x : CronJob) × (y : CronJob) × (row_of 1 (pause_job 1 quiet start).1.tables ≡ some x)
    × (is_active x.status ≡ false)
    × (row_of 1 (run_job toy web minutely quiet (pause_job 1 quiet start).1).1.tables ≡ some y)
    × (is_active y.status ≡ true)
unfolding pause_job get_job_by_id update_job
pause_job-undone_example =
    pause_job-undone toy web quiet quiet start minutely (λ t. t + 60) refl refl refl (λ n. refl)
      refl

abbrev hourly : CronJob
hourly = new_job 51 7 (text "h") (text "@hourly") (text "http://a") (text "GET") [] 4600

create_job-panics_example :
    ((run_job toy web hourly quiet start).0 ≡ ok panicked)
    × ((run_job toy web hourly quiet start).1.tables.jobs ≡ start.tables.jobs)
unfolding create_job known_user next_run create_job_row
create_job-panics_example =
    create_job-panics toy web quiet quiet start start (text "h") (text "@hourly") (text "http://a")
      (text "GET") [] {job = hourly} refl refl
