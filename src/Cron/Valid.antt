-- ===== src/Cron/Valid.antt =====
-- Every event of cron.go and cron_worker.go keeps the schedule of the jobs valid, stale goroutines too.
use thecloud.Prelude.{
  ℕ, zero, suc, Option, none, some, List, [], ◌∷◌, ◌≡◌, refl, arith, inl, inr, All, All-append,
  Bool-cases,
}
use thecloud.Action.{Env, is_panic}
use thecloud.Cron.Types.{CronJob, Parser, Http}
use thecloud.Cron.Worker.{run_job}
use thecloud.Cron.History.{
  Event, create, pause, resume, delete, poll, finish, restart, State, started, without, finish_job,
  step, run_all, IsActive, IsValid,
}
use thecloud.Cron.Sound.{
  create_job-Sound, pause_job-Sound, resume_job-Sound, delete_job-Sound, run_job-Sound,
  process_jobs-IsActive,
}

started-IsActive :
    (n : ℕ) (js : List CronJob) (j : CronJob) → All IsActive js → started n js ≡ some j → IsActive j
started-IsActive n [] j all h = cc
started-IsActive zero (x ∷ js) j all h = ground (arith, all.0)
started-IsActive (suc n) (x ∷ js) j all h = started-IsActive n js j all.1 h

without-IsActive : (n : ℕ) (js : List CronJob) → All IsActive js → All IsActive (without n js)
without-IsActive n [] all = tt
without-IsActive zero (x ∷ js) all = all.1
without-IsActive (suc n) (x ∷ js) all = (all.0, without-IsActive n js all.1)

module _ {O : Type 0} (parse : Parser) (http : Http O) where
  finish_job-IsValid :
      (o : Option CronJob) (n : ℕ) (e : Env) (s : State O)
      → started n s.running ≡ o
      → IsValid s
      → IsValid (finish_job parse http o n e s)
  unfolding finish_job
  finish_job-IsValid none n e s at v = v
  finish_job-IsValid (some job) n e s at v = record {
    jobs =
        (run_job-Sound e parse http job (started-IsActive n s.running job v.running at)).at s.world
          v.jobs;
    running = elim (Bool-cases (is_panic (run_job parse http job e s.world).0)) [
      | inl dead ↦ rw dead tt
      | inr lives ↦ rw lives (without-IsActive n s.running v.running)
    ];
  }

  step-IsValid :
      (event : Event) (e : Env) (s : State O) → IsValid s → IsValid (step parse http event e s)
  unfolding step
  step-IsValid (create name schedule url method payload) e s v = record {
    jobs = (create_job-Sound e parse name schedule url method payload).at s.world v.jobs;
    running = v.running;
  }
  step-IsValid (pause id) e s v = record {
    jobs = (pause_job-Sound e id).at s.world v.jobs;
    running = v.running;
  }
  step-IsValid (resume id) e s v = record {
    jobs = (resume_job-Sound e parse id).at s.world v.jobs;
    running = v.running;
  }
  step-IsValid (delete id) e s v = record {
    jobs = (delete_job-Sound e id).at s.world v.jobs;
    running = v.running;
  }
  step-IsValid poll e s v =
      let new = (process_jobs-IsActive e).at s.world v.jobs in
      record { jobs = new.0; running = All-append IsActive s.running _ v.running new.1 }
  step-IsValid (finish n) e s v = finish_job-IsValid (started n s.running) n e s refl v
  step-IsValid restart e s v = record { jobs = v.jobs; running = tt }

  -- Every history of requests, polls and goroutines, which end in any order with the jobs as they were
  -- read and whatever calls fail, keeps the jobs valid: exactly the active jobs have a next run, and
  -- only active jobs are run.
  pub run_all-IsValid :
      (history : List (Env × Event)) (s : State O)
      → IsValid s
      → IsValid (run_all parse http history s)
  unfolding run_all
  run_all-IsValid [] s v = v
  run_all-IsValid ((e, event) ∷ rest) s v = run_all-IsValid rest _ (step-IsValid event e s v)
