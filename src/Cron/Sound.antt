-- ===== src/Cron/Sound.antt =====
-- The actions of cron.go and cron_worker.go keep the jobs of the tables scheduled, whatever fails.
use thecloud.Prelude.{
  ℕ, true, false, none, some, [], ◌∷◌, Text, refl, arith, inl, inr, any, All, All-append,
  All-modify, All-filter, All-keep, All-intro, Bool-cases, ◌==◌, &&-true, ◌-◌, ◌||◌, ◌&&◌, text_eq,
}
use thecloud.Errors.{plain}
use thecloud.Action.{
  Result, ok, err, Env, Action, nil_id, Keeps, Triple, Triple-pure, Keeps-bind, Keeps-ask,
  Keeps-raise_if, Keeps-read, Keeps-write, Keeps-now, Keeps-new_id, Keeps-note, Keeps-ignore,
  Keeps-attempt, Keeps-option, Triple-if, returned, panicked,
}
use thecloud.Cron.Types.{CronJob, CronJobRun, CronStatus, Tables, Parser, Http, RunStatus, failed}
use thecloud.Cron.Repo.{
  is_job, is_due, is_active, set_columns, create_job_row, get_job_by_id, update_job, delete_job_row,
  get_next_jobs_to_run, save_job_run, has_come,
}
use thecloud.Cron.Service.{
  next_run, new_job, known_user, create_job, pause_job, resume_job, delete_job,
}
use thecloud.Cron.Worker.{
  outside, answered, result_of, new_run, reschedule, record_run, send_request, run_job,
  process_jobs,
}
use thecloud.Cron.History.{polled, IsScheduled, IsActive}

-- The jobs of the tables are scheduled.
abbrev pub Scheduled : {O : Type 0} → Tables O → Type 0
Scheduled t = All IsScheduled t.jobs

module _ {O : Type 0} (e : Env) where
  abbrev pub Sound : {A : Type 0} → Action (Tables O) A → Type 0
  Sound {A} m = Keeps {S = Tables O} {A = A} e Scheduled m

  create_job_row-Sound : (j : CronJob) → IsScheduled j → Sound (create_job_row j)
  unfolding create_job_row
  create_job_row-Sound j good = Keeps-write _ (λ t all.
      elim (Bool-cases (
        any (λ (x : CronJob). x.id == j.id || (x.user_id == j.user_id && text_eq x.name j.name))
          t.jobs)) [
            | inl bad ↦ rw bad all
            | inr fine ↦ rw fine (All-append IsScheduled t.jobs (j ∷ []) all (good, tt))
          ])

  update_job-Sound : (j : CronJob) → IsScheduled j → Sound (update_job j)
  unfolding update_job
  update_job-Sound j good =
      Keeps-write _
        (λ t all. All-modify IsScheduled (is_job j.id) (set_columns j) t.jobs (λ x _. good) all)

  delete_job_row-Sound : (id : ℕ) → Sound (delete_job_row id)
  unfolding delete_job_row
  delete_job_row-Sound id = Keeps-write _ (λ t all. All-filter IsScheduled _ t.jobs all)

  get_job_by_id-Sound : (id user : ℕ) → Sound (get_job_by_id id user)
  unfolding get_job_by_id
  get_job_by_id-Sound id user = Keeps-read _

  save_job_run-Sound : (r : CronJobRun) → Sound (save_job_run r)
  unfolding save_job_run
  save_job_run-Sound r = Keeps-write _ (λ t all. ground (arith, all))

  outside-Sound : {A : Type 0} (m : Action O A) → Sound (outside m)
  outside-Sound m = record { at = λ w all. all }

  known_user-Sound : Sound known_user
  unfolding known_user
  known_user-Sound = Keeps-bind _ _ (Keeps-ask (λ e. e.user)) (λ user.
      Keeps-bind _ _ (Keeps-raise_if (user == nil_id) plain) (λ u. Triple-pure user (λ t all. all)))

  pub pause_job-Sound : (id : ℕ) → Sound (pause_job id)
  unfolding pause_job
  pause_job-Sound id = Keeps-bind _ _ (Keeps-ask (λ e. e.user)) (λ user.
      Keeps-bind _ _ (get_job_by_id-Sound id user) (λ job.
        update_job-Sound (record job { status = CronStatus.paused; next_run_at = none }) refl))

  pub delete_job-Sound : (id : ℕ) → Sound (delete_job id)
  unfolding delete_job
  delete_job-Sound id = Keeps-bind _ _ (Keeps-ask (λ e. e.user)) (λ user.
      Keeps-bind _ _ (get_job_by_id-Sound id user) (λ job.
        Keeps-bind _ _ (delete_job_row-Sound id) (λ d. Keeps-note "cron.job_delete" user id)))

  module _ (parse : Parser) where
    next_run-Sound : (schedule : Text) → Sound (next_run parse schedule)
    unfolding next_run
    next_run-Sound schedule =
        Keeps-option (parse true schedule) _ _ (record { at = λ w all. all })
          (λ next. Keeps-bind _ _ Keeps-now (λ time. Triple-pure (next time) (λ t all. all)))

    pub create_job-Sound :
        (name schedule url method payload : Text)
        → Sound (create_job parse name schedule url method payload)
    unfolding create_job
    create_job-Sound name schedule url method payload = Keeps-bind _ _ known_user-Sound (λ user.
        Keeps-bind _ _ (next_run-Sound schedule) (λ next. Keeps-bind _ _ Keeps-new_id (λ id.
          Keeps-bind _ _
            (create_job_row-Sound (new_job id user name schedule url method payload next) refl)
            (λ d. Keeps-bind _ _ (Keeps-note "CRON_JOB_CREATED" user id) (λ d.
              Keeps-bind _ _ (Keeps-note "cron.job_create" user id) (λ d.
                Triple-pure (new_job id user name schedule url method payload next)
                  (λ t all. all)))))))

    pub resume_job-Sound : (id : ℕ) → Sound (resume_job parse id)
    unfolding resume_job
    resume_job-Sound id = Keeps-bind _ _ (Keeps-ask (λ e. e.user)) (λ user.
        Keeps-bind _ _ (get_job_by_id-Sound id user) (λ job.
          Keeps-bind _ _ (next_run-Sound job.schedule) (λ next.
            update_job-Sound (record job { status = CronStatus.active; next_run_at = some next })
              refl)))

    module _ (http : Http O) (job : CronJob) (active : IsActive job) where
      reschedule-Sound : Sound (reschedule parse http job)
      unfolding reschedule
      reschedule-Sound =
          Keeps-option (parse false job.schedule) _ _
            (Keeps-bind _ _ Keeps-now (λ time. Triple-pure panicked (λ t all. all)))
            (λ next. Keeps-bind _ _ Keeps-now (λ time.
              let later : CronJob = record job {
                last_run_at = some time;
                next_run_at = some (next time);
              } in
              Keeps-bind _ _ (Keeps-ignore (update_job later) (update_job-Sound later active))
                (λ d. Triple-pure (returned tt) (λ t all. all))))

      record_run-Sound :
          (status : RunStatus) (code : ℕ) (response : Text) (duration : ℕ)
          → Sound (record_run parse http job status code response duration)
      unfolding record_run
      record_run-Sound status code response duration = Keeps-bind _ _ Keeps-new_id (λ id.
          Keeps-bind _ _ Keeps-now (λ time.
            Keeps-bind _ _
              (Keeps-ignore _
                (save_job_run-Sound (new_run id job status code response duration time)))
              (λ d. reschedule-Sound)))

      answered-Sound :
          (duration : ℕ) (r : Result (ℕ × Text)) → Sound (answered parse http job duration r)
      unfolding answered
      answered-Sound duration (ok a) = record_run-Sound (result_of a.0) a.0 a.1 duration
      answered-Sound duration (err x) = record_run-Sound failed 0 (http.message x) duration

      send_request-Sound : (start : ℕ) → Sound (send_request parse http job start)
      unfolding send_request
      send_request-Sound start =
          let sent = outside (http.send job.target_method job.target_url job.target_payload) in
          Keeps-bind _ _
            (Keeps-attempt sent
              (outside-Sound (http.send job.target_method job.target_url job.target_payload)))
            (λ answer. Keeps-bind _ _ Keeps-now (λ end. answered-Sound (end - start) answer))

      pub run_job-Sound : Sound (run_job parse http job)
      unfolding run_job
      run_job-Sound = Keeps-bind _ _ Keeps-now (λ start.
          Triple-if (http.accepts job.target_method job.target_url) _ _
            (λ fine. send_request-Sound start)
            (λ bad.
              Keeps-bind _ _ Keeps-now
                (λ end. record_run-Sound failed 0 (http.message plain) (end - start))))

  -- What `ProcessJobs` reads is active.
  pub process_jobs-IsActive :
      Triple {S = Tables O} e Scheduled process_jobs (λ r t. Scheduled t × All IsActive (polled r))
  unfolding process_jobs get_next_jobs_to_run
  process_jobs-IsActive = record {
    at = λ w all. elim (Bool-cases (e.fails w.tick)) [
      | inl down ↦ rw down (all, tt)
      | inr fine ↦ rw fine (
        all,
        All-keep IsActive (is_due (e.clock w.tick)) w.tables.jobs (
            All-intro _ w.tables.jobs (λ j due.
              (&&-true (is_active j.status) (has_come (e.clock w.tick) j.next_run_at) due).0)),
      )
    ];
  }
