-- ===== src/Cron/Types.antt =====
-- internal/core/domain/cron.go and the tables of jobs and their runs.
use thecloud.Prelude.{ℕ, Bool, Option, List, Text}
use thecloud.Errors.{Error}
use thecloud.Action.{Action}

pub data CronStatus : Type 0 where
  active paused deleted : CronStatus

-- Times are in seconds since the zero time of Go, which is 0.
pub record CronJob : Type 0 where
  pub id : ℕ
  pub user_id : ℕ
  pub name : Text
  pub schedule : Text
  pub target_url : Text
  pub target_method : Text
  pub target_payload : Text
  pub status : CronStatus
  pub last_run_at : Option ℕ
  pub next_run_at : Option ℕ

-- The words SUCCESS and FAILED.
pub data RunStatus : Type 0 where
  success failed : RunStatus

pub record CronJobRun : Type 0 where
  pub id : ℕ
  pub job_id : ℕ
  pub status : RunStatus
  pub status_code : ℕ
  pub response : Text
  pub duration_ms : ℕ
  pub started_at : ℕ

pub record Tables (O : Type 0) : Type 0 where
  pub jobs : List CronJob
  pub runs : List CronJobRun
  pub outside : O

-- `cron.Parser.Parse` of robfig/cron, with the option Descriptor or without it: `Next` of the schedule.
abbrev pub Parser : Type 0
Parser = Bool → Text → Option (ℕ → ℕ)

-- `http.NewRequest` accepts a method and a URL, `Client.Do` answers with a code and its text, and
-- `Error` is the text of an error.
pub record Http (O : Type 0) : Type 0 where
  pub accepts : Text → Text → Bool
  pub send : Text → Text → Text → Action O (ℕ × Text)
  pub message : Error → Text
