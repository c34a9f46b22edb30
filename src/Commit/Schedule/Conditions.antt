-- ===== src/Commit/Schedule/Conditions.antt =====
-- A scheduled execution from the REST conditions on.
use git_change_operator.Base.{◌≢◌, refl, Text, Bool, true, false, Option, none, some}
use git_change_operator.Base.Words.{Time}
use git_change_operator.Effects.{Result, ok, err}
use git_change_operator.Effects.Moves.{Moves, keeps_rules}
use git_change_operator.Api.Rest.{RestApiStatus}
use git_change_operator.Api.Commit.{GitCommitPhase}
use git_change_operator.Platform.{Platform}
use git_change_operator.Platform.Frames.{IsProbeFrame}
use git_change_operator.Commit.Status.{State}
use git_change_operator.Platform.Frames.{IsStatusFrame}
use git_change_operator.Commit.Status.Quiet.{Within, clock-Within, record_execution-Within}
use git_change_operator.Commit.RestCheck.{check_rest_api_conditions}
use git_change_operator.Commit.RestCheck.Frames.{check_rest_api_conditions-Within}
use git_change_operator.Commit.Outcome.{tripped}
use git_change_operator.Commit.Schedule.{end_execution, answered, unless_tripped, ask_rest_apis}

module _ (P : Platform) (I : P.World → Type 0) (F : IsStatusFrame P I) where
  pub end_execution-Within :
      (cron : P.Cron) (started : Time) (phase : GitCommitPhase) (message : Text)
      → Moves (Within P I F) (Within P I F) (end_execution P cron started phase message)
  unfolding end_execution
  end_execution-Within cron started phase message =
      search (keeps_rules, record_execution-Within, clock-Within) depth 20

module _ (P : Platform) (I : P.World → Type 0) (F : IsStatusFrame P I) (G : IsProbeFrame P I) where
  answered-Within :
      (cron : P.Cron) (started : Time) (r : Result Bool) (s : State P)
      → r ≢ ok true
      → I s.world
      → I (answered P cron started r s).1.world
  unfolding answered
  answered-Within cron started (err e) s unmet h =
      (end_execution-Within P I F cron started _ _).at s h
  answered-Within cron started (ok false) s unmet h =
      (end_execution-Within P I F cron started _ _).at s h
  answered-Within cron started (ok true) s unmet h = absurd (unmet refl)

  unless_tripped-Within :
      (cron : P.Cron) (started : Time) (breaker : Option RestApiStatus) (s : State P)
      → I s.world
      → (check_rest_api_conditions P s).0 ≢ ok true
      → I (unless_tripped P cron started breaker s).1.world
  unfolding unless_tripped
  unless_tripped-Within cron started (some st) s h unmet =
      (end_execution-Within P I F cron started _ _).at s h
  unless_tripped-Within cron started none s h unmet =
      answered-Within cron started (check_rest_api_conditions P s).0
        (check_rest_api_conditions P s).1 unmet ((check_rest_api_conditions-Within P I G).at s h)

  -- A scheduled execution whose check of the REST APIs does not answer that all conditions are met (it
  -- fails, or one is not met): from the check on it does nothing to the world but what the check itself
  -- and the recording of the execution in the status do. Each property `I` of the world that the clock, pauses, reads and
  -- updates of GitCommits, reads of secrets, HTTP requests, metrics and CEL evaluations keep still holds
  -- behind it. So nothing is cloned, written, committed, pushed or deleted.
  pub ask_rest_apis-Within :
      (cron : P.Cron) (started : Time) (s : State P)
      → I s.world
      → (check_rest_api_conditions P s).0 ≢ ok true
      → I (ask_rest_apis P cron started s).1.world
  unfolding ask_rest_apis
  ask_rest_apis-Within cron started s h unmet =
      unless_tripped-Within cron started (tripped s.object.status.rest_api_statuses) s h unmet
