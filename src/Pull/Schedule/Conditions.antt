-- ===== src/Pull/Schedule/Conditions.antt =====
-- A scheduled execution from the REST conditions on.
use git_change_operator.Base.{ℕ, Text, Bool, true, false, ◌≢◌, refl}
use git_change_operator.Base.Words.{Time}
use git_change_operator.Effects.{Result, ok, err}
use git_change_operator.Effects.Moves.{Moves, keeps_rules}
use git_change_operator.Api.Pull.{PullRequestPhase}
use git_change_operator.Platform.{Platform}
use git_change_operator.Platform.Frames.{IsPullStatusFrame, IsProbeFrame}
use git_change_operator.Pull.RestCheck.{check_rest_api_conditions}
use git_change_operator.Pull.RestCheck.Frames.{check_rest_api_conditions-Within}
use git_change_operator.Pull.Status.{State}
use git_change_operator.Pull.Status.Quiet.{
  Within, clock-Within, record_pr_execution-Within, update_next_scheduled_time-Within,
}
use git_change_operator.Pull.Schedule.{
  until, store_outcome, end_execution, finish_execution, answered, ask_rest_apis,
}

module _ (P : Platform) (I : P.World → Type 0) (F : IsPullStatusFrame P I) where
  pub until-Within : (t : Time) → Moves (Within P I F) (Within P I F) (until P t)
  unfolding until
  until-Within t = search (keeps_rules, clock-Within) depth 20

  store_outcome-Within :
      (cron : P.Cron) (started : Time) (number : ℕ) (url : Text) (phase : PullRequestPhase)
      (message : Text)
      → Moves (Within P I F) (Within P I F) (store_outcome P cron started number url phase message)
  unfolding store_outcome
  store_outcome-Within cron started number url phase message =
      search (keeps_rules, record_pr_execution-Within, update_next_scheduled_time-Within) depth 20

  pub end_execution-Within :
      (cron : P.Cron) (started : Time) (phase : PullRequestPhase) (message : Text)
      → Moves (Within P I F) (Within P I F) (end_execution P cron started phase message)
  unfolding end_execution
  end_execution-Within cron started phase message =
      search (keeps_rules, store_outcome-Within, until-Within) depth 20

  pub finish_execution-Within :
      (cron : P.Cron) (started : Time) (number : ℕ) (url : Text)
      → Moves (Within P I F) (Within P I F) (finish_execution P cron started number url)
  unfolding finish_execution
  finish_execution-Within cron started number url =
      search (keeps_rules, store_outcome-Within, until-Within) depth 20

module _ (P : Platform) (I : P.World → Type 0) (F : IsPullStatusFrame P I)
    (G : IsProbeFrame P I) where
  answered-Within :
      (cron : P.Cron) (started : Time) (r : Result Bool) (s : State P)
      → r ≢ ok true
      → I s.world
      → I (answered P cron started r s).1.world
  unfolding answered
  answered-Within cron started (err e) s unmet h =
      (end_execution-Within P I F cron started _ _).at s h
  answered-Within cron started (ok false) s unmet h =
      (end_execution-Within P I F cron started _ _).at s h
  answered-Within cron started (ok true) s unmet h = absurd (unmet refl)

  -- A scheduled execution of a PullRequest whose check of the REST APIs does not answer that all
  -- conditions are met (it fails, or one is not met): from the check on it does nothing to the world but
  -- what the check itself, the record of the execution and the store of the next time do. Each property
  -- `I` of the world that the clock, pauses, reads and updates of PullRequests, reads of secrets, HTTP
  -- requests, metrics and CEL evaluations keep still holds behind it. So nothing is cloned, written,
  -- pushed or created.
  pub pull_ask_rest_apis-Within :
      (cron : P.Cron) (started : Time) (s : State P)
      → I s.world
      → (check_rest_api_conditions P s).0 ≢ ok true
      → I (ask_rest_apis P cron started s).1.world
  unfolding ask_rest_apis
  pull_ask_rest_apis-Within cron started s h unmet =
      answered-Within cron started (check_rest_api_conditions P s).0
        (check_rest_api_conditions P s).1 unmet ((check_rest_api_conditions-Within P I G).at s h)
