-- ===== src/Pull/Schedule.antt =====
-- `handleScheduledPullRequest`
pub mod Conditions
pub mod Laws
pub mod Creations
use git_change_operator.Base.{ℕ, Text, text, Bool, true, false, Option, none, some}
use git_change_operator.Base.{List, [], ◌∷◌, ◌++◌, if◌then◌else◌, ltb, length}
use git_change_operator.Base.Words.{Time, ℤ, time_until}
use git_change_operator.Effects.{
  Error, error_text, is_panic, Result, ok, err, Exec, pure, raise, attempt, ◌>>=◌, ◌>>◌, Held,
  outside, get, modify,
}
use git_change_operator.Api.Pull.{PullRequest, PullRequestPhase, pending, running, created, failed}
use git_change_operator.Platform.{Platform, BasicAuth}
use git_change_operator.Commit.Outcome.{Outcome, requeue, minutes, clamp_wait}
use git_change_operator.Commit.Schedule.{should_execute, next_changes}
use git_change_operator.Pull.Secrets.{get_auth_from_secret}
use git_change_operator.Pull.RestCheck.{check_rest_api_conditions}
use git_change_operator.Pull.Writing.{create_pull_request}
use git_change_operator.Pull.Status.{
  State, clock, record_pr_execution, update_schedule_status, update_next_scheduled_time,
}

-- `pullRequest.Status.LastScheduledTime = &nowMeta`
abbrev pub start : Time → PullRequest → PullRequest
start t o = record o { status = record o.status { last_scheduled_time = some t } }

-- The message of a run.
abbrev pub running_message : Text
running_message = text "Processing scheduled pull request"

module _ (P : Platform) where
  open P use {World, Cron, parse_cron, next}

  -- `time.Until(t)`
  pub until : Time → Exec (State P) ℤ
  until t = do n ← clock P; pure (time_until t n)

  -- The record of the execution, then the next time. The errors of both are dropped.
  store_outcome : Cron → Time → ℕ → Text → PullRequestPhase → Text → Exec (State P) Unit
  store_outcome cron started number url phase message = do
    _ ← attempt (record_pr_execution P number url phase message)
    _ ← attempt (update_next_scheduled_time P (next cron started))
    pure tt

  -- An execution that ends before there is a pull request waits for the next scheduled time.
  pub end_execution : Cron → Time → PullRequestPhase → Text → Exec (State P) Outcome
  end_execution cron started phase message = do
    store_outcome cron started 0 [] phase message
    d ← until (next cron started)
    pure (requeue d)

  pub finish_execution : Cron → Time → ℕ → Text → Exec (State P) Outcome
  finish_execution cron started number url = do
    store_outcome cron started number url created (text "Pull request created successfully")
    d ← until (next cron started)
    pure (requeue (clamp_wait d))

  -- What the result of the creation asks for. A panic unwinds the handler.
  concluded : Cron → Time → Result (ℕ × Text) → Exec (State P) Outcome
  concluded cron started (err e) =
      if is_panic e
      then raise e
      else end_execution cron started failed (text "Pull request creation failed: " ++ error_text e)
  concluded cron started (ok (number, url)) = finish_execution cron started number url

  -- What the credentials, or the lack of them, ask for.
  authenticated : Cron → Time → PullRequest → Result (BasicAuth × Text) → Exec (State P) Outcome
  authenticated cron started o (err e) =
      end_execution cron started failed (text "Authentication failed: " ++ error_text e)
  authenticated cron started o (ok (credentials, token)) = do
    r ← attempt (outside (create_pull_request P o credentials token))
    concluded cron started r

  -- The creation itself, once the REST APIs have been asked.
  execute_creation : Cron → Time → Exec (State P) Outcome
  execute_creation cron started = do
    o ← get (λ o. o)
    auth ←
        attempt (
          outside
            (get_auth_from_secret P o.namespace o.spec.auth_secret_ref o.spec.auth_secret_key))
    authenticated cron started o auth

  -- What the answer of the check asks for.
  answered : Cron → Time → Result Bool → Exec (State P) Outcome
  answered cron started (err e) =
      end_execution cron started failed (text "REST API condition check failed: " ++ error_text e)
  answered cron started (ok false) =
      end_execution cron started pending (text "REST API conditions not met")
  answered cron started (ok true) = execute_creation cron started

  pub ask_rest_apis : Cron → Time → Exec (State P) Outcome
  ask_rest_apis cron started = do r ← attempt (check_rest_api_conditions P); answered cron started r

  -- The run at a scheduled time that has come.
  execute : Cron → Time → Exec (State P) Outcome
  execute cron started = do
    modify (start started)
    update_schedule_status P running running_message
    o ← get (λ o. o)
    if ltb 0 (length o.spec.rest_apis)
        then ask_rest_apis cron started
        else execute_creation cron started

  -- Not yet: the next time is stored if it changed.
  pub wait_for_next : Cron → Time → Exec (State P) Outcome
  wait_for_next cron started = do
    o ← get (λ o. o)
    if next_changes o.status.next_scheduled_time (next cron started)
        then update_next_scheduled_time P (next cron started)
        else pure tt
    d ← until (next cron started)
    pure (requeue (clamp_wait d))

  with_schedule : Cron → Exec (State P) Outcome
  with_schedule cron = do
    started ← clock P
    o ← get (λ o. o)
    if should_execute o.status.last_scheduled_time o.status.next_scheduled_time started
        then execute cron started
        else wait_for_next cron started

  pub suspended : Exec (State P) Outcome
  suspended = do
    update_schedule_status P pending (text "Execution suspended")
    pure (requeue (minutes 1))

  -- A schedule that does not parse is reported, and its error returned.
  by_parse : Result Cron → Exec (State P) Outcome
  by_parse (err e) = do
    update_schedule_status P failed (text "Invalid cron schedule: " ++ error_text e)
    raise e
  by_parse (ok cron) = with_schedule cron

  by_schedule : Exec (State P) Outcome
  by_schedule = do
    o ← get (λ o. o)
    if o.spec.suspend then suspended else by_parse (parse_cron o.spec.schedule)

  unfoldable pub handle_scheduled : Exec (State P) Outcome
  unfolding by_schedule by_parse suspended with_schedule wait_for_next execute ask_rest_apis
      answered execute_creation authenticated concluded finish_execution end_execution store_outcome
      until
  handle_scheduled = by_schedule
