-- ===== src/Commit/Schedule.antt =====
-- `handleScheduledGitCommit`
pub mod Laws
pub mod Conditions
pub mod Pushes
pub mod Waits
use git_change_operator.Base.{ℕ, Text, text, Bool, true, false, not, ◌&&◌, ◌||◌, Option, none, some}
use git_change_operator.Base.{List, [], ◌∷◌, ◌++◌, if◌then◌else◌, ltb, leb, ◌==◌, length}
use git_change_operator.Base.Words.{Time, ℤ, pos, minute, time_until}
use git_change_operator.Effects.{
  Error, error_text, Result, ok, err, Exec, pure, raise, lift, attempt, ◌>>=◌, ◌>>◌, Held, outside,
  get, modify,
}
use git_change_operator.Api.Rest.{RestApiStatus}
use git_change_operator.Api.Commit.{GitCommit, GitCommitPhase, pending, running, committed, failed}
use git_change_operator.Platform.{Platform, BasicAuth}
use git_change_operator.Commit.Secrets.{get_auth_from_secret}
use git_change_operator.Commit.Status.{
  State, record_execution, update_schedule_status, update_next_scheduled_time,
}
use git_change_operator.Commit.RestCheck.{check_rest_api_conditions}
use git_change_operator.Commit.Writing.{perform_git_commit}
use git_change_operator.Commit.Outcome.{
  Outcome, done, requeue, minutes, tripped, breaker_message, clamp_wait,
}

-- The test for an execution: at once the first time, then from the scheduled time on.
unfoldable pub should_execute : Option Time → Option Time → Time → Bool
should_execute none next now = true
should_execute (some last) none now = false
should_execute (some last) (some scheduled) now = leb scheduled now

-- `NextScheduledTime == nil || !NextScheduledTime.Equal(&nextTimeMeta)`
unfoldable pub next_changes : Option Time → Time → Bool
next_changes none next = true
next_changes (some t) next = not (t == next)

-- `gitCommit.Status.LastScheduledTime = &nowMeta`
abbrev pub start : Time → GitCommit → GitCommit
start t o = record o { status = record o.status { last_scheduled_time = some t } }

-- The message of a run.
abbrev pub running_message : Text
running_message = text "Processing scheduled git commit"

module _ (P : Platform) where
  open P use {World, now, Cron, parse_cron, next}

  abbrev clock : Exec (State P) Time
  clock = outside (λ w. let (t, w') = now w in (ok t, w'))

  -- `time.Until(t)`
  abbrev until : Time → Exec (State P) ℤ
  until t = do n ← clock; pure (time_until t n)

  -- An execution that ends before its commit: it is recorded, an error of that being dropped, and
  -- the next one waits for the next scheduled time.
  pub end_execution : Cron → Time → GitCommitPhase → Text → Exec (State P) Outcome
  end_execution cron started phase message = do
    _ ← attempt (record_execution P [] phase message (some (next cron started)))
    d ← until (next cron started)
    pure (requeue d)

  -- After a commit: the next time first, then the record. An error of either asks for a minute.
  pub finish_execution : Cron → Time → Text → Exec (State P) Outcome
  finish_execution cron started sha = do
    r₁ ← attempt (update_next_scheduled_time P (next cron started))
    elim r₁ [
      | err e ↦ pure (record { requeue_after = pos minute; error = some e })
      | ok _ ↦ do
        r₂ ←
            attempt
              (record_execution P sha committed (text "Git commit completed successfully") none)
        elim r₂ [
          | err e ↦ pure (record { requeue_after = pos minute; error = some e })
          | ok _ ↦ do d ← until (next cron started); pure (requeue (clamp_wait d))
        ]
    ]

  -- What the result of the commit asks for.
  concluded : Cron → Time → Result Text → Exec (State P) Outcome
  concluded cron started (err e) =
      end_execution cron started failed (text "Git commit failed: " ++ error_text e)
  concluded cron started (ok sha) = finish_execution cron started sha

  -- What the credentials, or the lack of them, ask for.
  authenticated : Cron → Time → GitCommit → Result BasicAuth → Exec (State P) Outcome
  authenticated cron started o (err e) =
      end_execution cron started failed (text "Authentication failed: " ++ error_text e)
  authenticated cron started o (ok credentials) = do
    r ← attempt (outside (perform_git_commit P o credentials))
    concluded cron started r

  -- The commit itself, once the REST APIs have been asked.
  execute_commit : Cron → Time → Exec (State P) Outcome
  execute_commit cron started = do
    o ← get (λ o. o)
    auth ←
        attempt (
          outside
            (get_auth_from_secret P o.namespace o.spec.auth_secret_ref o.spec.auth_secret_key))
    authenticated cron started o auth

  -- What the answer of the check asks for.
  answered : Cron → Time → Result Bool → Exec (State P) Outcome
  answered cron started (err e) =
      end_execution cron started failed (text "REST API check failed: " ++ error_text e)
  answered cron started (ok false) =
      end_execution cron started pending (text "REST API conditions not met")
  answered cron started (ok true) = execute_commit cron started

  -- The circuit breaker, then the check.
  unless_tripped : Cron → Time → Option RestApiStatus → Exec (State P) Outcome
  unless_tripped cron started (some st) = end_execution cron started failed (breaker_message st)
  unless_tripped cron started none = do
    r ← attempt (check_rest_api_conditions P)
    answered cron started r

  pub ask_rest_apis : Cron → Time → Exec (State P) Outcome
  ask_rest_apis cron started = do
    o ← get (λ o. o)
    unless_tripped cron started (tripped o.status.rest_api_statuses)

  -- The run at a scheduled time that has come.
  execute : Cron → Time → Exec (State P) Outcome
  execute cron started = do
    modify (start started)
    update_schedule_status P running running_message
    o ← get (λ o. o)
    if ltb 0 (length o.spec.rest_apis)
        then ask_rest_apis cron started
        else execute_commit cron started

  -- Not yet: the next time is stored if it changed.
  pub wait_for_next : Cron → Time → Exec (State P) Outcome
  wait_for_next cron started = do
    o ← get (λ o. o)
    if next_changes o.status.next_scheduled_time (next cron started)
        then update_next_scheduled_time P (next cron started)
        else pure tt
    d ← until (next cron started)
    pure (requeue (clamp_wait d))

  with_schedule : Cron → Exec (State P) Outcome
  with_schedule cron = do
    started ← clock
    o ← get (λ o. o)
    if should_execute o.status.last_scheduled_time o.status.next_scheduled_time started
        then execute cron started
        else wait_for_next cron started

  pub suspended : Exec (State P) Outcome
  suspended = do
    update_schedule_status P pending (text "Execution suspended")
    pure (requeue (minutes 1))

  -- A schedule that does not parse is reported, and its error returned.
  by_parse : Result Cron → Exec (State P) Outcome
  by_parse (err e) = do
    update_schedule_status P failed (text "Invalid cron schedule: " ++ error_text e)
    raise e
  by_parse (ok cron) = with_schedule cron

  by_schedule : Exec (State P) Outcome
  by_schedule = do
    o ← get (λ o. o)
    if o.spec.suspend then suspended else by_parse (parse_cron o.spec.schedule)

  unfoldable pub handle_scheduled : Exec (State P) Outcome
  unfolding by_schedule by_parse suspended with_schedule wait_for_next execute ask_rest_apis
      unless_tripped answered execute_commit authenticated concluded finish_execution end_execution
  handle_scheduled = by_schedule
