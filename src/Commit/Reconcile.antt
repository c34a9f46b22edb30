-- ===== src/Commit/Reconcile.antt =====
-- `Reconcile` of the GitCommit controller.
pub mod Laws
pub mod Conditions
pub mod Pushes
pub mod Scheduled
use git_change_operator.Base.{ℕ, Text, text, Bool, true, false, not, Option, none, some}
use git_change_operator.Base.{List, [], ◌∷◌, ◌++◌, if◌then◌else◌, ltb, is_nil, length}
use git_change_operator.Base.Words.{pos, second}
use git_change_operator.Effects.{
  Error, error_text, is_not_found, is_conflict, Result, ok, err, Exec, pure, raise, attempt, ◌>>=◌,
  ◌>>◌, Held, outside, get, modify,
}
use git_change_operator.Api.Rest.{RestApiStatus}
use git_change_operator.Api.Commit.{
  GitCommit, GitCommitPhase, unset, pending, running, committed, failed,
}
use git_change_operator.Platform.{Platform, BasicAuth}
use git_change_operator.Base.{◌*◌}
use git_change_operator.Commit.Secrets.{get_auth_from_secret}
use git_change_operator.Commit.Status.{State, update_status}
use git_change_operator.Commit.RestCheck.{check_rest_api_conditions}
use git_change_operator.Commit.Writing.{perform_git_commit}
use git_change_operator.Commit.Ttl.{check_ttl_expired}
use git_change_operator.Commit.Schedule.{handle_scheduled}
use git_change_operator.Commit.Outcome.{
  Outcome, done, requeue, minutes, or_error, tripped, breaker_message,
}

module _ (P : Platform) where
  open P use {World, get_commit, delete_commit}

  -- A failure that is reported in the status, with an error of that dropped, and tried later.
  pub report : GitCommitPhase → Text → Outcome → Exec (State P) Outcome
  report phase message outcome = do _ ← attempt (update_status P phase message); pure outcome

  -- `gitCommit.Status.CommitSHA = commitSHA` and the last update.
  finish : Text → Exec (State P) Outcome
  finish sha = do
    modify (λ o. record o { status = record o.status { commit_sha = sha } })
    update_status P committed (text "Git commit completed successfully")
    pure done

  -- What the result of the commit asks for.
  concluded : Result Text → Exec (State P) Outcome
  concluded (err e) =
      report failed (text "Git commit failed: " ++ error_text e) (requeue (minutes 5))
  concluded (ok sha) = finish sha

  -- What the credentials, or the lack of them, ask for.
  authenticated : GitCommit → Result BasicAuth → Exec (State P) Outcome
  authenticated o (err e) =
      report failed (text "Authentication failed: " ++ error_text e) (requeue (minutes 5))
  authenticated o (ok credentials) = do
    r ← attempt (outside (perform_git_commit P o credentials))
    concluded r

  commit_files : Exec (State P) Outcome
  commit_files = do
    o ← get (λ o. o)
    auth ←
        attempt (
          outside
            (get_auth_from_secret P o.namespace o.spec.auth_secret_ref o.spec.auth_secret_key))
    authenticated o auth

  -- What the answer of the check asks for.
  answered : Result Bool → Exec (State P) Outcome
  answered (err e) =
      report failed (text "REST API check failed: " ++ error_text e) (requeue (minutes 5))
  answered (ok false) =
      report pending (text "REST API conditions not met, waiting...") (requeue (minutes 2))
  answered (ok true) = commit_files

  -- The circuit breaker, then the check.
  unless_tripped : Option RestApiStatus → Exec (State P) Outcome
  unless_tripped (some st) = report failed (breaker_message st) done
  unless_tripped none = do r ← attempt (check_rest_api_conditions P); answered r

  ask_rest_apis : Exec (State P) Outcome
  ask_rest_apis = do o ← get (λ o. o); unless_tripped (tripped o.status.rest_api_statuses)

  -- From the check of the REST conditions on.
  pub process : Exec (State P) Outcome
  process = do
    o ← get (λ o. o)
    if ltb 0 (length o.spec.rest_apis) then ask_rest_apis else commit_files

  -- A conflict means that another reconcile is at work.
  entered : Result {0} Unit → Exec (State P) Outcome
  entered (ok u) = process
  entered (err e) = if is_conflict e then pure (requeue (pos (5 * second))) else raise e

  -- The move to Running.
  enter_running : Exec (State P) Outcome
  enter_running = do r ← attempt (update_status P running (text "Processing git commit")); entered r

  -- What is done in each phase.
  by_phase : GitCommitPhase → Exec (State P) Outcome
  by_phase committed = pure (requeue (minutes 1))
  by_phase failed = pure (requeue (minutes 1))
  by_phase running = process
  by_phase pending = enter_running
  by_phase unset = enter_running

  deleted : Result {0} Unit → Exec (State P) Outcome
  deleted (ok u) = pure done
  deleted (err e) = pure (record { requeue_after = minutes 1; error = some e })

  delete_expired : Exec (State P) Outcome
  delete_expired = do o ← get (λ o. o); r ← attempt (outside (delete_commit o)); deleted r

  unscheduled : Exec (State P) Outcome
  unscheduled = do
    o ← get (λ o. o)
    expired ← outside (check_ttl_expired P o)
    if expired then delete_expired else by_phase o.status.phase

  handle : Exec (State P) Outcome
  handle = do o ← get (λ o. o); if is_nil o.spec.schedule then unscheduled else handle_scheduled P

  -- The object that `Get` has filled in, or its error.
  dispatch : Result GitCommit → World → Outcome × World
  dispatch (ok o) w =
      let (r, s) = handle (record { world = w; object = o }) in (or_error r, s.world)
  dispatch (err e) w =
      if is_not_found e then (done, w) else (record { requeue_after = pos 0; error = some e }, w)

  -- The request names the object by its namespace and its name.
  unfoldable pub reconcile : Text → Text → World → Outcome × World
  unfolding dispatch handle unscheduled delete_expired deleted by_phase enter_running entered
      process ask_rest_apis unless_tripped answered commit_files authenticated concluded finish
      report
  reconcile namespace name w = let (r, w') = get_commit namespace name w in dispatch r w'
