-- ===== src/Pull/Reconcile.antt =====
-- `Reconcile` of the PullRequest controller.
pub mod Conditions
pub mod Laws
pub mod Creations
pub mod Scheduled
use git_change_operator.Base.{ℕ, Text, text, Bool, true, false, Option, none, some}
use git_change_operator.Base.{List, [], ◌∷◌, ◌++◌, if◌then◌else◌, ltb, is_nil, length}
use git_change_operator.Base.Words.{pos}
use git_change_operator.Effects.{
  Error, error_text, is_not_found, is_panic, Result, ok, err, Exec, pure, raise, attempt, ◌>>=◌,
  ◌>>◌, Held, outside, get, modify,
}
use git_change_operator.Api.Pull.{
  PullRequest, PullRequestPhase, unset, pending, running, created, failed,
}
use git_change_operator.Platform.{Platform, BasicAuth}
use git_change_operator.Commit.Outcome.{Outcome, done, requeue, minutes, or_error}
use git_change_operator.Commit.Ttl.{expired_at}
use git_change_operator.Pull.Secrets.{get_auth_from_secret}
use git_change_operator.Pull.Status.{State, update_status}
use git_change_operator.Pull.RestCheck.{check_rest_api_conditions}
use git_change_operator.Pull.Writing.{create_pull_request}
use git_change_operator.Pull.Schedule.{handle_scheduled}

module _ (P : Platform) where
  open P use {World, get_pull, delete_pull}

  -- `checkTTLExpired`, word for word that of the GitCommit controller.
  unfoldable pub check_ttl_expired : PullRequest → Exec World Bool
  check_ttl_expired o = expired_at P o.spec.ttl_minutes o.creation_timestamp

  -- A failure that is reported in the status, with an error of that dropped, and tried later.
  pub report : PullRequestPhase → Text → Exec (State P) Outcome
  report phase message = do _ ← attempt (update_status P phase message); pure (requeue (minutes 5))

  -- The number and the URL, and the last update.
  finish : ℕ → Text → Exec (State P) Outcome
  finish number url = do
    modify (λ o. record o {
      status = record o.status { pull_request_number = number; pull_request_url = url };
    })
    update_status P created (text "Pull request created successfully")
    pure done

  -- What the result of the creation asks for. A panic unwinds the reconcile.
  concluded : Result (ℕ × Text) → Exec (State P) Outcome
  concluded (err e) =
      if is_panic e
      then raise e
      else report failed (text "Pull request creation failed: " ++ error_text e)
  concluded (ok (number, url)) = finish number url

  -- What the credentials, or the lack of them, ask for.
  authenticated : PullRequest → Result (BasicAuth × Text) → Exec (State P) Outcome
  authenticated o (err e) = report failed (text "Authentication failed: " ++ error_text e)
  authenticated o (ok (credentials, token)) = do
    r ← attempt (outside (create_pull_request P o credentials token))
    concluded r

  -- From the move to Running on.
  create : Exec (State P) Outcome
  create = do
    update_status P running (text "Processing pull request")
    o ← get (λ o. o)
    auth ←
        attempt (
          outside
            (get_auth_from_secret P o.namespace o.spec.auth_secret_ref o.spec.auth_secret_key))
    authenticated o auth

  -- What the answer of the check asks for.
  answered : Result Bool → Exec (State P) Outcome
  answered (err e) = report failed (text "REST API condition check failed: " ++ error_text e)
  answered (ok false) = report pending (text "REST API condition not met, will retry later")
  answered (ok true) = create

  ask_rest_apis : Exec (State P) Outcome
  ask_rest_apis = do r ← attempt (check_rest_api_conditions P); answered r

  pub process : Exec (State P) Outcome
  process = do o ← get (λ o. o); if ltb 0 (length o.spec.rest_apis) then ask_rest_apis else create

  -- What is done in each phase.
  by_phase : PullRequestPhase → Exec (State P) Outcome
  by_phase created = pure (requeue (minutes 1))
  by_phase failed = pure (requeue (minutes 1))
  by_phase running = process
  by_phase pending = process
  by_phase unset = process

  deleted : Result {0} Unit → Exec (State P) Outcome
  deleted (ok u) = pure done
  deleted (err e) = pure (record { requeue_after = minutes 1; error = some e })

  delete_expired : Exec (State P) Outcome
  delete_expired = do o ← get (λ o. o); r ← attempt (outside (delete_pull o)); deleted r

  unscheduled : Exec (State P) Outcome
  unscheduled = do
    o ← get (λ o. o)
    expired ← outside (check_ttl_expired o)
    if expired then delete_expired else by_phase o.status.phase

  handle : Exec (State P) Outcome
  handle = do o ← get (λ o. o); if is_nil o.spec.schedule then unscheduled else handle_scheduled P

  -- The object that `Get` has filled in, or its error.
  dispatch : Result PullRequest → World → Outcome × World
  dispatch (ok o) w =
      let (r, s) = handle (record { world = w; object = o }) in (or_error r, s.world)
  dispatch (err e) w =
      if is_not_found e then (done, w) else (record { requeue_after = pos 0; error = some e }, w)

  -- The request names the object by its namespace and its name. A panic is the error of the outcome.
  unfoldable pub reconcile : Text → Text → World → Outcome × World
  unfolding dispatch handle unscheduled delete_expired deleted by_phase process ask_rest_apis
      answered create authenticated concluded finish report
  reconcile namespace name w = let (r, w') = get_pull namespace name w in dispatch r w'
