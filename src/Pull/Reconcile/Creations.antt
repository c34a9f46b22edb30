-- ===== src/Pull/Reconcile/Creations.antt =====
-- The pushes and the pull requests of `Reconcile`.
use git_change_operator.Base.{ℕ, Text, Bool, true, false, ltb, length, is_nil}
use git_change_operator.Base.{Bool-cases, inl, inr}
use git_change_operator.Effects.{is_not_found, is_panic, Result, ok, err, outside}
use git_change_operator.Effects.Moves.{
  Moves, Moves-pure, Moves-raise, Moves-if, Moves-bind_attempt, Within-outside, keeps_rules,
}
use git_change_operator.Api.Pull.{
  PullRequest, PullRequestPhase, unset, pending, running, created, failed,
}
use git_change_operator.Platform.{Platform, BasicAuth}
use git_change_operator.Platform.Frames.{IsCreateFrame}
use git_change_operator.Commit.Ttl.Frames.{expired_at-Moves}
use git_change_operator.Pull.RestCheck.{check_rest_api_conditions}
use git_change_operator.Pull.RestCheck.Frames.{check_rest_api_conditions-Within}
use git_change_operator.Pull.Writing.{create_pull_request}
use git_change_operator.Pull.Status.Quiet.{get-Within, modify-Within, update_status-Within}
use git_change_operator.Pull.Schedule.Creations.{
  Before, After, late, prepare, creation-Moves, auth-Before, handle_scheduled-Moves,
}
use git_change_operator.Pull.Reconcile.{
  check_ttl_expired, finish, concluded, authenticated, create, answered, ask_rest_apis, process,
  by_phase, deleted, delete_expired, unscheduled, handle, dispatch, report, reconcile,
}
use git_change_operator.Pull.Reconcile.Conditions.{report-Within}

module _ (P : Platform) (I K J : P.World → Type 0) (F : IsCreateFrame P I K J) where
  finish-After :
      (number : ℕ) (url : Text)
      → Moves (After P I K J F.runs) (After P I K J F.runs) (finish P number url)
  unfolding finish
  finish-After number url = search (keeps_rules, modify-Within, update_status-Within) depth 20

  concluded-After :
      (r : Result (ℕ × Text)) → Moves (After P I K J F.runs) (After P I K J F.runs) (concluded P r)
  unfolding concluded
  concluded-After (err e) =
      Moves-if (is_panic e) _ _ (Moves-raise e) (report-Within P J F.runs.after _ _)
  concluded-After (ok (number, url)) = finish-After number url

  late_report :
      (phase : PullRequestPhase) (message : Text)
      → Moves (Before P I K J F.runs) (After P I K J F.runs) (report P phase message)
  late_report phase message = late P I K J F.runs (report-Within P J F.runs.after phase message)

  authenticated-Moves :
      (o : PullRequest) (r : Result (BasicAuth × Text))
      → Moves (Before P I K J F.runs) (After P I K J F.runs) (authenticated P o r)
  unfolding authenticated
  authenticated-Moves o (err e) = late_report _ _
  authenticated-Moves o (ok (auth, token)) =
      Moves-bind_attempt (outside (create_pull_request P o auth token)) (concluded P)
        (creation-Moves P I K J F.runs o auth token) (λ e. concluded-After (err e))
        (λ made. concluded-After (ok made))

  create-Moves : Moves (Before P I K J F.runs) (After P I K J F.runs) (create P)
  unfolding create
  create-Moves = prepare P I K J F.runs _ _ (update_status-Within P I F.runs.before _ _) (λ u.
      prepare P I K J F.runs _ _ (get-Within P I F.runs.before (λ o. o)) (λ o.
        Moves-bind_attempt _ (authenticated P o) (auth-Before P I K J F.runs o)
          (λ e. authenticated-Moves o (err e)) (λ auth. authenticated-Moves o (ok auth))))

  answered-Moves :
      (r : Result Bool) → Moves (Before P I K J F.runs) (After P I K J F.runs) (answered P r)
  unfolding answered
  answered-Moves (err e) = late_report _ _
  answered-Moves (ok false) = late_report _ _
  answered-Moves (ok true) = create-Moves

  ask_rest_apis-Moves : Moves (Before P I K J F.runs) (After P I K J F.runs) (ask_rest_apis P)
  unfolding ask_rest_apis
  ask_rest_apis-Moves =
      Moves-bind_attempt (check_rest_api_conditions P) (answered P)
        (check_rest_api_conditions-Within P I F.runs.probe) (λ e. answered-Moves (err e))
        (λ met. answered-Moves (ok met))

  process-Moves : Moves (Before P I K J F.runs) (After P I K J F.runs) (process P)
  unfolding process
  process-Moves =
      prepare P I K J F.runs _ _ (get-Within P I F.runs.before (λ o. o))
        (λ o. Moves-if (ltb 0 (length o.spec.rest_apis)) _ _ ask_rest_apis-Moves create-Moves)

  by_phase-Moves :
      (phase : PullRequestPhase)
      → Moves (Before P I K J F.runs) (After P I K J F.runs) (by_phase P phase)
  unfolding by_phase
  by_phase-Moves created = late P I K J F.runs (Moves-pure _)
  by_phase-Moves failed = late P I K J F.runs (Moves-pure _)
  by_phase-Moves running = process-Moves
  by_phase-Moves pending = process-Moves
  by_phase-Moves unset = process-Moves

  deleted-Moves :
      (r : Result {0} Unit) → Moves (Before P I K J F.runs) (After P I K J F.runs) (deleted P r)
  unfolding deleted
  deleted-Moves (ok u) = late P I K J F.runs (Moves-pure _)
  deleted-Moves (err e) = late P I K J F.runs (Moves-pure _)

  delete_expired-Moves : Moves (Before P I K J F.runs) (After P I K J F.runs) (delete_expired P)
  unfolding delete_expired
  delete_expired-Moves = prepare P I K J F.runs _ _ (get-Within P I F.runs.before (λ o. o)) (λ o.
      Moves-bind_attempt (outside (P.delete_pull o)) (deleted P)
        (Within-outside (P.delete_pull o) (F.delete_pull o)) (λ e. deleted-Moves (err e))
        (λ u. deleted-Moves (ok u)))

  expiry-Moves : (o : PullRequest) → Moves I I (check_ttl_expired P o)
  unfolding check_ttl_expired
  expiry-Moves o = expired_at-Moves P I F.runs.before.now o.spec.ttl_minutes o.creation_timestamp

  unscheduled-Moves : Moves (Before P I K J F.runs) (After P I K J F.runs) (unscheduled P)
  unfolding unscheduled
  unscheduled-Moves = prepare P I K J F.runs _ _ (get-Within P I F.runs.before (λ o. o)) (λ o.
      prepare P I K J F.runs _ _ (Within-outside (check_ttl_expired P o) (expiry-Moves o))
        (λ b. Moves-if b _ _ delete_expired-Moves (by_phase-Moves o.status.phase)))

  handle-Moves : Moves (Before P I K J F.runs) (After P I K J F.runs) (handle P)
  unfolding handle
  handle-Moves = prepare P I K J F.runs _ _ (get-Within P I F.runs.before (λ o. o)) (λ o.
      Moves-if (is_nil o.spec.schedule) _ _ unscheduled-Moves
        (handle_scheduled-Moves P I K J F.runs))

  dispatch-Moves : (r : Result PullRequest) (w : P.World) → I w → J (dispatch P r w).1
  unfolding dispatch
  dispatch-Moves (ok o) w h = handle-Moves.at (record { world = w; object = o }) h
  dispatch-Moves (err e) w h = elim (Bool-cases (is_not_found e)) [
    | inl y ↦ rw y (F.runs.weaken w h)
    | inr n ↦ rw n (F.runs.weaken w h)
  ]

  -- A reconcile of a PullRequest asks GitHub for at most one pull request, and only behind its only
  -- push. Put generally: let `I`, `K` and `J` be properties of the world, where `I` and `K` each imply
  -- `J`; a push turns `I` into `K`, whether it fails or not, and a request to GitHub turns `K` into `J`;
  -- `I` is kept by every other call of a reconcile but the removal of the temporary directory, and `J`
  -- by that removal, by the reads and updates of PullRequests, by the clock and by pauses. If `I` holds
  -- before a reconcile, then `J` holds behind it, for every PullRequest, scheduled or not, whatever its
  -- calls answer, and also where the reconcile panics. With `I` for no push and no request, `K` for one
  -- push and no request, and `J` for at most one of each and no request without a push, a second request
  -- in one reconcile and a request without a push are excluded.
  pub reconcile-creates :
      (namespace name : Text) (w : P.World) → I w → J (reconcile P namespace name w).1
  unfolding reconcile
  reconcile-creates namespace name w h =
      dispatch-Moves (P.get_pull namespace name w).0 (P.get_pull namespace name w).1
        (F.runs.before.get_pull namespace name w h)
