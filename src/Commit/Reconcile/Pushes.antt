-- ===== src/Commit/Reconcile/Pushes.antt =====
-- The pushes of `Reconcile`.
use git_change_operator.Base.{
  Text, text, Bool, true, false, Option, none, some, ltb, length, is_nil,
}
use git_change_operator.Base.{Bool-cases, inl, inr}
use git_change_operator.Effects.{is_not_found, is_conflict, Result, ok, err, outside}
use git_change_operator.Effects.Moves.{
  Moves, Moves-pure, Moves-raise, Moves-if, Moves-bind_attempt, Within-outside, keeps_rules,
}
use git_change_operator.Api.Rest.{RestApiStatus}
use git_change_operator.Api.Commit.{
  GitCommit, GitCommitPhase, unset, pending, running, committed, failed,
}
use git_change_operator.Platform.{Platform, BasicAuth}
use git_change_operator.Platform.Frames.{IsPushFrame}
use git_change_operator.Commit.Ttl.{check_ttl_expired}
use git_change_operator.Commit.Ttl.Frames.{check_ttl_expired-Moves}
use git_change_operator.Commit.Status.{update_status}
use git_change_operator.Commit.Status.Quiet.{get-Within, modify-Within, update_status-Within}
use git_change_operator.Commit.RestCheck.{check_rest_api_conditions}
use git_change_operator.Commit.RestCheck.Frames.{check_rest_api_conditions-Within}
use git_change_operator.Commit.Writing.{perform_git_commit}
use git_change_operator.Commit.Outcome.{Outcome, tripped}
use git_change_operator.Commit.Schedule.Pushes.{
  Before, After, late, prepare, perform-Moves, auth-Before, handle_scheduled-Moves,
}
use git_change_operator.Commit.Reconcile.{
  report, finish, concluded, authenticated, commit_files, answered, unless_tripped, ask_rest_apis,
  process, entered, enter_running, by_phase, deleted, delete_expired, unscheduled, handle, dispatch,
  reconcile,
}
use git_change_operator.Commit.Reconcile.Conditions.{report-Within}

module _ (P : Platform) (I J : P.World → Type 0) (F : IsPushFrame P I J) where
  finish-After : (sha : Text) → Moves (After P I J F.runs) (After P I J F.runs) (finish P sha)
  unfolding finish
  finish-After sha = search (keeps_rules, modify-Within, update_status-Within) depth 20

  concluded-After :
      (r : Result Text) → Moves (After P I J F.runs) (After P I J F.runs) (concluded P r)
  unfolding concluded
  concluded-After (err e) = report-Within P J F.runs.after _ _ _
  concluded-After (ok sha) = finish-After sha

  late_report :
      (phase : GitCommitPhase) (message : Text) (outcome : Outcome)
      → Moves (Before P I J F.runs) (After P I J F.runs) (report P phase message outcome)
  late_report phase message outcome =
      late P I J F.runs (report-Within P J F.runs.after phase message outcome)

  authenticated-Moves :
      (o : GitCommit) (r : Result BasicAuth)
      → Moves (Before P I J F.runs) (After P I J F.runs) (authenticated P o r)
  unfolding authenticated
  authenticated-Moves o (err e) = late_report _ _ _
  authenticated-Moves o (ok auth) =
      Moves-bind_attempt (outside (perform_git_commit P o auth)) (concluded P)
        (perform-Moves P I J F.runs o auth) (λ e. concluded-After (err e))
        (λ sha. concluded-After (ok sha))

  commit_files-Moves : Moves (Before P I J F.runs) (After P I J F.runs) (commit_files P)
  unfolding commit_files
  commit_files-Moves = prepare P I J F.runs _ _ (get-Within P I F.runs.before (λ o. o)) (λ o.
      Moves-bind_attempt _ (authenticated P o) (auth-Before P I J F.runs o)
        (λ e. authenticated-Moves o (err e)) (λ auth. authenticated-Moves o (ok auth)))

  answered-Moves :
      (r : Result Bool) → Moves (Before P I J F.runs) (After P I J F.runs) (answered P r)
  unfolding answered
  answered-Moves (err e) = late_report _ _ _
  answered-Moves (ok false) = late_report _ _ _
  answered-Moves (ok true) = commit_files-Moves

  unless_tripped-Moves :
      (breaker : Option RestApiStatus)
      → Moves (Before P I J F.runs) (After P I J F.runs) (unless_tripped P breaker)
  unfolding unless_tripped
  unless_tripped-Moves (some st) = late_report _ _ _
  unless_tripped-Moves none =
      Moves-bind_attempt (check_rest_api_conditions P) (answered P)
        (check_rest_api_conditions-Within P I F.runs.probe) (λ e. answered-Moves (err e))
        (λ met. answered-Moves (ok met))

  process-Moves : Moves (Before P I J F.runs) (After P I J F.runs) (process P)
  unfolding process ask_rest_apis
  process-Moves = prepare P I J F.runs _ _ (get-Within P I F.runs.before (λ o. o)) (λ o.
      Moves-if (ltb 0 (length o.spec.rest_apis)) _ _
        (prepare P I J F.runs _ _ (get-Within P I F.runs.before (λ o. o))
          (λ o. unless_tripped-Moves (tripped o.status.rest_api_statuses)))
        commit_files-Moves)

  entered-Moves :
      (r : Result {0} Unit) → Moves (Before P I J F.runs) (After P I J F.runs) (entered P r)
  unfolding entered
  entered-Moves (ok u) = process-Moves
  entered-Moves (err e) =
      late P I J F.runs (Moves-if (is_conflict e) _ _ (Moves-pure _) (Moves-raise e))

  enter_running-Moves : Moves (Before P I J F.runs) (After P I J F.runs) (enter_running P)
  unfolding enter_running
  enter_running-Moves =
      Moves-bind_attempt (update_status P running (text "Processing git commit")) (entered P)
        (update_status-Within P I F.runs.before _ _) (λ e. entered-Moves (err e))
        (λ u. entered-Moves (ok u))

  by_phase-Moves :
      (phase : GitCommitPhase) → Moves (Before P I J F.runs) (After P I J F.runs) (by_phase P phase)
  unfolding by_phase
  by_phase-Moves committed = late P I J F.runs (Moves-pure _)
  by_phase-Moves failed = late P I J F.runs (Moves-pure _)
  by_phase-Moves running = process-Moves
  by_phase-Moves pending = enter_running-Moves
  by_phase-Moves unset = enter_running-Moves

  deleted-Moves :
      (r : Result {0} Unit) → Moves (Before P I J F.runs) (After P I J F.runs) (deleted P r)
  unfolding deleted
  deleted-Moves (ok u) = late P I J F.runs (Moves-pure _)
  deleted-Moves (err e) = late P I J F.runs (Moves-pure _)

  delete_expired-Moves : Moves (Before P I J F.runs) (After P I J F.runs) (delete_expired P)
  unfolding delete_expired
  delete_expired-Moves = prepare P I J F.runs _ _ (get-Within P I F.runs.before (λ o. o)) (λ o.
      Moves-bind_attempt (outside (P.delete_commit o)) (deleted P)
        (Within-outside (P.delete_commit o) (F.delete_commit o)) (λ e. deleted-Moves (err e))
        (λ u. deleted-Moves (ok u)))

  unscheduled-Moves : Moves (Before P I J F.runs) (After P I J F.runs) (unscheduled P)
  unfolding unscheduled
  unscheduled-Moves = prepare P I J F.runs _ _ (get-Within P I F.runs.before (λ o. o)) (λ o.
      prepare P I J F.runs _ _
        (Within-outside (check_ttl_expired P o) (check_ttl_expired-Moves P I F.runs.before.now o))
        (λ b. Moves-if b _ _ delete_expired-Moves (by_phase-Moves o.status.phase)))

  handle-Moves : Moves (Before P I J F.runs) (After P I J F.runs) (handle P)
  unfolding handle
  handle-Moves = prepare P I J F.runs _ _ (get-Within P I F.runs.before (λ o. o)) (λ o.
      Moves-if (is_nil o.spec.schedule) _ _ unscheduled-Moves (handle_scheduled-Moves P I J F.runs))

  dispatch-Moves : (r : Result GitCommit) (w : P.World) → I w → J (dispatch P r w).1
  unfolding dispatch
  dispatch-Moves (ok o) w h = handle-Moves.at (record { world = w; object = o }) h
  dispatch-Moves (err e) w h = elim (Bool-cases (is_not_found e)) [
    | inl y ↦ rw y (F.runs.weaken w h)
    | inr n ↦ rw n (F.runs.weaken w h)
  ]

  -- A reconcile pushes at most once. Put generally: let `I` be a property of the world that implies `J`,
  -- that a push turns into `J`, and that every other call of a reconcile keeps, but for the removal of
  -- the temporary directory; and let `J` be kept by that removal, by the reads and updates of
  -- GitCommits, by the clock and by pauses. If `I` holds before a reconcile, then `J` holds behind it,
  -- for every GitCommit, scheduled or not, and whether its calls fail or not. With `I` for n pushes and
  -- `J` for n or n + 1 pushes, a second push in one reconcile is excluded.
  pub reconcile-pushes :
      (namespace name : Text) (w : P.World) → I w → J (reconcile P namespace name w).1
  unfolding reconcile
  reconcile-pushes namespace name w h =
      dispatch-Moves (P.get_commit namespace name w).0 (P.get_commit namespace name w).1
        (F.runs.before.get_commit namespace name w h)
