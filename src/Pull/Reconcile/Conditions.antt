-- ===== src/Pull/Reconcile/Conditions.antt =====
-- `Reconcile` of a PullRequest from the REST conditions on.
use git_change_operator.Base.{◌<◌, ◌≢◌, refl, Text, Bool, true, false, length, ltb_iff}
use git_change_operator.Effects.{Result, ok, err}
use git_change_operator.Effects.Moves.{Moves, keeps_rules}
use git_change_operator.Api.Pull.{PullRequestPhase}
use git_change_operator.Platform.{Platform}
use git_change_operator.Platform.Frames.{IsPullStatusFrame, IsProbeFrame}
use git_change_operator.Pull.Status.{State}
use git_change_operator.Pull.Status.Quiet.{Within, update_status-Within}
use git_change_operator.Pull.RestCheck.{check_rest_api_conditions}
use git_change_operator.Pull.RestCheck.Frames.{check_rest_api_conditions-Within}
use git_change_operator.Pull.Reconcile.{report, answered, ask_rest_apis, process}

module _ (P : Platform) (I : P.World → Type 0) (F : IsPullStatusFrame P I) where
  pub report-Within :
      (phase : PullRequestPhase) (message : Text)
      → Moves (Within P I F) (Within P I F) (report P phase message)
  unfolding report
  report-Within phase message = search (keeps_rules, update_status-Within) depth 20

module _ (P : Platform) (I : P.World → Type 0) (F : IsPullStatusFrame P I)
    (G : IsProbeFrame P I) where
  answered-Within :
      (r : Result Bool) (s : State P) → r ≢ ok true → I s.world → I (answered P r s).1.world
  unfolding answered
  answered-Within (err e) s unmet h = (report-Within P I F _ _).at s h
  answered-Within (ok false) s unmet h = (report-Within P I F _ _).at s h
  answered-Within (ok true) s unmet h = absurd (unmet refl)

  -- A PullRequest without a schedule whose spec names REST APIs, and whose check of them does not answer
  -- that all conditions are met (it fails, or one is not met): from the check on, `Reconcile` does
  -- nothing to the world but what the check itself and updates of the status do. Each property `I` of
  -- the world that the clock, pauses, reads and updates of PullRequests, reads of secrets, HTTP
  -- requests, metrics and CEL evaluations keep still holds behind it. So nothing is cloned, written,
  -- pushed, created or deleted.
  pub pull_process-Within :
      (s : State P)
      → I s.world
      → 0 < length s.object.spec.rest_apis
      → (check_rest_api_conditions P s).0 ≢ ok true
      → I (process P s).1.world
  unfolding process ask_rest_apis
  pull_process-Within s h some_apis unmet =
      rw ((ltb_iff 0 (length s.object.spec.rest_apis)).1 some_apis) (
        answered-Within (check_rest_api_conditions P s).0 (check_rest_api_conditions P s).1 unmet
          ((check_rest_api_conditions-Within P I G).at s h))
