-- ===== src/Commit/Reconcile/Conditions.antt =====
-- `Reconcile` from the REST conditions on.
use git_change_operator.Base.{◌<◌, ◌≢◌, refl, Text, Bool, true, false, Option, none, some}
use git_change_operator.Base.{length, ltb_iff}
use git_change_operator.Effects.{Result, ok, err}
use git_change_operator.Effects.Moves.{Moves, keeps_rules}
use git_change_operator.Api.Rest.{RestApiStatus}
use git_change_operator.Api.Commit.{GitCommitPhase}
use git_change_operator.Platform.{Platform}
use git_change_operator.Platform.Frames.{IsProbeFrame}
use git_change_operator.Commit.Status.{State}
use git_change_operator.Platform.Frames.{IsStatusFrame}
use git_change_operator.Commit.Status.Quiet.{Within, update_status-Within}
use git_change_operator.Commit.RestCheck.{check_rest_api_conditions}
use git_change_operator.Commit.RestCheck.Frames.{check_rest_api_conditions-Within}
use git_change_operator.Commit.Outcome.{Outcome, tripped}
use git_change_operator.Commit.Reconcile.{report, answered, unless_tripped, ask_rest_apis, process}

module _ (P : Platform) (I : P.World → Type 0) (F : IsStatusFrame P I) where
  pub report-Within :
      (phase : GitCommitPhase) (message : Text) (outcome : Outcome)
      → Moves (Within P I F) (Within P I F) (report P phase message outcome)
  unfolding report
  report-Within phase message outcome = search (keeps_rules, update_status-Within) depth 20

module _ (P : Platform) (I : P.World → Type 0) (F : IsStatusFrame P I) (G : IsProbeFrame P I) where
  answered-Within :
      (r : Result Bool) (s : State P) → r ≢ ok true → I s.world → I (answered P r s).1.world
  unfolding answered
  answered-Within (err e) s unmet h = (report-Within P I F _ _ _).at s h
  answered-Within (ok false) s unmet h = (report-Within P I F _ _ _).at s h
  answered-Within (ok true) s unmet h = absurd (unmet refl)

  unless_tripped-Within :
      (breaker : Option RestApiStatus) (s : State P)
      → I s.world
      → (check_rest_api_conditions P s).0 ≢ ok true
      → I (unless_tripped P breaker s).1.world
  unfolding unless_tripped
  unless_tripped-Within (some st) s h unmet = (report-Within P I F _ _ _).at s h
  unless_tripped-Within none s h unmet =
      answered-Within (check_rest_api_conditions P s).0 (check_rest_api_conditions P s).1 unmet
        ((check_rest_api_conditions-Within P I G).at s h)

  -- A GitCommit without a schedule whose spec names REST APIs, and whose check of them does not answer
  -- that all conditions are met (it fails, or one is not met): from the check on, `Reconcile` does
  -- nothing to the world but what the check itself and the updates of the status do. Each property `I`
  -- of the world that the clock, pauses, reads and updates of GitCommits, reads of secrets, HTTP
  -- requests, metrics and CEL evaluations keep still holds behind it. So nothing is cloned, written,
  -- committed, pushed or deleted.
  pub process-Within :
      (s : State P)
      → I s.world
      → 0 < length s.object.spec.rest_apis
      → (check_rest_api_conditions P s).0 ≢ ok true
      → I (process P s).1.world
  unfolding process ask_rest_apis
  process-Within s h some_apis unmet =
      rw ((ltb_iff 0 (length s.object.spec.rest_apis)).1 some_apis)
        (unless_tripped-Within (tripped s.object.status.rest_api_statuses) s h unmet)
