-- ===== src/Commit/Status/Blind.antt =====
-- `recordExecution` and the REST statuses of the caller.
use git_change_operator.Base.{
  ℕ, zero, suc, ◌≡◌, refl, Text, Option, List, not, ◌&&◌, ◌==◌, Bool-cases, inl, inr,
}
use git_change_operator.Base.Words.{Time}
use git_change_operator.Effects.{Error, Result, ok, err, Result-cases, Exec, is_conflict}
use git_change_operator.Api.Rest.{RestApiStatus}
use git_change_operator.Api.Commit.{GitCommit, GitCommitPhase}
use git_change_operator.Platform.{Platform}
use git_change_operator.Commit.Status.{
  State, max_retries, pause, settle, conclude_update, execution_loop, record_execution,
}
use git_change_operator.Commit.Status.Patches.{patch_execution}

module _ (P : Platform) where
  -- The caller's object with other REST statuses.
  abbrev pub with_statuses : List RestApiStatus → State P → State P
  with_statuses xs s = record s {
    object = record s.object { status = record s.object.status { rest_api_statuses = xs } };
  }

  -- The other statuses stay only behind an error.
  abbrev pub unless_ok : List RestApiStatus → Result {0} Unit × State P → Result {0} Unit × State P
  unless_ok xs (ok u, s) = (ok u, s)
  unless_ok xs (err e, s) = (err e, with_statuses xs s)

  -- A call that does not read the caller's REST statuses.
  IsBlind : Exec (State P) Unit → Type 0
  IsBlind m = (xs : List RestApiStatus) (s : State P) → m (with_statuses xs s) ≡ unless_ok xs (m s)

  settle-IsBlind :
      (left : ℕ) (e : Error) (again : Exec (State P) Unit)
      → IsBlind again
      → IsBlind (settle P left e again)
  unfolding settle IsBlind
  settle-IsBlind left e again k xs s = elim (Bool-cases (is_conflict e && not (left == 0))) [
    | inl y ↦ rw (y, k xs (record s { world = P.sleep pause s.world })) refl
    | inr n ↦ rw n refl
  ]

  conclude_update-IsBlind :
      (left : ℕ) (again : Exec (State P) Unit) (r : Result GitCommit)
      → IsBlind again
      → IsBlind (conclude_update P left again r)
  unfolding conclude_update IsBlind
  conclude_update-IsBlind left again (ok o) k xs s = refl
  conclude_update-IsBlind left again (err e) k xs s = settle-IsBlind left e again k xs s

  execution_loop-IsBlind :
      (sha : Text) (phase : GitCommitPhase) (message : Text) (next : Option Time) (n : ℕ)
      → IsBlind (execution_loop P n sha phase message next)
  unfolding execution_loop IsBlind patch_execution
  execution_loop-IsBlind sha phase message next zero xs s = refl
  execution_loop-IsBlind sha phase message next (suc n) xs s =
      elim (Result-cases (P.get_commit s.object.namespace s.object.name s.world).0) [
        | inl (fresh, e) ↦
            let (t, w) = P.now (P.get_commit s.object.namespace s.object.name s.world).1 in
            let (r, w') =
              P.update_commit_status (patch_execution sha phase message next t s.object fresh) w in
            rw e (
              conclude_update-IsBlind n (execution_loop P n sha phase message next) r
                (execution_loop-IsBlind sha phase message next n) xs (record s { world = w' }))
        | inr (x, e) ↦ rw e refl
      ]

  -- The REST statuses of the caller's object never reach the API server by `recordExecution`: with any
  -- others in their place it makes the same calls to the world and gives the same result and, where it
  -- succeeds, the same object.
  pub record_execution-IsBlind :
      (sha : Text) (phase : GitCommitPhase) (message : Text) (next : Option Time)
      (xs : List RestApiStatus) (s : State P)
      → record_execution P sha phase message next (with_statuses xs s)
        ≡ unless_ok xs (record_execution P sha phase message next s)
  unfolding record_execution IsBlind
  record_execution-IsBlind sha phase message next xs s =
      execution_loop-IsBlind sha phase message next max_retries xs s
