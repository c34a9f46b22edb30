-- ===== src/Commit/RestCheck/All.antt =====
-- What the check of all REST APIs leaves in the statuses.
use git_change_operator.Base.{◌≡◌, arith, length, All}
use git_change_operator.Effects.{Held}
use git_change_operator.Api.Commit.{GitCommit}
use git_change_operator.Platform.{Platform}
use git_change_operator.RestCall.Laws.{IsCounted}
use git_change_operator.RestCall.All.{check_all-IsKept}
use git_change_operator.Commit.RestCheck.{check_single, check_rest_api_conditions}
use git_change_operator.Commit.RestCheck.Laws.{check_single-IsCounted}

module _ (P : Platform) where
  -- Whatever the REST APIs answer, and whether the check returns or fails: if every status has made at
  -- most 10 calls and counts no more successes than calls, then so has every status behind it, and there
  -- is one status for each API of the spec.
  pub check_rest_api_conditions-IsCounted :
      (s : Held P.World GitCommit)
      → All IsCounted s.object.status.rest_api_statuses
      → let t = (check_rest_api_conditions P s).1.object in
        All IsCounted t.status.rest_api_statuses
        × (length t.status.rest_api_statuses ≡ length s.object.spec.rest_apis)
  unfolding check_rest_api_conditions
  check_rest_api_conditions-IsCounted s h =
      let o = s.object in
      check_all-IsKept P (check_single P o.namespace) IsCounted
        (check_single-IsCounted P o.namespace) o.spec.rest_apis o.status.rest_api_statuses s.world
        (omega arith) h
