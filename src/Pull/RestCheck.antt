-- ===== src/Pull/RestCheck.antt =====
-- `checkRestAPIConditions` of the PullRequest controller, whose `checkSingleRestAPICondition` has no
-- circuit breaker.
pub mod Frames
pub mod Met
use git_change_operator.Base.{Text, text, Bool}
use git_change_operator.Effects.{Exec, ◌>>=◌, ◌>>◌, Held, modify}
use git_change_operator.Api.Rest.{RestApi}
use git_change_operator.Api.Pull.{PullRequest}
use git_change_operator.Platform.{Platform}
use git_change_operator.RestCall.{Probe, ask_api, check_all}

module _ (P : Platform) where
  open P use {World}

  unfoldable pub check_single : Text → RestApi → Exec (Probe P) Bool
  check_single namespace api = do
    modify (λ st. record st { name = api.name })
    ask_api P (text "pullrequest") namespace api

  unfoldable pub check_rest_api_conditions : Exec (Held World PullRequest) Bool
  check_rest_api_conditions s =
      let o = s.object in
      let (r, t) =
        check_all P (check_single o.namespace) o.spec.rest_apis o.status.rest_api_statuses
          s.world in
      (
        r,
        record {
          world = t.world;
          object = record o { status = record o.status { rest_api_statuses = t.object } };
        },
      )
