-- ===== src/Pull/RestCheck/Met.antt =====
-- What `checkRestAPIConditions` of the PullRequest controller leaves in the statuses when it answers true.
use git_change_operator.Base.{◌≡◌, refl, Text, text, true}
use git_change_operator.Effects.{ok, Held}
use git_change_operator.Api.Rest.{RestApi}
use git_change_operator.Api.Pull.{PullRequest}
use git_change_operator.Platform.{Platform}
use git_change_operator.RestCall.{Probe}
use git_change_operator.RestCall.Met.{Answers}
use git_change_operator.RestCall.Met.Calls.{ask_api-Answers}
use git_change_operator.RestCall.AllMet.{AllMet, check_all-AllMet}
use git_change_operator.Pull.RestCheck.{check_single, check_rest_api_conditions}

module _ (P : Platform) where
  check_single-Answers :
      (namespace : Text) (api : RestApi) (s : Probe P)
      → Answers api (check_single P namespace api s)
  unfolding check_single
  check_single-Answers namespace api s =
      ask_api-Answers P (text "pullrequest") api namespace
        (record { world = s.world; object = record s.object { name = api.name } }) refl

  -- A check of the REST APIs of a PullRequest that answers true leaves one status for each of its APIs, in
  -- their order: each has its API's name, a met condition, no error and a status code that the API
  -- accepts.
  pub pull_check_rest_api_conditions-AllMet :
      (s : Held P.World PullRequest)
      → (check_rest_api_conditions P s).0 ≡ ok true
      → AllMet s.object.spec.rest_apis
          (check_rest_api_conditions P s).1.object.status.rest_api_statuses
  unfolding check_rest_api_conditions
  pull_check_rest_api_conditions-AllMet s h =
      check_all-AllMet P (check_single P s.object.namespace)
        (check_single-Answers s.object.namespace) s.object.spec.rest_apis
        s.object.status.rest_api_statuses s.world h
