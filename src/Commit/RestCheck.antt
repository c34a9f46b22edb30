-- ===== src/Commit/RestCheck.antt =====
-- `checkRestAPIConditions` of the GitCommit controller, with the circuit breaker of its
-- `checkSingleRestAPICondition`.
pub mod Laws
pub mod All
pub mod Frames
pub mod Met
use git_change_operator.Base.{ℕ, Text, text, Bool, true, false, not, ◌&&◌, ◌||◌, ◌*◌, ◌-◌, ◌+◌}
use git_change_operator.Base.{
  Option, none, some, List, [], ◌∷◌, ◌++◌, if◌then◌else◌, ◌==◌, ltb, leb,
}
use git_change_operator.Base.{is_nil, length, take, replicate, decimal}
use git_change_operator.Base.Words.{Time, second, increment, at_least}
use git_change_operator.Effects.{
  Error, other, error_text, Result, ok, err, wrap, Exec, pure, raise, lift, attempt, wrapped, ◌>>=◌,
  ◌>>◌, Held, outside, get, modify,
}
use git_change_operator.Api.Rest.{RestApi, RestApiStatus, ResponseParsing, new_status}
use git_change_operator.Api.Commit.{GitCommit}
use git_change_operator.Platform.{Platform, HttpRequest}
use git_change_operator.Cel.{new_evaluator, process_response, ProcessResult}
use git_change_operator.Metrics.{
  record_api_request, record_condition_check, record_json_parsing_error,
}
use git_change_operator.Commit.Secrets.{get_token_from_secret}
use git_change_operator.RestCall.{Probe, ask_api, check_all}

-- `const maxRetries = 10` of the circuit breaker.
abbrev pub max_calls : ℕ
max_calls = 10

module _ (P : Platform) where
  open P use {World}

  probe_api : Text → RestApi → Exec (Probe P) Bool
  probe_api namespace api = do
    modify (λ st. record st { name = api.name })
    calls ← get (λ st. st.call_count)
    if at_least calls max_calls
        then (do
          modify (λ st. record st {
            last_error = text "Circuit breaker activated: maximum retries (10) exceeded";
          })
          pure false)
        else ask_api P (text "gitcommit") namespace api

  unfoldable pub check_single : Text → RestApi → Exec (Probe P) Bool
  unfolding probe_api
  check_single = probe_api

  unfoldable pub check_rest_api_conditions : Exec (Held World GitCommit) Bool
  check_rest_api_conditions s =
      let o = s.object in
      let (r, t) =
        check_all P (check_single o.namespace) o.spec.rest_apis o.status.rest_api_statuses
          s.world in
      (
        r,
        record {
          world = t.world;
          object = record o { status = record o.status { rest_api_statuses = t.object } };
        },
      )
