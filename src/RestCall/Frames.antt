-- ===== src/RestCall/Frames.antt =====
-- What a call of a REST API, and a check of all, touch of the world.
use git_change_operator.Base.{ℕ, Text, Bool, true, Option, none, some, List, [], ◌∷◌, inl, inr}
use git_change_operator.Effects.{Exec, Result, ok, err, outside, get, modify, Result-cases}
use git_change_operator.Effects.Moves.{Moves, Moves-pure, Within-outside, keeps_rules}
use git_change_operator.Api.Rest.{RestApi, RestApiStatus, ResponseParsing}
use git_change_operator.Platform.{Platform, HttpRequest}
use git_change_operator.Platform.Frames.{IsProbeFrame}
use git_change_operator.Metrics.Laws.{
  record_api_request-Within, record_condition_check-Within, record_json_parsing_error-Within,
}
use git_change_operator.Cel.{ProcessRequest, ProcessResult, new_evaluator}
use git_change_operator.Cel.Frames.{process_response-Moves}
use git_change_operator.Commit.Secrets.{get_token_from_secret}
use git_change_operator.RestCall.{
  Probe, Checked, clock, auth_headers, build_request, count_request, count_condition,
  count_parse_error, store_result, process_json_response, conclude, parse_if_configured,
  judge_response, receive, call_api, check_each, after_check, ask, ask_api, check_all,
}

module _ (P : Platform) (C : Text) (I : P.World → Type 0) (F : IsProbeFrame P I) where
  abbrev pub Within : Probe P → Type 0
  Within s = I s.world

  get_secret-Moves : (namespace name : Text) → Moves I I (P.get_secret namespace name)
  get_secret-Moves namespace name = record { at = λ w h. F.get_secret namespace name w h }

  get_token_from_secret-Moves :
      (namespace name key : Text) → Moves I I (get_token_from_secret P namespace name key)
  unfolding get_token_from_secret
  get_token_from_secret-Moves namespace name key = search (keeps_rules, get_secret-Moves) depth 20

  auth_headers-Moves : (namespace : Text) (api : RestApi) → Moves I I (auth_headers P namespace api)
  unfolding auth_headers
  auth_headers-Moves namespace api = search (keeps_rules, get_token_from_secret-Moves) depth 20

  build_request-Moves :
      (namespace : Text) (api : RestApi) → Moves I I (build_request P namespace api)
  unfolding build_request
  build_request-Moves namespace api = search (keeps_rules, auth_headers-Moves) depth 20

  clock-Within : Moves Within Within (clock P)
  unfolding clock
  clock-Within = record { at = λ s h. F.now s.world h }

  pub get-Within : {B : Type 0} (f : RestApiStatus → B) → Moves Within Within (get {W = P.World} f)
  get-Within f = record { at = λ s h. h }

  pub modify-Within :
      (f : RestApiStatus → RestApiStatus) → Moves Within Within (modify {W = P.World} f)
  modify-Within f = record { at = λ s h. h }

  count_request-Within :
      (api : RestApi) (code : Text) (duration size : ℕ)
      → Moves Within Within (count_request P C api code duration size)
  unfolding count_request
  count_request-Within api code duration size = record {
    at = λ s h. (record_api_request-Within P I F.metrics C _ _ _ _ _).at s.world h;
  }

  count_condition-Within : (result : Text) → Moves Within Within (count_condition P C result)
  unfolding count_condition
  count_condition-Within result = record {
    at = λ s h. (record_condition_check-Within P I F.metrics C result).at s.world h;
  }

  count_parse_error-Within : (kind : Text) → Moves Within Within (count_parse_error P C kind)
  unfolding count_parse_error
  count_parse_error-Within kind = record {
    at = λ s h. (record_json_parsing_error-Within P I F.metrics C kind).at s.world h;
  }

  ruleset probe_rules = (
    keeps_rules, clock-Within, get-Within, modify-Within, count_request-Within,
    count_condition-Within, count_parse_error-Within,
  )

  store_result-Within : (r : ProcessResult) → Moves Within Within (store_result P C r)
  unfolding store_result
  store_result-Within r = search probe_rules depth 20

  process_response-Within :
      (env : P.CelEnv) (req : ProcessRequest)
      → Moves Within Within (outside (git_change_operator.Cel.process_response P env req))
  process_response-Within env req = Within-outside _ (process_response-Moves P I F env req)

  process_json_response-Within :
      (body : Text) (parsing : ResponseParsing)
      → Moves Within Within (process_json_response P C body parsing)
  unfolding process_json_response
  process_json_response-Within body parsing = elim (Result-cases (new_evaluator P)) [
    | inl (env, e) ↦
        rw (e, process_json_response)
          (search (probe_rules, store_result-Within, process_response-Within) depth 20)
    | inr (x, e) ↦ rw (e, process_json_response) (search probe_rules depth 20)
  ]

  parse_if_configured-Within :
      (body : Text) (parsing : Option ResponseParsing)
      → Moves Within Within (parse_if_configured P C body parsing)
  unfolding parse_if_configured
  parse_if_configured-Within body none = Moves-pure true
  parse_if_configured-Within body (some parsing) =
      search (probe_rules, process_json_response-Within) depth 20

  conclude-Within : (met : Bool) → Moves Within Within (conclude P C met)
  unfolding conclude
  conclude-Within met = search probe_rules depth 20

  judge_response-Within :
      (api : RestApi) (code : ℕ) (body : Text)
      → Moves Within Within (judge_response P C api code body)
  unfolding judge_response
  judge_response-Within api code body =
      search (probe_rules, parse_if_configured-Within, conclude-Within) depth 20

  read_body-Within : (body : P.Body) → Moves Within Within (outside (P.read_body body))
  read_body-Within body = record { at = λ s h. F.read_body body s.world h }

  receive-Within :
      (api : RestApi) (duration code : ℕ) (body : P.Body)
      → Moves Within Within (receive P C api duration code body)
  unfolding receive
  receive-Within api duration code body =
      search (probe_rules, judge_response-Within, read_body-Within) depth 20

  http_do-Within : (request : HttpRequest) → Moves Within Within (outside (P.http_do request))
  http_do-Within request = record { at = λ s h. F.http_do request s.world h }

  call_api-Within :
      (api : RestApi) (request : HttpRequest) → Moves Within Within (call_api P C api request)
  unfolding call_api
  call_api-Within api request = search (probe_rules, receive-Within, http_do-Within) depth 30

  request-Within :
      (namespace : Text) (api : RestApi)
      → Moves Within Within (outside (build_request P namespace api))
  request-Within namespace api = Within-outside _ (build_request-Moves namespace api)

  pub ask_api-Within :
      (namespace : Text) (api : RestApi) → Moves Within Within (ask_api P C namespace api)
  unfolding ask_api ask
  ask_api-Within namespace api = search (probe_rules, call_api-Within, request-Within) depth 20

module _ (P : Platform) (I : P.World → Type 0) (single : RestApi → Exec (Probe P) Bool)
    (keeps : (a : RestApi) → Moves {S = Probe P} (λ s. I s.world) (λ s. I s.world) (single a)) where
  after_check-Within :
      (sts : List RestApiStatus) (r : Result Bool) (t : Probe P) (rest : Checked P)
      → I t.world
      → I rest.1.world
      → I (after_check P sts r t rest).1.world
  unfolding after_check
  after_check-Within sts (ok met) t (ok all, u) h k = k
  after_check-Within sts (ok met) t (err e, u) h k = k
  after_check-Within sts (err e) t rest h k = h

  check_each-Within :
      (apis : List RestApi) (sts : List RestApiStatus) (w : P.World)
      → I w
      → I (check_each P single apis sts w).1.world
  unfolding check_each
  check_each-Within [] sts w h = h
  check_each-Within (a ∷ as') [] w h = h
  check_each-Within (a ∷ as') (st ∷ sts) w h =
      let (r, t) = single a (record { world = w; object = st }) in
      let k = (keeps a).at (record { world = w; object = st }) h in
      after_check-Within sts r t (check_each P single as' sts t.world) k
        (check_each-Within as' sts t.world k)

  pub check_all-Within :
      (apis : List RestApi) (sts : List RestApiStatus) (w : P.World)
      → I w
      → I (check_all P single apis sts w).1.world
  unfolding check_all
  check_all-Within apis sts w h = check_each-Within apis _ w h
