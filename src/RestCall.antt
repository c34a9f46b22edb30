-- ===== src/RestCall.antt =====
-- One REST API: the HTTP request, the test of its status code and the CEL processing of its body, which
-- `checkSingleRestAPICondition` of both controllers share word for word, and the loop over all APIs. The
-- collector of the metrics has the name of its controller.
pub mod Laws
pub mod All
pub mod Frames
pub mod Met
pub mod AllMet
use git_change_operator.Base.{ℕ, Text, text, Bool, true, false, not, ◌&&◌, ◌||◌, ◌*◌, ◌-◌, ◌+◌}
use git_change_operator.Base.{
  Option, none, some, List, [], ◌∷◌, ◌++◌, if◌then◌else◌, ◌==◌, ltb, leb,
}
use git_change_operator.Base.{is_nil, length, take, replicate, decimal}
use git_change_operator.Base.Words.{Time, second, increment, at_least}
use git_change_operator.Effects.{
  Error, other, panic, error_text, Result, ok, err, wrap, Exec, pure, raise, lift, attempt, wrapped,
  ◌>>=◌, ◌>>◌, Held, outside, get, modify,
}
use git_change_operator.Api.Rest.{RestApi, RestApiStatus, ResponseParsing, new_status}
use git_change_operator.Api.Commit.{GitCommit}
use git_change_operator.Platform.{Platform, HttpRequest}
use git_change_operator.Cel.{new_evaluator, process_response, ProcessResult}
use git_change_operator.Metrics.{
  record_api_request, record_condition_check, record_json_parsing_error,
}
use git_change_operator.Commit.Secrets.{get_token_from_secret}

unfoldable pub method_of : RestApi → Text
method_of api = if is_nil api.method then text "GET" else api.method

-- In nanoseconds.
unfoldable pub timeout_of : RestApi → ℕ
timeout_of api = (if ltb 0 api.timeout_seconds then api.timeout_seconds else 30) * second

-- The range over the expected codes, up to the first that fits.
expects : ℕ → List ℕ → Bool
expects code [] = false
expects code (c ∷ cs) = code == c || expects code cs

unfoldable pub http_condition_met : RestApi → ℕ → Bool
unfolding expects
http_condition_met api code =
    if ltb 0 (length api.expected_status_codes)
    then expects code api.expected_status_codes
    else leb code (if ltb 0 api.max_status_code then api.max_status_code else 399)

-- The response as the status keeps it.
unfoldable pub truncate : Text → Text
truncate body = if ltb 1024 (length body) then take 1024 body ++ text "... (truncated)" else body

module _ (P : Platform) where
  open P use {World, now, Body, check_request, http_do, read_body}

  abbrev pub Probe : Type 0
  Probe = Held World RestApiStatus

  clock : Exec Probe Time
  clock = outside (λ w. let (t, w') = now w in (ok t, w'))

  -- The `Authorization` header, where a secret is named.
  auth_headers : Text → RestApi → Exec World (List (Text × Text))
  auth_headers namespace api = if is_nil api.auth_secret_ref then pure [] else do
    token ←
        wrapped (text "failed to get auth token: ")
          (get_token_from_secret P namespace api.auth_secret_ref api.auth_secret_key)
    pure ((text "Authorization", text "Bearer " ++ token) ∷ [])

  build_request : Text → RestApi → Exec World HttpRequest
  build_request namespace api = do
    wrapped (text "failed to create HTTP request: ") (lift (check_request (method_of api) api.url))
    extra ← auth_headers namespace api
    pure (record {
      method = method_of api;
      url = api.url;
      body = if is_nil api.body then none else some api.body;
      headers = api.headers ++ extra;
      timeout = timeout_of api;
    })

module _ (P : Platform) (controller : Text) where
  open P use {World, Body, http_do, read_body}

  -- The three counters of the collector, on the world of the status.
  count_request : RestApi → Text → ℕ → ℕ → Exec (Probe P) Unit
  count_request api code duration size =
      outside (record_api_request P controller api.url (method_of api) code duration size)

  count_condition : Text → Exec (Probe P) Unit
  count_condition result = outside (record_condition_check P controller result)

  count_parse_error : Text → Exec (Probe P) Unit
  count_parse_error kind = outside (record_json_parsing_error P controller kind)

  -- The last step of `processJSONResponse`: a condition that is not met writes nothing.
  store_result : ProcessResult → Exec (Probe P) Bool
  store_result r =
      if r.condition_met
      then (do
        modify (λ st. record st {
          extracted_data = r.extracted_data;
          formatted_output = r.formatted_output;
        })
        pure true)
      else pure false

  process_json_response : Text → ResponseParsing → Exec (Probe P) Bool
  process_json_response body parsing = elim (new_evaluator P) [
    | err e ↦ do
      count_parse_error (text "cel_evaluator_creation_failed")
      raise (wrap (text "failed to create CEL evaluator: ") e)
    | ok env ↦ do
      r ← attempt (
          outside (
            process_response P env (record {
              condition = parsing.condition;
              data_expression = parsing.data_expression;
              output_format = parsing.output_format;
              response_data = body;
            })))
      elim r [
        | err e ↦ do
          count_parse_error (text "cel_processing_failed")
          raise (wrap (text "failed to process JSON response with CEL: ") e)
        | ok result ↦ store_result result
      ]
  ]

  -- The status and the counters after a response whose code was accepted.
  conclude : Bool → Exec (Probe P) Bool
  conclude met = do
    modify (λ st. record st { condition_met = met; last_error = [] })
    if met
        then (do
          modify (λ st. record st { success_count = increment st.success_count })
          count_condition (text "success"))
        else count_condition (text "json_condition_failed")
    pure met

  parse_if_configured : Text → Option ResponseParsing → Exec (Probe P) Bool
  parse_if_configured body none = pure true
  parse_if_configured body (some parsing) = do
    r ← attempt (process_json_response body parsing)
    elim r [
      | ok met ↦ pure met
      | err e ↦ do
        count_parse_error (text "processing_failed")
        modify (λ st. record st { last_error = text "JSON processing failed: " ++ error_text e })
        raise (wrap (text "JSON processing failed: ") e)
    ]

  judge_response : RestApi → ℕ → Text → Exec (Probe P) Bool
  judge_response api code body =
      if http_condition_met api code
      then (do met ← parse_if_configured body api.response_parsing; conclude met)
      else do
        count_condition (text "http_status_failed")
        modify (λ st. record st {
          condition_met = false;
          last_error = text "HTTP status condition not met: " ++ decimal code;
        })
        pure false

  receive : RestApi → ℕ → ℕ → Body → Exec (Probe P) Bool
  receive api duration code body = do
    modify (λ st. record st { last_status_code = code })
    r ← attempt (outside (read_body body))
    elim r [
      | err e ↦ do
        count_request api (decimal code) duration 0
        modify (λ st. record st { last_error = text "failed to read response: " ++ error_text e })
        raise (wrap (text "failed to read response body: ") e)
      | ok content ↦ do
        count_request api (decimal code) duration (length content)
        modify (λ st. record st { last_response = truncate content })
        judge_response api code content
    ]

  call_api : RestApi → HttpRequest → Exec (Probe P) Bool
  call_api api request = do
    start ← clock P
    r ← attempt (outside (http_do request))
    stop ← clock P
    t ← clock P
    modify (λ st. record st { last_call_time = some t; call_count = increment st.call_count })
    elim r [
      | err e ↦ do
        count_request api (text "error") (stop - start) 0
        modify (λ st. record st { last_error = error_text e })
        raise (wrap (text "HTTP request failed: ") e)
      | ok (code, body) ↦ receive api (stop - start) code body
    ]

  -- The request and the call, once the status has its name.
  ask : Text → RestApi → Exec (Probe P) Bool
  ask namespace api = do request ← outside (build_request P namespace api); call_api api request

  unfoldable pub ask_api : Text → RestApi → Exec (Probe P) Bool
  unfolding ask clock auth_headers build_request count_request count_condition count_parse_error
      store_result process_json_response conclude parse_if_configured judge_response receive
      call_api
  ask_api = ask

module _ (P : Platform) where
  open P use {World}

  abbrev pub Checked : Type 0
  Checked = Result Bool × Held World (List RestApiStatus)

  -- Puts the status of the first API before those of the others.
  abbrev pub cons_status : Bool → RestApiStatus → Checked → Checked
  cons_status met st (ok all, t) =
      (ok (met && all), record { world = t.world; object = st ∷ t.object })
  cons_status met st (err e, t) = (err e, record { world = t.world; object = st ∷ t.object })

  -- What follows the check of one API: nothing after an error, else the rest.
  pub after_check : List RestApiStatus → Result Bool → Held World RestApiStatus → Checked → Checked
  after_check sts (err e) t rest = (err e, record { world = t.world; object = t.object ∷ sts })
  after_check sts (ok met) t rest = cons_status met t.object rest

module _ (P : Platform) (single : RestApi → Exec (Held (Platform.World P) RestApiStatus) Bool) where
  open P use {World}

  -- The loop over the APIs, each with a pointer to its own status. It stops at an error. The second
  -- clause is the panic of an index out of range: the caller gives slices of one length.
  pub check_each : List RestApi → List RestApiStatus → World → Checked P
  check_each [] sts w = (ok true, record { world = w; object = sts })
  check_each (a ∷ as') [] w =
      (err (panic (text "index out of range")), record { world = w; object = [] })
  check_each (a ∷ as') (st ∷ sts) w =
      let (r, t) = single a (record { world = w; object = st }) in
      let rest = check_each as' sts t.world in after_check P sts r t rest

-- A slice of the right length is kept, any other is made anew.
unfoldable pub ensure_statuses : List RestApi → List RestApiStatus → List RestApiStatus
ensure_statuses apis statuses =
    if length statuses == length apis then statuses else replicate (length apis) new_status

module _ (P : Platform) (single : RestApi → Exec (Held (Platform.World P) RestApiStatus) Bool) where
  -- The loop, from statuses of the right number on.
  unfoldable pub check_all : List RestApi → List RestApiStatus → Platform.World P → Checked P
  unfolding check_each after_check
  check_all apis statuses w = check_each P single apis (ensure_statuses apis statuses) w
