-- ===== src/RestCall/Met.antt =====
-- What a check that finds its conditions met leaves in the statuses.
pub mod Calls
use git_change_operator.Base.{
  ℕ, ◌≡◌, ◌≢◌, refl, ◌∙◌, Text, Bool, true, false, Option, none, some, [], arith, Bool-cases, inl,
  inr,
}
use git_change_operator.Effects.{
  Error, Result, ok, err, Exec, Held, outside, modify, attempt, pure, raise, and_then, ◌>>=◌,
  Result-cases,
}
use git_change_operator.Effects.Rules.{Post, Post-bind}
use git_change_operator.Effects.Moves.{Moves, Moves-pure, keeps_rules, kept}
use git_change_operator.Api.Rest.{RestApi, RestApiStatus, ResponseParsing}
use git_change_operator.Platform.{Platform, HttpRequest}
use git_change_operator.Cel.{ProcessResult, new_evaluator}
use git_change_operator.Metrics.{record_condition_check}
use git_change_operator.RestCall.{
  Probe, clock, ask, ask_api, http_condition_met, store_result, process_json_response, conclude,
  parse_if_configured, judge_response, receive, call_api, count_parse_error, count_condition,
  count_request,
}

-- The status of an API whose condition is met: it has the API's name, no error, and a status code that
-- the API accepts.
pub record IsMet (api : RestApi) (st : RestApiStatus) : Type 0 where
  pub named : st.name ≡ api.name
  pub met : st.condition_met ≡ true
  pub no_error : st.last_error ≡ []
  pub accepted : http_condition_met api st.last_status_code ≡ true

-- The answer of a check, and what a positive one says of the status.
abbrev pub Answers : {W : Type 0} → RestApi → Result Bool × Held W RestApiStatus → Type 0
Answers api p = Post (λ b t. b ≡ true → IsMet api t.object) (λ e t. Unit {0}) p

pub false_ne_true : false ≢ true
false_ne_true h = cc

-- The status has its name.
abbrev Named : {W : Type 0} → RestApi → Held W RestApiStatus → Type 0
Named api s = s.object.name ≡ api.name

-- And the code of the response.
abbrev Coded : {W : Type 0} → RestApi → ℕ → Held W RestApiStatus → Type 0
Coded api code s = (s.object.name ≡ api.name) × (s.object.last_status_code ≡ code)

module _ (P : Platform) (C : Text) (api : RestApi) where
  module _ (code : ℕ) where
    store_result-Coded :
        (r : ProcessResult) → Moves (Coded api code) (Coded api code) (store_result P C r)
    unfolding store_result
    store_result-Coded r = record { at = λ s h. ground arith }

    outside-Coded :
        {B : Type 0} (m : Exec P.World B) → Moves (Coded api code) (Coded api code) (outside m)
    outside-Coded m = record { at = λ s h. h }

    count_parse_error-Coded :
        (kind : Text) → Moves (Coded api code) (Coded api code) (count_parse_error P C kind)
    unfolding count_parse_error
    count_parse_error-Coded kind = record { at = λ s h. h }

    error-Coded :
        (message : Text)
        → Moves
            (Coded api code)
            (Coded api code)
            (modify {W = P.World} (λ st. record st { last_error = message }))
    error-Coded message = record { at = λ s h. h }

    ruleset coded_rules =
        (keeps_rules, store_result-Coded, outside-Coded, count_parse_error-Coded, error-Coded)

    process_json_response-Coded :
        (body : Text) (parsing : ResponseParsing)
        → Moves (Coded api code) (Coded api code) (process_json_response P C body parsing)
    unfolding process_json_response
    process_json_response-Coded body parsing = elim (Result-cases (new_evaluator P)) [
      | inl (env, e) ↦ rw (e, process_json_response) (search coded_rules depth 12)
      | inr (x, e) ↦ rw (e, process_json_response) (search coded_rules depth 12)
    ]

    parse_if_configured-Coded :
        (body : Text) (parsing : Option ResponseParsing)
        → Moves (Coded api code) (Coded api code) (parse_if_configured P C body parsing)
    unfolding parse_if_configured
    parse_if_configured-Coded body none = Moves-pure true
    parse_if_configured-Coded body (some parsing) =
        search (coded_rules, process_json_response-Coded) depth 12

    conclude-Answers :
        (met : Bool) (s : Probe P)
        → http_condition_met api code ≡ true
        → Coded api code s
        → Answers api (conclude P C met s)
    unfolding conclude count_condition record_condition_check
    conclude-Answers true s e (n, c) =
        λ b. record { named = n; met = refl; no_error = refl; accepted = rw c e }
    conclude-Answers false s e h = λ b. absurd (false_ne_true b)

    judge_response-Answers :
        (body : Text) (s : Probe P)
        → Coded api code s
        → Answers api (judge_response P C api code body s)
    unfolding judge_response count_condition record_condition_check
    judge_response-Answers body s h = elim (Bool-cases (http_condition_met api code)) [
      | inl y ↦ rw y (
          Post-bind (parse_if_configured P C body api.response_parsing) (conclude P C) s _ _ _
            (kept _ s (parse_if_configured-Coded body api.response_parsing) h)
            (λ met t k. conclude-Answers met t y k))
      | inr n ↦ rw n (λ b. absurd (false_ne_true b))
    ]
