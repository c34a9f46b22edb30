-- ===== src/RestCall/Laws.antt =====
-- The counts of calls and successes in one call of a REST API.
use git_change_operator.Base.{ℕ, ◌≤◌, ◌<◌, Bool, true, Text, arith}
use git_change_operator.Base.{Option, none, some, inl, inr}
use git_change_operator.Base.Words.{increment}
use git_change_operator.Effects.{
  Error, Result, ok, err, Exec, Held, outside, modify, pure, raise, attempt, ◌>>=◌, Result-cases,
}
use git_change_operator.Effects.Moves.{
  Moves, Moves-if, Moves-bind_weaken, Moves-bind_attempt, Moves-pure, Keeps-outside, Moves-bind,
  keeps_rules,
}
use git_change_operator.Api.Rest.{RestApi, RestApiStatus, ResponseParsing}
use git_change_operator.Platform.{Platform, HttpRequest}
use git_change_operator.Cel.{ProcessResult, new_evaluator}
use git_change_operator.RestCall.{
  Probe, clock, ask, ask_api, store_result, process_json_response, conclude, parse_if_configured,
  judge_response, receive, call_api, count_parse_error, count_condition, count_request,
}

-- The calls stay within the breaker's limit, and the successes within the calls.
abbrev pub IsCounted : RestApiStatus → Type 0
IsCounted st = (st.call_count ≤ 10) × (st.success_count ≤ st.call_count)

-- A status that may be called once more.
abbrev pub HasRoom : RestApiStatus → Type 0
HasRoom st = (st.call_count < 10) × (st.success_count ≤ st.call_count)

-- The same while a call is under way: its success is not counted yet.
abbrev IsPending : RestApiStatus → Type 0
IsPending st = (st.call_count ≤ 10) × (st.success_count < st.call_count)

abbrev pub Bounded : {W : Type 0} → Held W RestApiStatus → Type 0
Bounded s = IsCounted s.object

abbrev Pending : {W : Type 0} → Held W RestApiStatus → Type 0
Pending s = IsPending s.object

abbrev pub Room : {W : Type 0} → Held W RestApiStatus → Type 0
Room s = HasRoom s.object

module _ (P : Platform) (C : Text) where
  store_result-Pending : (r : ProcessResult) → Moves Pending Pending (store_result P C r)
  unfolding store_result
  store_result-Pending r = record { at = λ s h. ground arith }

  count_parse_error-Pending : (kind : Text) → Moves Pending Pending (count_parse_error P C kind)
  unfolding count_parse_error
  count_parse_error-Pending kind = record { at = λ s h. h }

  outside-Pending : {B : Type 0} (m : Exec P.World B) → Moves Pending Pending (outside m)
  outside-Pending m = Keeps-outside IsPending m

  touch-Pending :
      (f : RestApiStatus → RestApiStatus)
      → ((st : RestApiStatus) → IsPending st → IsPending (f st))
      → Moves Pending Pending (modify {W = P.World} f)
  touch-Pending f k = record { at = λ s h. k s.object h }

  ruleset process_rules =
      (keeps_rules, store_result-Pending, count_parse_error-Pending, outside-Pending)

  process_json_response-Pending :
      (body : Text) (parsing : ResponseParsing)
      → Moves Pending Pending (process_json_response P C body parsing)
  unfolding process_json_response
  process_json_response-Pending body parsing = elim (Result-cases (new_evaluator P)) [
    | inl (env, e) ↦ rw (e, process_json_response) (search process_rules)
    | inr (x, e) ↦ rw (e, process_json_response) (search process_rules)
  ]

  parse_if_configured-Pending :
      (body : Text) (parsing : Option ResponseParsing)
      → Moves Pending Pending (parse_if_configured P C body parsing)
  unfolding parse_if_configured
  parse_if_configured-Pending body none = Moves-pure true
  parse_if_configured-Pending body (some parsing) =
      search (process_rules, process_json_response-Pending, touch-Pending)

  conclude-Bounded : (met : Bool) → Moves Pending Bounded (conclude P C met)
  unfolding conclude count_condition increment
  conclude-Bounded met = record { at = λ s h. ground arith }

  settle-Bounded : (st : RestApiStatus) → IsPending st → IsCounted st
  settle-Bounded st h = omega arith

  weaken : (s : Probe P) → Pending s → Bounded s
  weaken s h = settle-Bounded s.object h

  bind-Bounded :
      {A B : Type 0} (m : Exec (Probe P) A) (f : A → Exec (Probe P) B)
      → Moves Pending Pending m
      → ((a : A) → Moves Pending Bounded (f a))
      → Moves Pending Bounded (m >>= f)
  bind-Bounded m f k l = Moves-bind m f k l weaken

  attempt-Bounded :
      {A B : Type 0} (m : Exec (Probe P) A) (f : Result A → Exec (Probe P) B)
      → Moves Pending Pending m
      → ((e : Error) → Moves Pending Bounded (f (err e)))
      → ((a : A) → Moves Pending Bounded (f (ok a)))
      → Moves Pending Bounded (attempt m >>= f)
  attempt-Bounded m f k l l' = Moves-bind_attempt m f k l l'

  pure-Bounded : {A : Type 0} (a : A) → Moves {S = Probe P} Pending Bounded (pure a)
  pure-Bounded a = record { at = λ s h. weaken s h }

  raise-Bounded : {A : Type 0} (e : Error) → Moves {S = Probe P} {A = A} Pending Bounded (raise e)
  raise-Bounded e = record { at = λ s h. weaken s h }

  ruleset bounded_rules = (
    attempt-Bounded, bind-Bounded, pure-Bounded, raise-Bounded, Moves-if, conclude-Bounded,
    outside-Pending, touch-Pending, parse_if_configured-Pending,
  )

  judge_response-Bounded :
      (api : RestApi) (code : ℕ) (body : Text)
      → Moves Pending Bounded (judge_response P C api code body)
  unfolding judge_response count_condition
  judge_response-Bounded api code body = search bounded_rules depth 9

  receive-Bounded :
      (api : RestApi) (duration code : ℕ) (body : P.Body)
      → Moves Pending Bounded (receive P C api duration code body)
  unfolding receive count_request
  receive-Bounded api duration code body = search (bounded_rules, judge_response-Bounded) depth 9

  Room-weaken : (s : Probe P) → Room s → Bounded s
  Room-weaken s h = omega arith

  start_call :
      (st : RestApiStatus)
      → HasRoom st
      → (increment st.call_count ≤ 10) × (st.success_count < increment st.call_count)
  unfolding increment
  start_call st h = omega arith

  clock-Room : Moves Room Room (clock P)
  unfolding clock
  clock-Room = record { at = λ s h. h }

  outside-Room : {B : Type 0} (m : Exec P.World B) → Moves Room Room (outside m)
  outside-Room m = Keeps-outside HasRoom m

  start-Pending :
      (f : RestApiStatus → RestApiStatus)
      → ((st : RestApiStatus) → HasRoom st → IsPending (f st))
      → Moves Room Pending (modify {W = P.World} f)
  start-Pending f k = record { at = λ s h. k s.object h }

  Room-bind :
      {A B : Type 0} (m : Exec (Probe P) A) (f : A → Exec (Probe P) B)
      → Moves Room Room m
      → ((a : A) → Moves Room Bounded (f a))
      → Moves Room Bounded (m >>= f)
  Room-bind m f k l = Moves-bind m f k l Room-weaken

  Room-attempt :
      {A B : Type 0} (m : Exec (Probe P) A) (f : Result A → Exec (Probe P) B)
      → Moves Room Room m
      → ((e : Error) → Moves Room Bounded (f (err e)))
      → ((a : A) → Moves Room Bounded (f (ok a)))
      → Moves Room Bounded (attempt m >>= f)
  Room-attempt m f k l l' = Moves-bind_attempt m f k l l'

  Room-start :
      {A B : Type 0} (m : Exec (Probe P) A) (f : A → Exec (Probe P) B)
      → Moves Room Pending m
      → ((a : A) → Moves Pending Bounded (f a))
      → Moves Room Bounded (m >>= f)
  Room-start m f k l = Moves-bind_weaken m f k l weaken

  ruleset room_rules = (
    bounded_rules, clock-Room, outside-Room, start-Pending, start_call, Room-attempt, Room-bind,
    Room-start,
  )

  call_api-Bounded :
      (api : RestApi) (request : HttpRequest) → Moves Room Bounded (call_api P C api request)
  unfolding call_api count_request
  call_api-Bounded api request = search (room_rules, receive-Bounded) depth 12

  -- A status with room for a call is within the bounds behind it.
  pub ask_api-Bounded :
      (namespace : Text) (api : RestApi) → Moves Room Bounded (ask_api P C namespace api)
  unfolding ask_api ask
  ask_api-Bounded namespace api = search (room_rules, call_api-Bounded) depth 9
