-- ===== src/RestCall/Met/Calls.antt =====
-- What one call of a REST API that answers true leaves in its status, from the request to the answer.
use git_change_operator.Base.{ℕ, ◌≡◌, refl, ◌∙◌, Text, Bool, false}
use git_change_operator.Effects.{
  Error, Result, ok, err, Exec, outside, modify, attempt, pure, raise, and_then, ◌>>=◌,
}
use git_change_operator.Effects.Moves.{Moves}
use git_change_operator.Api.Rest.{RestApi, RestApiStatus}
use git_change_operator.Platform.{Platform, HttpRequest}
use git_change_operator.RestCall.{
  Probe, clock, ask, ask_api, judge_response, receive, call_api, count_request,
}
use git_change_operator.RestCall.Met.{
  Answers, Named, Coded, outside-Coded, error-Coded, judge_response-Answers, false_ne_true,
}

module _ (P : Platform) (C : Text) (api : RestApi) where
  -- From every state with `I`, the call answers as above.
  record Answering (I : Probe P → Type 0) (m : Exec (Probe P) Bool) : Type 0 where
    at : (s : Probe P) → I s → Answers api (m s)

  module _ (I J : Probe P → Type 0) {A : Type 0} where
    Answering-bind :
        (m : Exec (Probe P) A) (f : A → Exec (Probe P) Bool)
        → Moves I J m
        → ((a : A) → Answering J (f a))
        → Answering I (m >>= f)
    Answering-bind m f k l = record { at = λ s h. go (m s).0 (m s).1 (k.at s h) }
      where
        go : (r : Result A) (t : Probe P) → J t → Answers api (and_then r f t)
        go (ok a) t h = (l a).at t h
        go (err e) t h = tt

    Answering-attempt :
        (m : Exec (Probe P) A) (f : Result A → Exec (Probe P) Bool)
        → Moves I J m
        → ((e : Error) → Answering J (f (err e)))
        → ((a : A) → Answering J (f (ok a)))
        → Answering I (attempt m >>= f)
    Answering-attempt m f k l l' = record { at = λ s h. go (m s).0 (m s).1 (k.at s h) }
      where
        go : (r : Result A) (t : Probe P) → J t → Answers api (f r t)
        go (ok a) t h = (l' a).at t h
        go (err e) t h = (l e).at t h

  count_request-Coded :
      (code : ℕ) (shown : Text) (duration size : ℕ)
      → Moves (Coded api code) (Coded api code) (count_request P C api shown duration size)
  unfolding count_request
  count_request-Coded code shown duration size = record { at = λ s h. h }

  Answering-raise : (I : Probe P → Type 0) (e : Error) → Answering I (raise e)
  Answering-raise I e = record { at = λ s h. tt }

  Answering-no : (I : Probe P → Type 0) → Answering I (pure false)
  Answering-no I = record { at = λ s h b. absurd (false_ne_true b) }

  module _ (code : ℕ) where
    response-Coded :
        (response : Text)
        → Moves
            (Coded api code)
            (Coded api code)
            (modify {W = P.World} (λ st. record st { last_response = response }))
    response-Coded response = record { at = λ s h. h }

    judge_response-Answering :
        (body : Text) → Answering (Coded api code) (judge_response P C api code body)
    judge_response-Answering body = record { at = judge_response-Answers P C api code body }

    read-bind :
        {A : Type 0} (m : Exec (Probe P) A) (f : A → Exec (Probe P) Bool)
        → Moves (Coded api code) (Coded api code) m
        → ((a : A) → Answering (Coded api code) (f a))
        → Answering (Coded api code) (m >>= f)
    read-bind m f k l = Answering-bind (Coded api code) (Coded api code) m f k l

    read-attempt :
        {A : Type 0} (m : Exec (Probe P) A) (f : Result A → Exec (Probe P) Bool)
        → Moves (Coded api code) (Coded api code) m
        → ((e : Error) → Answering (Coded api code) (f (err e)))
        → ((a : A) → Answering (Coded api code) (f (ok a)))
        → Answering (Coded api code) (attempt m >>= f)
    read-attempt m f k l l' = Answering-attempt (Coded api code) (Coded api code) m f k l l'

    set_code-bind :
        (f : Unit → Exec (Probe P) Bool)
        → ((a : Unit) → Answering (Coded api code) (f a))
        → Answering (Named api) (modify (λ st. record st { last_status_code = code }) >>= f)
    set_code-bind f l = record { at = λ s n. (l tt).at _ (n, refl) }

    ruleset read_rules = (
      read-attempt, read-bind, set_code-bind, judge_response-Answering, Answering-raise,
      response-Coded, error-Coded, count_request-Coded, outside-Coded,
    )

    receive-Answering :
        (duration : ℕ) (body : P.Body) → Answering (Named api) (receive P C api duration code body)
    unfolding receive
    receive-Answering duration body = search read_rules depth 10

  outside-Named : {B : Type 0} (m : Exec P.World B) → Moves (Named api) (Named api) (outside m)
  outside-Named m = record { at = λ s h. h }

  clock-Named : Moves (Named api) (Named api) (clock P)
  unfolding clock
  clock-Named = record { at = λ s h. h }

  count_request-Named :
      (shown : Text) (duration size : ℕ)
      → Moves (Named api) (Named api) (count_request P C api shown duration size)
  unfolding count_request
  count_request-Named shown duration size = record { at = λ s h. h }

  touch-Named :
      (f : RestApiStatus → RestApiStatus)
      → ((st : RestApiStatus) → (f st).name ≡ st.name)
      → Moves (Named api) (Named api) (modify {W = P.World} f)
  touch-Named f k = record { at = λ s h. k s.object ∙ h }

  keep_name-bind :
      {A : Type 0} (m : Exec (Probe P) A) (f : A → Exec (Probe P) Bool)
      → Moves (Named api) (Named api) m
      → ((a : A) → Answering (Named api) (f a))
      → Answering (Named api) (m >>= f)
  keep_name-bind m f k l = Answering-bind (Named api) (Named api) m f k l

  keep_name-attempt :
      {A : Type 0} (m : Exec (Probe P) A) (f : Result A → Exec (Probe P) Bool)
      → Moves (Named api) (Named api) m
      → ((e : Error) → Answering (Named api) (f (err e)))
      → ((a : A) → Answering (Named api) (f (ok a)))
      → Answering (Named api) (attempt m >>= f)
  keep_name-attempt m f k l l' = Answering-attempt (Named api) (Named api) m f k l l'

  ruleset call_rules = (
    keep_name-attempt, keep_name-bind, receive-Answering, Answering-raise, touch-Named, clock-Named,
    count_request-Named, outside-Named,
  )

  call_api-Answering : (request : HttpRequest) → Answering (Named api) (call_api P C api request)
  unfolding call_api
  call_api-Answering request = search call_rules depth 12

  ask-Answering : (namespace : Text) → Answering (Named api) (ask P C namespace api)
  unfolding ask
  ask-Answering namespace = search (call_rules, call_api-Answering) depth 5

  pub ask_api-Answers :
      (namespace : Text) (s : Probe P) → Named api s → Answers api (ask_api P C namespace api s)
  unfolding ask_api
  ask_api-Answers namespace s h = (ask-Answering namespace).at s h
