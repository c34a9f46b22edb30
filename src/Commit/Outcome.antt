-- ===== src/Commit/Outcome.antt =====
-- What a reconcile returns, and the circuit breaker that both of its paths ask.
use git_change_operator.Base.{
  ℕ, ◌*◌, Text, text, Option, none, some, List, [], ◌∷◌, ◌++◌, if◌then◌else◌,
}
use git_change_operator.Base.Words.{ℤ, pos, at_least, signed_decimal, minute, below_minute}
use git_change_operator.Effects.{Error, Result, ok, err}
use git_change_operator.Api.Rest.{RestApiStatus}

-- `ctrl.Result` with its `RequeueAfter`, and the error beside it. A wait of 0 asks for no requeue.
pub record Outcome : Type 0 where
  pub requeue_after : ℤ
  pub error : Option Error

-- `ctrl.Result{}, nil`
abbrev pub done : Outcome
done = record { requeue_after = pos 0; error = none }

-- `ctrl.Result{RequeueAfter: d}, nil`
abbrev pub requeue : ℤ → Outcome
requeue d = record { requeue_after = d; error = none }

-- `time.Minute * n`
abbrev pub minutes : ℕ → ℤ
minutes n = pos (n * minute)

-- `return ctrl.Result{}, err`, where a handler ends in an error.
abbrev pub or_error : Result Outcome → Outcome
or_error (ok o) = o
or_error (err e) = record { requeue_after = pos 0; error = some e }

-- The first status whose calls have reached the limit.
unfoldable pub tripped : List RestApiStatus → Option RestApiStatus
tripped [] = none
tripped (s ∷ ss) = if at_least s.call_count 10 then some s else tripped ss

unfoldable pub breaker_message : RestApiStatus → Text
breaker_message s =
    text "REST API '"
    ++ (s.name
        ++ (text "' exceeded maximum retry limit ("
            ++ (signed_decimal s.call_count ++ text " calls)")))

-- `if waitDuration < time.Minute { waitDuration = time.Minute }`
unfoldable pub clamp_wait : ℤ → ℤ
clamp_wait d = if below_minute d then pos minute else d
