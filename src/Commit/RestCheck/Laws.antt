-- ===== src/Commit/RestCheck/Laws.antt =====
-- The circuit breaker of one check.
use git_change_operator.Base.{◌≡◌, false, Text, text, if◌then◌else◌, inl, inr, Bool-cases, arith}
use git_change_operator.Base.Words.{at_least}
use git_change_operator.Effects.Moves.{Moves}
use git_change_operator.Api.Rest.{RestApi, RestApiStatus}
use git_change_operator.Platform.{Platform}
use git_change_operator.RestCall.{Probe}
use git_change_operator.RestCall.Laws.{IsCounted, Bounded, HasRoom, ask_api-Bounded}
use git_change_operator.Commit.RestCheck.{max_calls, probe_api, check_single}

-- The test of the circuit breaker.
has_room :
    (st : RestApiStatus) → IsCounted st → at_least st.call_count max_calls ≡ false → HasRoom st
unfolding at_least
has_room st h e = ground arith

module _ (P : Platform) where
  probe_api-Bounded :
      (namespace : Text) (api : RestApi) → Moves Bounded Bounded (probe_api P namespace api)
  unfolding probe_api
  probe_api-Bounded namespace api = record {
    at = λ s h. elim (Bool-cases (at_least s.object.call_count max_calls)) [
      | inl e ↦ rw (e, if◌then◌else◌) h
      | inr e ↦
          rw (e, if◌then◌else◌)
            ((ask_api-Bounded P (text "gitcommit") namespace api).at _ (has_room s.object h e))
    ];
  }

  -- One check keeps a status within the breaker's limit, whatever the outside does.
  pub check_single-IsCounted :
      (namespace : Text) (api : RestApi) (s : Probe P)
      → IsCounted s.object
      → IsCounted (check_single P namespace api s).1.object
  unfolding check_single
  check_single-IsCounted namespace api s h = (probe_api-Bounded namespace api).at s h
