-- ===== src/Metrics/Laws.antt =====
-- What Prometheus demands of the vectors and of the recordings.
use mathlib.Core.List.{Memᴰ}
use git_change_operator.Base.{
  ℕ, ◌≡◌, refl, Text, text, false, List, [], ◌∷◌, map, length, All, text_eq,
}
use git_change_operator.Effects.Moves.{Moves}
use git_change_operator.Platform.{Platform}
use git_change_operator.Metrics.{
  Buckets, counter, histogram, Vector, rest_api_requests_total, rest_api_request_duration,
  rest_api_condition_checks, rest_api_json_parsing_errors, rest_api_response_size, registered,
  record_api_request, record_condition_check, record_json_parsing_error,
}

-- `WithLabelValues` panics unless there is one value for each label.
pub record IsFitting (v : Vector) (values : List Text) : Type 0 where
  pub registered_before : Memᴰ v registered
  pub one_each : length values ≡ length v.labels

-- The recordings that Prometheus accepts keep `I`: a count in a registered counter, an observation in a
-- registered histogram, with a value for each label.
pub record IsMetricFrame (P : Platform) (I : P.World → Type 0) : Type 0 where
  pub inc :
      (v : Vector) (values : List Text) (w : P.World)
      → v.kind ≡ counter
      → IsFitting v values
      → I w
      → I (P.inc v.name values w)
  pub observe :
      (v : Vector) (values : List Text) (n : P.Float) (b : Buckets) (w : P.World)
      → v.kind ≡ histogram b
      → IsFitting v values
      → I w
      → I (P.observe v.name values n w)

abbrev pub IsDistinct : List Text → Type 0
IsDistinct [] = Unit
IsDistinct (s ∷ ss) = All (λ t. text_eq s t ≡ false) ss × IsDistinct ss

registered-IsDistinct : IsDistinct (map (λ v. v.name) registered)
unfolding text text_eq
registered-IsDistinct = (
  (refl, (refl, (refl, (refl, tt)))),
  ((refl, (refl, (refl, tt))), ((refl, (refl, tt)), ((refl, tt), (tt, tt)))),
)

module _ (P : Platform) (I : P.World → Type 0) (F : IsMetricFrame P I) (controller : Text) where
  pub record_api_request-Within :
      (url method status_code : Text) (duration response_size : ℕ)
      → Moves I I (record_api_request P controller url method status_code duration response_size)
  unfolding record_api_request
  record_api_request-Within url method status_code duration response_size = record {
    at = λ w h. F.observe rest_api_response_size _ _ _ _ refl sized (
        F.observe rest_api_request_duration _ _ _ _ refl timed
          (F.inc rest_api_requests_total _ w refl counted h));
  }
    where
      counted : IsFitting rest_api_requests_total (controller ∷ url ∷ method ∷ status_code ∷ [])
      counted = record { registered_before = Memᴰ.head refl; one_each = refl }

      timed : IsFitting rest_api_request_duration (controller ∷ url ∷ method ∷ [])
      timed = record { registered_before = Memᴰ.tail (Memᴰ.head refl); one_each = refl }

      sized : IsFitting rest_api_response_size (controller ∷ url ∷ [])
      sized = record {
        registered_before = Memᴰ.tail (Memᴰ.tail (Memᴰ.tail (Memᴰ.tail (Memᴰ.head refl))));
        one_each = refl;
      }

  pub record_condition_check-Within :
      (result : Text) → Moves I I (record_condition_check P controller result)
  unfolding record_condition_check
  record_condition_check-Within result = record {
    at = λ w h.
        F.inc rest_api_condition_checks _ w refl
          (record { registered_before = Memᴰ.tail (Memᴰ.tail (Memᴰ.head refl)); one_each = refl })
          h;
  }

  pub record_json_parsing_error-Within :
      (kind : Text) → Moves I I (record_json_parsing_error P controller kind)
  unfolding record_json_parsing_error
  record_json_parsing_error-Within kind = record {
    at = λ w h.
        F.inc rest_api_json_parsing_errors _ w refl
          (record {
            registered_before = Memᴰ.tail (Memᴰ.tail (Memᴰ.tail (Memᴰ.head refl)));
            one_each = refl;
          })
          h;
  }

  -- The vectors that the package registers have different names, so that `MustRegister` does not panic
  -- on one of them, and every recording of a collector is one that Prometheus accepts: it is made in a
  -- registered vector of its kind, with one value for each of the vector's labels.
  pub recordings-IsAccepted :
      IsDistinct (map (λ v. v.name) registered)
      × ((url method status_code : Text) (duration response_size : ℕ)
          → Moves I I
              (record_api_request P controller url method status_code duration response_size))
      × ((result : Text) → Moves I I (record_condition_check P controller result))
      × ((kind : Text) → Moves I I (record_json_parsing_error P controller kind))
  recordings-IsAccepted = (
    registered-IsDistinct, record_api_request-Within, record_condition_check-Within,
    record_json_parsing_error-Within,
  )
