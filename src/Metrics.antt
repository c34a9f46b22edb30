-- ===== src/Metrics.antt =====
-- controllers/metrics.go: the vectors that it registers with Prometheus, and the collector of one
-- controller.
pub mod Laws
use git_change_operator.Base.{ℕ, ◌/◌, ◌%◌, Text, text, List, [], ◌∷◌}
use git_change_operator.Base.Words.{second}
use git_change_operator.Effects.{ok, Exec}
use git_change_operator.Platform.{Platform}

-- `prometheus.DefBuckets`, or the bounds that are given.
pub data Buckets : Type 0 where
  standard : Buckets
  bounds : List ℕ → Buckets

pub data VectorKind : Type 0 where
  counter : VectorKind
  histogram : Buckets → VectorKind

-- `NewCounterVec` or `NewHistogramVec`, with the options and the names of the labels.
pub record Vector : Type 0 where
  pub kind : VectorKind
  pub name : Text
  pub help : Text
  pub labels : List Text

abbrev pub rest_api_requests_total : Vector
rest_api_requests_total = record {
  kind = counter;
  name = text "gitchange_rest_api_requests_total";
  help = text "Total number of REST API requests made";
  labels = text "controller" ∷ text "url" ∷ text "method" ∷ text "status_code" ∷ [];
}

abbrev pub rest_api_request_duration : Vector
rest_api_request_duration = record {
  kind = histogram standard;
  name = text "gitchange_rest_api_request_duration_seconds";
  help = text "Duration of REST API requests in seconds";
  labels = text "controller" ∷ text "url" ∷ text "method" ∷ [];
}

abbrev pub rest_api_condition_checks : Vector
rest_api_condition_checks = record {
  kind = counter;
  name = text "gitchange_rest_api_condition_checks_total";
  help = text "Total number of REST API condition checks";
  labels = text "controller" ∷ text "condition_result" ∷ [];
}

abbrev pub rest_api_json_parsing_errors : Vector
rest_api_json_parsing_errors = record {
  kind = counter;
  name = text "gitchange_rest_api_json_parsing_errors_total";
  help = text "Total number of JSON parsing errors during REST API processing";
  labels = text "controller" ∷ text "error_type" ∷ [];
}

abbrev pub rest_api_response_size : Vector
rest_api_response_size = record {
  kind = histogram (bounds (100 ∷ 1000 ∷ 10000 ∷ 100000 ∷ 1000000 ∷ []));
  name = text "gitchange_rest_api_response_size_bytes";
  help = text "Size of REST API responses in bytes";
  labels = text "controller" ∷ text "url" ∷ [];
}

-- `init`, in its order.
abbrev pub registered : List Vector
registered =
    rest_api_requests_total ∷ rest_api_request_duration ∷ rest_api_condition_checks
    ∷ rest_api_json_parsing_errors ∷ rest_api_response_size ∷ []

module _ (P : Platform) where
  open P use {Float, float, add_float, divide_float}

  -- `Duration.Seconds`, of nanoseconds: the whole seconds, and what is left as a fraction.
  unfoldable pub seconds : ℕ → Float
  seconds duration =
      add_float (float (duration / second))
        (divide_float (float (duration % second)) (float second))

-- A `MetricsCollector` is its controller's name.
module _ (P : Platform) (controller : Text) where
  open P use {World, float, inc, observe}

  unfoldable pub record_api_request : Text → Text → Text → ℕ → ℕ → Exec World Unit
  record_api_request url method status_code duration response_size w =
      let w₁ = inc rest_api_requests_total.name (controller ∷ url ∷ method ∷ status_code ∷ []) w in
      let w₂ =
        observe rest_api_request_duration.name (controller ∷ url ∷ method ∷ []) (seconds P duration)
          w₁ in
      let w₃ =
        observe rest_api_response_size.name (controller ∷ url ∷ []) (float response_size) w₂ in
      (ok tt, w₃)

  unfoldable pub record_condition_check : Text → Exec World Unit
  record_condition_check result w =
      (ok tt, inc rest_api_condition_checks.name (controller ∷ result ∷ []) w)

  unfoldable pub record_json_parsing_error : Text → Exec World Unit
  record_json_parsing_error kind w =
      (ok tt, inc rest_api_json_parsing_errors.name (controller ∷ kind ∷ []) w)
