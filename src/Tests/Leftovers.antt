-- ===== src/Tests/Leftovers.antt =====
-- A metrics service in memory, which a reconcile with the metrics disabled leaves.
use git_change_operator.Base.{
  ◌≡◌, ◌≢◌, refl, ap, sym, ◌∙◌, Text, text, text_eq, text_eq_iff, Bool, true, false, Bool-cases,
  inl, inr,
}
use git_change_operator.Effects.{ok}
use git_change_operator.Effects.Collect.{ok_injective}
use git_change_operator.Api.Operator.{GitChangeOperator}
use git_change_operator.Operator.Exposure.{service_name}
use git_change_operator.Operator.Reconcile.{reconcile}
use git_change_operator.Operator.Reconcile.Leftovers.{
  IsSpared, Disabled, operator_reconcile-service_name,
}
use git_change_operator.Tests.Clusters.{Rack, rack, rack-IsEchoing, deleted_at, idle-IsKindFrame}
use git_change_operator.Tests.ClusterWitnesses.{fresh, fresh_rack}

abbrev metrics : Text
metrics = text "gco-metrics"

-- The metrics service is there.
abbrev Served : Rack → Type 0
Served w = w.services (text "system") metrics ≡ true

deleted_at-Served :
    (namespace name : Text) (there : Bool) (w : Rack)
    → name ≢ metrics
    → Served w
    → Served (deleted_at namespace name there w).1
deleted_at-Served namespace name false w other h = h
deleted_at-Served namespace name true w other h = elim (Bool-cases (text_eq name metrics)) [
  | inl y ↦ absurd (other ((text_eq_iff name metrics).0 y))
  | inr n ↦ rw n h
]

rack-IsSpared : IsSpared rack metrics Served
rack-IsSpared = record {
  beside = record {
    accounts = idle-IsKindFrame _;
    roles = record {
      got = λ namespace name. record { at = λ w h. h };
      created = λ a. record { at = λ w h. h };
      updated = λ a. record { at = λ w h. h };
      deleted = λ namespace name. record { at = λ w h. h };
    };
    bindings = idle-IsKindFrame _;
    monitors = idle-IsKindFrame _;
    ingresses = idle-IsKindFrame _;
    read = λ namespace name. record { at = λ w h. h };
    status = λ o. record { at = λ w h. h };
    retried = λ m k. k;
  };
  deployments = record {
    got = λ namespace name. record { at = λ w h. h };
    created = λ a. record { at = λ w h. h };
    updated = λ a. record { at = λ w h. h };
    deleted = λ namespace name. record { at = λ w h. h };
  };
  patched = λ before after. record { at = λ w h. h };
  operator = λ o. record { at = λ w h. h };
  others = λ namespace name other. record {
    at = λ w h. deleted_at-Served namespace name (w.services namespace name) w other h;
  };
}

fresh-named : service_name fresh ≡ metrics
unfolding text
fresh-named = refl

fresh-Disabled :
    (o : GitChangeOperator)
    → (rack.get_operator (text "system") (text "gco") fresh_rack).0 ≡ ok o
    → Disabled metrics o
fresh-Disabled o e =
    let k = ok_injective e in
    (ap service_name (sym k) ∙ fresh-named, sym (ap (λ o. o.spec.metrics.enabled) k))

fresh-Served : Served fresh_rack
unfolding text text_eq
fresh-Served = refl

-- The cluster deletes a service under the name that it is asked for.
deletes :
    (rack.services.delete (text "system") metrics fresh_rack).1.services (text "system") metrics
    ≡ false
unfolding text text_eq
deletes = refl

operator_reconcile-service_name_example :
    (reconcile rack (text "system") (text "gco") fresh_rack).1.services (text "system") metrics
    ≡ true
operator_reconcile-service_name_example =
    operator_reconcile-service_name rack rack-IsEchoing metrics Served rack-IsSpared (text "system")
      (text "gco") fresh_rack fresh-Disabled fresh-Served
