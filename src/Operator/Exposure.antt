-- ===== src/Operator/Exposure.antt =====
-- What the GitChangeOperator controller wants for the metrics and the ingress.
pub mod Laws
use git_change_operator.Base.{ℕ, Text, text, true, Option, List, [], ◌∷◌, ◌++◌, map}
use git_change_operator.Api.Operator.{GitChangeOperator, IngressHost, IngressPath, IngressTls}
use git_change_operator.Operator.Cluster.{
  Meta, ServicePort, Service, Endpoint, ServiceMonitor, HttpPath, IngressRule, TlsEntry, Ingress,
}
use git_change_operator.Operator.Objects.{or_default, new_meta}

-- The name under which the service is created.
abbrev pub service_name : GitChangeOperator → Text
service_name o = o.name ++ text "-metrics"

-- The name under which it is deleted.
abbrev pub deleted_service_name : GitChangeOperator → Text
deleted_service_name o = o.name ++ text "-metrics-service"

abbrev pub manager_selector : List (Text × Text)
manager_selector = (text "control-plane", text "controller-manager") ∷ []

unfoldable pub metrics_service : GitChangeOperator → Service
metrics_service o = record {
  meta = record (new_meta (service_name o) o.namespace) {
    labels =
        (text "app.kubernetes.io/name", text "git-change-operator")
        ∷ (text "app.kubernetes.io/component", text "metrics")
        ∷ [];
  };
  kind = o.spec.metrics.service.kind;
  ports =
      record {
        name = text "metrics";
        port = o.spec.metrics.service.port;
        target_port = 8080;
        protocol = text "TCP";
      }
      ∷ [];
  selector = manager_selector;
}

unfoldable pub monitor_name : GitChangeOperator → Text
monitor_name o =
    or_default o.spec.metrics.service_monitor.name
      (o.name ++ text "-controller-manager-metrics-monitor")

-- Annotations are set only where there are any.
unfoldable pub service_monitor : GitChangeOperator → ServiceMonitor
unfolding monitor_name
service_monitor o = record {
  meta = record (new_meta (monitor_name o) o.namespace) {
    labels = o.spec.metrics.service_monitor.labels;
    annotations = o.spec.metrics.service_monitor.annotations;
  };
  endpoints =
      record {
        path = text "/metrics";
        port = text "https";
        scheme = text "https";
        bearer_token_file = text "/var/run/secrets/kubernetes.io/serviceaccount/token";
        insecure_skip_verify = true;
      }
      ∷ [];
  match_labels = manager_selector;
}

unfoldable pub ingress_name : GitChangeOperator → Text
ingress_name o = or_default o.spec.ingress.name (o.name ++ text "-ingress")

-- The loops that append one entry after another.
http_paths : List IngressPath → List HttpPath → List HttpPath
http_paths [] made = made
http_paths (p ∷ ps) made = http_paths ps (
    made
    ++ record {
      path = p.path;
      path_type = or_default p.path_type (text "Prefix");
      service_name = p.backend.service.name;
      service_port = p.backend.service.port.number;
    }
      ∷ [])

ingress_rules : List IngressHost → List IngressRule → List IngressRule
unfolding http_paths
ingress_rules [] made = made
ingress_rules (h ∷ hs) made =
    ingress_rules hs (made ++ record { host = h.host; paths = http_paths h.paths [] } ∷ [])

tls_entries : List IngressTls → List TlsEntry → List TlsEntry
tls_entries [] made = made
tls_entries (t ∷ ts) made =
    tls_entries ts (made ++ record { hosts = t.hosts; secret_name = t.secret_name } ∷ [])

unfoldable pub wanted_ingress : GitChangeOperator → Ingress
unfolding ingress_name ingress_rules tls_entries
wanted_ingress o = record {
  meta = record (new_meta (ingress_name o) o.namespace) {
    labels = o.spec.ingress.labels;
    annotations = o.spec.ingress.annotations;
  };
  ingress_class_name = o.spec.ingress.ingress_class_name;
  rules = ingress_rules o.spec.ingress.hosts [];
  tls = tls_entries o.spec.ingress.tls [];
}
