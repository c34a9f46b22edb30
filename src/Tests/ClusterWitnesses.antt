-- ===== src/Tests/ClusterWitnesses.antt =====
-- The theorems about the GitChangeOperator controller at concrete data.
use git_change_operator.Base.{◌≢◌, All, ◌≡◌, refl, text, true, false, none, some, [], ◌∷◌, text_eq}
use git_change_operator.Effects.{ok}
use git_change_operator.Effects.Rules.{Post}
use git_change_operator.Api.Operator.{GitChangeOperator}
use git_change_operator.Operator.Objects.{operand_image, operator_deployment, manager_rules}
use git_change_operator.Operator.Objects.{
  operator_account, deployment_name, manager_service_account, manager_binding,
}
use git_change_operator.Operator.Objects.Laws.{operator_account-IsUnbound}
use git_change_operator.Operator.Reconcile.{
  finalizer_name, delete_metrics_service, reconcile, ensure, ensure_gone, reconcile_service_account,
  reconcile_role_binding, delete_service_monitor, reconcile_ingress, reconcile_role,
  reconcile_deployment,
}
use git_change_operator.Operator.Reconcile.Installs.{operator_reconcile-installs}
use git_change_operator.Operator.Reconcile.Converges.{wanted_part, reconcile_role-grants}
use git_change_operator.Tests.Clusters.{
  Rack, stored_rules, rack-IsStore-roles, rack-IsOwning, stored_parts, rack-IsStore-deployments,
  rack-IsPatching, rack-IsEchoing, rack-IsApart, rack,
}

abbrev pub gco : GitChangeOperator
gco = record {
  name = text "gco";
  namespace = text "system";
  generation = 1;
  deletion_timestamp = some 5;
  finalizers = finalizer_name ∷ [];
  spec = record {
    replica_count = none;
    image = record { repository = []; tag = []; pull_policy = [] };
    operator = record { leader_elect = true; metrics_addr = []; probe_addr = [] };
    rbac = record { create = true };
    service_account = record { create = true; name = [] };
    metrics = record {
      enabled = false;
      service = record { kind = text "ClusterIP"; port = 8443 };
      service_monitor = record {
        enabled = false;
        name = [];
        interval = [];
        scrape_timeout = [];
        labels = [];
        annotations = [];
      };
    };
    crds = record { install = false };
    ingress = record {
      enabled = true;
      name = [];
      labels = [];
      annotations = [];
      ingress_class_name = none;
      hosts =
          record {
            host = text "example.org";
            paths =
                record {
                  path = text "/";
                  path_type = [];
                  backend = record {
                    service = record { name = text "s"; port = record { number = 80 } };
                  };
                }
                ∷ [];
          }
          ∷ [];
      tls = [];
    };
    additional_values = [];
  };
  status = record { phase = []; observed_generation = 0 };
}

abbrev empty_rack : Rack
empty_rack = record {
  roles = λ namespace name. none;
  deployments = λ namespace name. none;
  operator = some gco;
  services = λ namespace name. text_eq name (text "gco-metrics");
}

reconcile_role-grants_example :
    Post
      (λ u w'. stored_rules w' (text "system") (text "gco-manager-role") ≡ some manager_rules)
      (λ e w'. Unit)
      (reconcile_role rack gco empty_rack)
unfolding text
reconcile_role-grants_example =
    reconcile_role-grants rack rack-IsOwning stored_rules rack-IsStore-roles gco empty_rack

-- The operator before its first reconcile.
abbrev pub fresh : GitChangeOperator
fresh = record gco { deletion_timestamp = none; finalizers = [] }

abbrev pub fresh_rack : Rack
fresh_rack = record empty_rack { operator = some fresh }

fresh-image : operand_image (text "image:1") fresh ≡ ok (text "image:1")
unfolding operand_image text
fresh-image = refl

fresh-error : (reconcile rack (text "system") (text "gco") fresh_rack).0.error ≡ none
unfolding reconcile reconcile_deployment operand_image text ensure reconcile_service_account
    reconcile_role reconcile_role_binding delete_metrics_service ensure_gone delete_service_monitor
    reconcile_ingress text_eq
fresh-error = refl

operator_reconcile-installs_example :
    stored_parts
      (reconcile rack (text "system") (text "gco") fresh_rack).1
      (text "system")
      (text "gco-operator")
    ≡ some (wanted_part (text "image:1") fresh)
unfolding text
operator_reconcile-installs_example =
    operator_reconcile-installs rack rack-IsOwning stored_parts rack-IsStore-deployments
      rack-IsPatching rack-IsApart rack-IsEchoing (text "system") (text "gco") (text "image:1")
      fresh_rack fresh_rack fresh refl refl fresh-image fresh-error

unnamed : gco.spec.service_account.name ≢ deployment_name gco
unfolding text
unnamed h = cc

operator_account-IsUnbound_example :
    let account =
      (operator_deployment
        (text "image:1")
        (operator_account [] gco)
        gco).pod.service_account_name in
    ((manager_service_account gco).meta.name ≢ account)
    × All (λ subject. subject.name ≢ account) (manager_binding gco).subjects
operator_account-IsUnbound_example = operator_account-IsUnbound (text "image:1") gco unnamed
