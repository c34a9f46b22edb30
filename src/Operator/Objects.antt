-- ===== src/Operator/Objects.antt =====
-- The objects that the GitChangeOperator controller wants in the cluster, before their owner is set.
pub mod Laws
use git_change_operator.Base.{ℕ, Text, text, none, some, List, [], ◌∷◌, ◌++◌}
use git_change_operator.Base.{if◌then◌else◌, is_nil}
use git_change_operator.Effects.{other, Result, ok, err}
use git_change_operator.Api.Operator.{GitChangeOperator}
use git_change_operator.Operator.Cluster.{
  Meta, Container, Deployment, ServiceAccount, PolicyRule, Role, RoleBinding,
}

-- `if s != "" { d = s }`
abbrev pub or_default : Text → Text → Text
or_default s d = if is_nil s then d else s

abbrev pub new_meta : Text → Text → Meta
new_meta name namespace = record {
  name = name;
  namespace = namespace;
  resource_version = [];
  labels = [];
  annotations = [];
  owners = [];
}

-- The image of the environment, else that of the spec.
unfoldable pub operand_image : Text → GitChangeOperator → Result Text
operand_image from_env o =
    if is_nil from_env
    then (if is_nil o.spec.image.repository
        then err (
            other (
              text
                "operator image not configured: set OPERAND_IMAGE env var or spec.image on the GitChangeOperator CR"))
        else ok (o.spec.image.repository ++ (b':' ∷ or_default o.spec.image.tag (text "latest"))))
    else ok from_env

unfoldable pub operator_args : GitChangeOperator → List Text
operator_args o =
    text "--mode=operator"
    ∷ (text "--metrics-bind-address=" ++ or_default o.spec.operator.metrics_addr (text ":8080"))
    ∷ (text "--health-probe-bind-address=" ++ or_default o.spec.operator.probe_addr (text ":8081"))
    ∷ (if o.spec.operator.leader_elect then text "--leader-elect=true" ∷ [] else [])

unfoldable pub replicas_of : GitChangeOperator → ℕ
replicas_of o = elim o.spec.replica_count [ none ↦ 1 | some n ↦ n ]

abbrev pub operator_labels : List (Text × Text)
operator_labels =
    (text "app.kubernetes.io/name", text "git-change-operator")
    ∷ (text "app.kubernetes.io/component", text "operator")
    ∷ []

abbrev pub deployment_name : GitChangeOperator → Text
deployment_name o = o.name ++ text "-operator"

-- The account of the operator's pod, given that of the environment.
unfoldable pub operator_account : Text → GitChangeOperator → Text
operator_account from_env o = or_default from_env (o.name ++ text "-operator")

unfoldable pub operator_container : Text → GitChangeOperator → Container
unfolding operator_args
operator_container image o = record {
  name = text "operator";
  image = image;
  image_pull_policy = or_default o.spec.image.pull_policy (text "IfNotPresent");
  args = operator_args o;
  env = record { name = text "POD_NAMESPACE"; field_path = text "metadata.namespace" } ∷ [];
  volume_mounts = record { name = text "tmp"; mount_path = text "/tmp" } ∷ [];
}

unfoldable pub operator_deployment : Text → Text → GitChangeOperator → Deployment
unfolding operator_container operator_account replicas_of
operator_deployment image account o = record {
  meta = record (new_meta (deployment_name o) o.namespace) { labels = operator_labels };
  replicas = some (replicas_of o);
  selector = operator_labels;
  template_labels = operator_labels;
  pod = record {
    service_account_name = account;
    termination_grace_period_seconds = some 10;
    containers = operator_container image o ∷ [];
    empty_dirs = text "tmp" ∷ [];
  };
}

-- The image and the arguments of the first container, if there is one.
unfoldable pub set_container : Text → List Text → List Container → List Container
set_container image args [] = []
set_container image args (c ∷ cs) = record c { image = image; args = args } ∷ cs

-- The mutable fields, on the deployment that was read.
unfoldable pub patched_deployment : Text → GitChangeOperator → Deployment → Deployment
unfolding set_container
patched_deployment image o found = record found {
  replicas = some (replicas_of o);
  pod = record found.pod {
    containers = set_container image (operator_args o) found.pod.containers;
  };
}

-- The account that the roles are bound to.
unfoldable pub manager_account : GitChangeOperator → Text
manager_account o = or_default o.spec.service_account.name (o.name ++ text "-controller-manager")

unfoldable pub manager_service_account : GitChangeOperator → ServiceAccount
unfolding manager_account
manager_service_account o = record { meta = new_meta (manager_account o) o.namespace }

abbrev pub all_verbs : List Text
all_verbs =
    text "create"
    ∷ text "delete"
    ∷ text "get"
    ∷ text "list"
    ∷ text "patch"
    ∷ text "update"
    ∷ text "watch"
    ∷ []

abbrev pub own_group : List Text
own_group = text "gco.galos.one" ∷ []

abbrev pub manager_rules : List PolicyRule
manager_rules =
    record {
      api_groups = [] ∷ [];
      resources = text "events" ∷ [];
      verbs = text "create" ∷ text "patch" ∷ [];
    }
    ∷ record {
      api_groups = [] ∷ [];
      resources = text "secrets" ∷ [];
      verbs = text "get" ∷ text "list" ∷ text "watch" ∷ [];
    }
    ∷ record {
      api_groups = text "apps" ∷ [];
      resources = text "deployments" ∷ [];
      verbs = all_verbs;
    }
    ∷ record {
      api_groups = text "coordination.k8s.io" ∷ [];
      resources = text "leases" ∷ [];
      verbs = all_verbs;
    }
    ∷ record {
      api_groups = own_group;
      resources = text "gitcommits" ∷ text "pullrequests" ∷ text "gitchangeoperators" ∷ [];
      verbs = all_verbs;
    }
    ∷ record {
      api_groups = own_group;
      resources =
          text "gitcommits/finalizers"
          ∷ text "pullrequests/finalizers"
          ∷ text "gitchangeoperators/finalizers"
          ∷ [];
      verbs = text "update" ∷ [];
    }
    ∷ record {
      api_groups = own_group;
      resources =
          text "gitcommits/status"
          ∷ text "pullrequests/status"
          ∷ text "gitchangeoperators/status"
          ∷ [];
      verbs = text "get" ∷ text "patch" ∷ text "update" ∷ [];
    }
    ∷ []

abbrev pub role_name : GitChangeOperator → Text
role_name o = o.name ++ text "-manager-role"

unfoldable pub manager_role : GitChangeOperator → Role
manager_role o = record { meta = new_meta (role_name o) o.namespace; rules = manager_rules }

abbrev pub binding_name : GitChangeOperator → Text
binding_name o = o.name ++ text "-manager-rolebinding"

unfoldable pub manager_binding : GitChangeOperator → RoleBinding
unfolding manager_account
manager_binding o = record {
  meta = new_meta (binding_name o) o.namespace;
  role_ref = record {
    api_group = text "rbac.authorization.k8s.io";
    kind = text "Role";
    name = role_name o;
  };
  subjects =
      record { kind = text "ServiceAccount"; name = manager_account o; namespace = o.namespace }
      ∷ [];
}
