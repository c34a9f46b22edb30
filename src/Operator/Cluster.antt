-- ===== src/Operator/Cluster.antt =====
-- What the GitChangeOperator controller calls and does not implement: the objects of Kubernetes that it
-- makes, with the fields that it sets, the API for each kind of them, controller-runtime's owner
-- references and finalizers, client-go's retry, and the environment of the process.
use git_change_operator.Base.{ℕ, Text, Bool, Option, List}
use git_change_operator.Effects.{Result, Exec}
use git_change_operator.Base.Words.{Time}
use git_change_operator.Api.Operator.{GitChangeOperator}

-- Of `metav1.ObjectMeta`: the owners are the references that make an object the controller's own.
pub record Meta : Type 0 where
  pub name : Text
  pub namespace : Text
  pub resource_version : Text
  pub labels : List (Text × Text)
  pub annotations : List (Text × Text)
  pub owners : List Text

-- A variable of the environment that a field of the pod gives.
pub record EnvVar : Type 0 where
  pub name : Text
  pub field_path : Text

pub record VolumeMount : Type 0 where
  pub name : Text
  pub mount_path : Text

pub record Container : Type 0 where
  pub name : Text
  pub image : Text
  pub image_pull_policy : Text
  pub args : List Text
  pub env : List EnvVar
  pub volume_mounts : List VolumeMount

-- The volumes are empty directories, given by name.
pub record PodSpec : Type 0 where
  pub service_account_name : Text
  pub termination_grace_period_seconds : Option ℕ
  pub containers : List Container
  pub empty_dirs : List Text

pub record Deployment : Type 0 where
  pub meta : Meta
  pub replicas : Option ℕ
  pub selector : List (Text × Text)
  pub template_labels : List (Text × Text)
  pub pod : PodSpec

pub record ServiceAccount : Type 0 where
  pub meta : Meta

pub record PolicyRule : Type 0 where
  pub api_groups : List Text
  pub resources : List Text
  pub verbs : List Text

pub record Role : Type 0 where
  pub meta : Meta
  pub rules : List PolicyRule

pub record RoleRef : Type 0 where
  pub api_group : Text
  pub kind : Text
  pub name : Text

pub record Subject : Type 0 where
  pub kind : Text
  pub name : Text
  pub namespace : Text

pub record RoleBinding : Type 0 where
  pub meta : Meta
  pub role_ref : RoleRef
  pub subjects : List Subject

pub record ServicePort : Type 0 where
  pub name : Text
  pub port : ℕ
  pub target_port : ℕ
  pub protocol : Text

pub record Service : Type 0 where
  pub meta : Meta
  pub kind : Text
  pub ports : List ServicePort
  pub selector : List (Text × Text)

pub record Endpoint : Type 0 where
  pub path : Text
  pub port : Text
  pub scheme : Text
  pub bearer_token_file : Text
  pub insecure_skip_verify : Bool

-- The unstructured object of `monitoring.coreos.com/v1`.
pub record ServiceMonitor : Type 0 where
  pub meta : Meta
  pub endpoints : List Endpoint
  pub match_labels : List (Text × Text)

pub record HttpPath : Type 0 where
  pub path : Text
  pub path_type : Text
  pub service_name : Text
  pub service_port : ℕ

pub record IngressRule : Type 0 where
  pub host : Text
  pub paths : List HttpPath

pub record TlsEntry : Type 0 where
  pub hosts : List Text
  pub secret_name : Text

pub record Ingress : Type 0 where
  pub meta : Meta
  pub ingress_class_name : Option Text
  pub rules : List IngressRule
  pub tls : List TlsEntry

-- The API for one kind of object, which is named by its namespace and its name.
pub record Kind (W A : Type 0) : Type 0 where
  pub get : Text → Text → Exec W A
  pub create : A → Exec W Unit
  pub update : A → Exec W Unit
  pub delete : Text → Text → Exec W Unit

pub record Cluster : Type 1 where
  pub World : Type 0
  -- `os.Getenv`
  pub getenv : Text → Text
  pub get_operator : Text → Text → Exec World GitChangeOperator
  pub update_operator : GitChangeOperator → Exec World GitChangeOperator
  pub update_operator_status : GitChangeOperator → Exec World GitChangeOperator
  -- `retry.RetryOnConflict` with its default steps.
  pub retry_on_conflict : Exec World Unit → Exec World Unit
  -- `IsZero` of a `metav1.Time`
  pub is_zero : Option Time → Bool
  -- `controllerutil.ContainsFinalizer`, `AddFinalizer` and `RemoveFinalizer`
  pub contains_finalizer : GitChangeOperator → Text → Bool
  pub add_finalizer : GitChangeOperator → Text → GitChangeOperator
  pub remove_finalizer : GitChangeOperator → Text → GitChangeOperator
  -- `controllerutil.SetControllerReference`
  pub set_controller : GitChangeOperator → Meta → Result Meta
  pub deployments : Kind World Deployment
  -- A merge patch: what stood in the object that was read, and what is to stand there.
  pub patch_deployment : Deployment → Deployment → Exec World Unit
  pub service_accounts : Kind World ServiceAccount
  pub roles : Kind World Role
  pub role_bindings : Kind World RoleBinding
  pub services : Kind World Service
  pub service_monitors : Kind World ServiceMonitor
  pub ingresses : Kind World Ingress
