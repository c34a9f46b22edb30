-- ===== src/Api/Operator.antt =====
-- api/v1/gitchangeoperator_types.go: the GitChangeOperator resource. An `int32` is its value where it
-- is not negative.
use git_change_operator.Base.{ℕ, Text, Bool, Option, List}
use git_change_operator.Base.Words.{Time}

pub record ImageConfig : Type 0 where
  pub repository : Text
  pub tag : Text
  pub pull_policy : Text

pub record OperatorConfig : Type 0 where
  pub leader_elect : Bool
  pub metrics_addr : Text
  pub probe_addr : Text

pub record RbacConfig : Type 0 where
  pub create : Bool

pub record ServiceAccountConfig : Type 0 where
  pub create : Bool
  pub name : Text

pub record MetricsServiceConfig : Type 0 where
  pub kind : Text
  pub port : ℕ

pub record ServiceMonitorConfig : Type 0 where
  pub enabled : Bool
  pub name : Text
  pub interval : Text
  pub scrape_timeout : Text
  pub labels : List (Text × Text)
  pub annotations : List (Text × Text)

pub record MetricsConfig : Type 0 where
  pub enabled : Bool
  pub service : MetricsServiceConfig
  pub service_monitor : ServiceMonitorConfig

pub record CrdsConfig : Type 0 where
  pub install : Bool

pub record IngressServicePort : Type 0 where
  pub number : ℕ

pub record IngressServiceBackend : Type 0 where
  pub name : Text
  pub port : IngressServicePort

pub record IngressBackend : Type 0 where
  pub service : IngressServiceBackend

pub record IngressPath : Type 0 where
  pub path : Text
  pub path_type : Text
  pub backend : IngressBackend

pub record IngressHost : Type 0 where
  pub host : Text
  pub paths : List IngressPath

pub record IngressTls : Type 0 where
  pub hosts : List Text
  pub secret_name : Text

pub record IngressConfig : Type 0 where
  pub enabled : Bool
  pub name : Text
  pub labels : List (Text × Text)
  pub annotations : List (Text × Text)
  pub ingress_class_name : Option Text
  pub hosts : List IngressHost
  pub tls : List IngressTls

-- `AdditionalValues` is raw JSON.
pub record GitChangeOperatorSpec : Type 0 where
  pub replica_count : Option ℕ
  pub image : ImageConfig
  pub operator : OperatorConfig
  pub rbac : RbacConfig
  pub service_account : ServiceAccountConfig
  pub metrics : MetricsConfig
  pub crds : CrdsConfig
  pub ingress : IngressConfig
  pub additional_values : Text

-- The conditions, which no code reads or writes, are left out.
pub record GitChangeOperatorStatus : Type 0 where
  pub phase : Text
  pub observed_generation : ℕ

-- Of the object's metadata, what the code reads.
pub record GitChangeOperator : Type 0 where
  pub name : Text
  pub namespace : Text
  pub generation : ℕ
  pub deletion_timestamp : Option Time
  pub finalizers : List Text
  pub spec : GitChangeOperatorSpec
  pub status : GitChangeOperatorStatus
