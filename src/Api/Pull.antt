-- ===== src/Api/Pull.antt =====
-- api/v1/pullrequest_types.go: the PullRequest resource.
use git_change_operator.Base.{ℕ, Text, Bool, Option, List}
use git_change_operator.Base.Words.{Time}
use git_change_operator.Api.Rest.{RestApi, RestApiStatus}
use git_change_operator.Api.Files.{File, ResourceRef, Encryption}

pub record PullRequestSpec : Type 0 where
  pub repository : Text
  pub base_branch : Text
  pub head_branch : Text
  pub title : Text
  pub body : Text
  pub files : List File
  pub resource_refs : List ResourceRef
  pub auth_secret_ref : Text
  pub auth_secret_key : Text
  pub encryption : Option Encryption
  pub rest_apis : List RestApi
  pub ttl_minutes : Option ℕ
  pub schedule : Text
  pub suspend : Bool
  pub max_execution_history : Option ℕ

-- `unset` is the empty string of a resource that no reconcile has touched.
pub data PullRequestPhase : Type 0 where
  unset pending running created failed : PullRequestPhase

pub record PrExecutionRecord : Type 0 where
  pub execution_time : Time
  pub pull_request_number : ℕ
  pub pull_request_url : Text
  pub phase : PullRequestPhase
  pub message : Text

pub record PullRequestStatus : Type 0 where
  pub pull_request_number : ℕ
  pub pull_request_url : Text
  pub phase : PullRequestPhase
  pub message : Text
  pub last_sync : Option Time
  pub rest_api_statuses : List RestApiStatus
  pub last_scheduled_time : Option Time
  pub next_scheduled_time : Option Time
  pub execution_history : List PrExecutionRecord

-- Of the object's metadata, what the code reads, and the version by which updates conflict.
pub record PullRequest : Type 0 where
  pub name : Text
  pub namespace : Text
  pub resource_version : ℕ
  pub creation_timestamp : Time
  pub spec : PullRequestSpec
  pub status : PullRequestStatus
