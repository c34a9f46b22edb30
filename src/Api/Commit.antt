-- ===== src/Api/Commit.antt =====
-- api/v1/gitcommit_types.go: the GitCommit resource.
use git_change_operator.Base.{ℕ, Text, Bool, Option, List}
use git_change_operator.Base.Words.{Time}
use git_change_operator.Api.Rest.{RestApi, RestApiStatus}
use git_change_operator.Api.Files.{File, ResourceRef, Encryption}

pub record GitCommitSpec : Type 0 where
  pub repository : Text
  pub branch : Text
  pub files : List File
  pub resource_refs : List ResourceRef
  pub commit_message : Text
  pub auth_secret_ref : Text
  pub auth_secret_key : Text
  pub encryption : Option Encryption
  pub rest_apis : List RestApi
  pub ttl_minutes : Option ℕ
  pub schedule : Text
  pub suspend : Bool
  pub max_execution_history : Option ℕ

-- `unset` is the empty string of a resource that no reconcile has touched.
pub data GitCommitPhase : Type 0 where
  unset pending running committed failed : GitCommitPhase

pub record ExecutionRecord : Type 0 where
  pub execution_time : Time
  pub commit_sha : Text
  pub phase : GitCommitPhase
  pub message : Text

pub record GitCommitStatus : Type 0 where
  pub commit_sha : Text
  pub phase : GitCommitPhase
  pub message : Text
  pub last_sync : Option Time
  pub rest_api_statuses : List RestApiStatus
  pub last_scheduled_time : Option Time
  pub next_scheduled_time : Option Time
  pub execution_history : List ExecutionRecord

-- Of the object's metadata, what the code reads, and the version by which updates conflict.
pub record GitCommit : Type 0 where
  pub name : Text
  pub namespace : Text
  pub resource_version : ℕ
  pub creation_timestamp : Time
  pub spec : GitCommitSpec
  pub status : GitCommitStatus
