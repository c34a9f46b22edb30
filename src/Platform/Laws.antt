-- ===== src/Platform/Laws.antt =====
-- What the code relies on of the platform.
use git_change_operator.Base.{◌/◌, ◌*◌, ◌≡◌, map, Text, List}
use git_change_operator.Base.Words.{Time, second}
use git_change_operator.Effects.{ok}
use git_change_operator.Api.Rest.{RestApiStatus}
use git_change_operator.Api.Commit.{GitCommit, GitCommitStatus, ExecutionRecord}
use git_change_operator.Api.Pull.{PullRequest, PullRequestStatus, PrExecutionRecord}
use git_change_operator.Platform.{Platform}
use mathlib.Core.Option
use mathlib.Core.List.{Memᴰ}

-- A `metav1.Time` is kept to the second.
abbrev pub at_second : Time → Time
at_second t = t / second * second

abbrev pub persisted_rest : RestApiStatus → RestApiStatus
persisted_rest st = record st { last_call_time = Option.map at_second st.last_call_time }

abbrev pub persisted_record : ExecutionRecord → ExecutionRecord
persisted_record r = record r { execution_time = at_second r.execution_time }

-- A status as the API server keeps it.
abbrev pub persisted : GitCommitStatus → GitCommitStatus
persisted st = record st {
  last_sync = Option.map at_second st.last_sync;
  rest_api_statuses = map persisted_rest st.rest_api_statuses;
  last_scheduled_time = Option.map at_second st.last_scheduled_time;
  next_scheduled_time = Option.map at_second st.next_scheduled_time;
  execution_history = map persisted_record st.execution_history;
}

abbrev pub persisted_pull_record : PrExecutionRecord → PrExecutionRecord
persisted_pull_record r = record r { execution_time = at_second r.execution_time }

abbrev pub persisted_pull : PullRequestStatus → PullRequestStatus
persisted_pull st = record st {
  last_sync = Option.map at_second st.last_sync;
  rest_api_statuses = map persisted_rest st.rest_api_statuses;
  last_scheduled_time = Option.map at_second st.last_scheduled_time;
  next_scheduled_time = Option.map at_second st.next_scheduled_time;
  execution_history = map persisted_pull_record st.execution_history;
}

-- The status subresource of the Kubernetes API: an update that succeeds fills the object in with what
-- the server stores, which is the status that was sent and the server's own spec and metadata.
pub record IsApiServer (P : Platform) : Type 0 where
  pub updated_status :
      (o o' : GitCommit) (w w' : Platform.World P)
      → P.update_commit_status o w ≡ (ok o', w')
      → o'.status ≡ persisted o.status

pub record IsPullServer (P : Platform) : Type 0 where
  pub updated_status :
      (o o' : PullRequest) (w w' : Platform.World P)
      → P.update_pull_status o w ≡ (ok o', w')
      → o'.status ≡ persisted_pull o.status

-- age, as it is documented: what is written between the creation of a writer and its close is sealed for
-- the writer's recipients, and a file opens for a list of identities if one of them belongs to one of
-- its recipients.
pub record IsAge (P : Platform) (IsPair : P.AgeRecipient → P.AgeIdentity → Type 0)
    (IsSealed : Text → List P.AgeRecipient → Text → Type 0) : Type 0 where
  pub seals :
      (recipients : List P.AgeRecipient) (out : P.AgeWriter) (content bytes : Text)
      (w w₁ w₂ w₃ : P.World)
      → P.age_encrypt recipients w ≡ (ok out, w₁)
      → P.age_write out content w₁ ≡ (ok tt, w₂)
      → P.age_close out w₂ ≡ (ok bytes, w₃)
      → IsSealed bytes recipients content
  pub opens :
      (recipients : List P.AgeRecipient) (identities : List P.AgeIdentity) (a : P.AgeRecipient)
      (i : P.AgeIdentity) (content bytes : Text)
      → IsSealed bytes recipients content
      → Memᴰ a recipients
      → Memᴰ i identities
      → IsPair a i
      → (reader : P.AgeReader) × (P.age_decrypt bytes identities ≡ ok reader)
        × (P.read_all reader ≡ ok content)
