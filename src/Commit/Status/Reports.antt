-- ===== src/Commit/Status/Reports.antt =====
-- What `updateStatus` and `recordExecution` promise to their callers.
use git_change_operator.Base.{ℕ, zero, suc, ◌≤◌, ◌≡◌, refl, ap, ◌∙◌, ◌≢◌, ◌⊎◌, Text, Option}
use mathlib.Core.Option
use git_change_operator.Base.{none, some, List, [], ◌∷◌, map, arith, length, take, length-take, ltb}
use git_change_operator.Base.{Bool-cases, inl, inr}
use git_change_operator.Base.Words.{Time}
use git_change_operator.Effects.Rules.{Post, Post-map}
use git_change_operator.Api.Commit.{GitCommit, GitCommitPhase, ExecutionRecord}
use git_change_operator.Platform.{Platform}
use git_change_operator.Platform.Laws.{
  IsApiServer, persisted, persisted_rest, persisted_record, at_second,
}
use git_change_operator.Commit.Status.{
  status_loop, execution_loop, State, max_retries, update_status, record_execution,
}
use git_change_operator.Commit.Status.Laws.{
  Unchanged, Written, status_loop-Post, execution_loop-Post,
}
use git_change_operator.Commit.Status.Patches.{
  kept, kept_time, patch_status, patch_execution, history_limit, trim,
}

kept-cases {ℓ} : {A : Type ℓ} (xs ys : List A) → (xs ≡ []) ⊎ (kept xs ys ≡ xs)
kept-cases [] ys = inl refl
kept-cases (x ∷ xs) ys = inr refl

-- The phase and the message that were asked for, a time of the sync, and of the caller's own status
-- the commit and the REST statuses, if it has any.
pub record IsReported (old new : GitCommit) (phase : GitCommitPhase) (message : Text) : Type 0 where
  pub has_phase : new.status.phase ≡ phase
  pub has_message : new.status.message ≡ message
  pub is_synced : new.status.last_sync ≢ none
  pub keeps_sha : (old.status.commit_sha ≡ []) ⊎ (new.status.commit_sha ≡ old.status.commit_sha)
  pub keeps_rest :
      (old.status.rest_api_statuses ≡ [])
      ⊎ (new.status.rest_api_statuses ≡ map persisted_rest old.status.rest_api_statuses)

patch_status-IsReported :
    (phase : GitCommitPhase) (message : Text) (t : Time) (old fresh new : GitCommit)
    → new.status ≡ persisted (patch_status phase message t old fresh).status
    → IsReported old new phase message
unfolding patch_status
patch_status-IsReported phase message t old fresh new e = record {
  has_phase = ap (λ st. st.phase) e;
  has_message = ap (λ st. st.message) e;
  is_synced = λ h. cc (ap (λ st. st.last_sync) e);
  keeps_sha = elim (kept-cases old.status.commit_sha fresh.status.commit_sha) [
    | inl h ↦ inl h
    | inr h ↦ inr (ap (λ st. st.commit_sha) e ∙ h)
  ];
  keeps_rest = elim (kept-cases old.status.rest_api_statuses fresh.status.rest_api_statuses) [
    | inl h ↦ inl h
    | inr h ↦ inr (ap (λ st. st.rest_api_statuses) e ∙ ap (map persisted_rest) h)
  ];
}

pub length-map {ℓ κ} :
    {A : Type ℓ} {B : Type κ} (f : A → B) (xs : List A) → length (map f xs) ≡ length xs
length-map f [] = refl
length-map f (x ∷ xs) = ap suc (length-map f xs)

pub length-trim {ℓ} : {A : Type ℓ} (n : ℕ) (xs : List A) → length (trim n xs) ≤ n
unfolding trim
length-trim n xs = ground (arith, length-take n xs)

pub trim-cons {ℓ} :
    {A : Type ℓ} (n : ℕ) (x : A) (xs : List A)
    → (n ≡ 0) ⊎ (rest : List A) × (trim n (x ∷ xs) ≡ x ∷ rest)
unfolding trim
trim-cons zero x xs = inl refl
trim-cons (suc n) x xs = elim (Bool-cases (ltb (suc n) (length (x ∷ xs)))) [
  | inl long ↦ inr (take n xs, rw long)
  | inr short ↦ inr (xs, rw short)
]

history_bounded :
    (n : ℕ) (xs ys : List ExecutionRecord) → ys ≡ map persisted_record (trim n xs) → length ys ≤ n
history_bounded n xs ys e = rw (e, length-map) (length-trim n xs)

history_newest :
    (n : ℕ) (x : ExecutionRecord) (xs ys : List ExecutionRecord)
    → ys ≡ map persisted_record (trim n (x ∷ xs))
    → (n ≡ 0) ⊎ (rest : List ExecutionRecord) × (ys ≡ persisted_record x ∷ rest)
history_newest n x xs ys e = elim (trim-cons n x xs) [
  | inl h ↦ inl h
  | inr (rest, f) ↦ inr (map persisted_record rest, e ∙ ap (map persisted_record) f)
]

next_kept :
    (next fresh : Option Time)
    → (next ≡ none) ⊎ (Option.map at_second (kept_time next fresh) ≡ Option.map at_second next)
next_kept none fresh = inl refl
next_kept (some t) fresh = inr refl

-- The history stays within its limit and begins with the new record; the status shows the execution.
pub record IsRecorded (old new : GitCommit) (sha : Text) (phase : GitCommitPhase) (message : Text)
    (next : Option Time) : Type 0 where
  pub bounded : length new.status.execution_history ≤ history_limit old
  pub newest :
      (history_limit old ≡ 0)
      ⊎ (t : Time) × (rest : List ExecutionRecord) × (new.status.execution_history
          ≡ record { execution_time = t; commit_sha = sha; phase = phase; message = message }
            ∷ rest)
  pub shows :
      (new.status.phase ≡ phase) × (new.status.message ≡ message) × (new.status.commit_sha ≡ sha)
  pub last_kept :
      new.status.last_scheduled_time ≡ Option.map at_second old.status.last_scheduled_time
  pub next_set : (next ≡ none) ⊎ (new.status.next_scheduled_time ≡ Option.map at_second next)

patch_execution-IsRecorded :
    (sha : Text) (phase : GitCommitPhase) (message : Text) (next : Option Time) (t : Time)
    (old fresh new : GitCommit)
    → new.status ≡ persisted (patch_execution sha phase message next t old fresh).status
    → IsRecorded old new sha phase message next
unfolding patch_execution
patch_execution-IsRecorded sha phase message next t old fresh new e = record {
  bounded = history_bounded _ _ _ (ap (λ st. st.execution_history) e);
  newest = elim (history_newest _ _ _ _ (ap (λ st. st.execution_history) e)) [
    | inl h ↦ inl h
    | inr (rest, f) ↦ inr (at_second t, rest, f)
  ];
  shows = (ap (λ st. st.phase) e, ap (λ st. st.message) e, ap (λ st. st.commit_sha) e);
  last_kept = ap (λ st. st.last_scheduled_time) e;
  next_set = elim (next_kept next fresh.status.next_scheduled_time) [
    | inl h ↦ inl h
    | inr h ↦ inr (ap (λ st. st.next_scheduled_time) e ∙ h)
  ];
}

module _ (P : Platform) (L : IsApiServer P) where
  -- Against an API server that stores what an update sends, `updateStatus` with its three attempts
  -- either returns, and then the caller's object has the phase and the message, a sync time, and the
  -- commit and the REST statuses that the caller had; or it fails and leaves the object as it was.
  pub update_status-reports :
      (phase : GitCommitPhase) (message : Text) (s : State P)
      → Post
          (λ u t. IsReported s.object t.object phase message)
          (λ e t. t.object ≡ s.object)
          (update_status P phase message s)
  unfolding update_status
  update_status-reports phase message s =
      Post-map (status_loop P max_retries phase message s)
        (Written P (λ t fresh. patch_status phase message t s.object fresh)) _
        (Unchanged P s.object)
        (λ u t (fresh, now, e). patch_status-IsReported phase message now s.object fresh t.object e)
        (status_loop-Post P L phase message max_retries s)

  -- Against an API server that stores what an update sends, `recordExecution` either returns, and then
  -- the caller's object has a history within the limit (`maxExecutionHistory`, 10 if unset) that begins
  -- with this execution if the limit is not 0, shows the execution's phase, message and commit, keeps
  -- the caller's last scheduled time, and has the next one if one was given; or it fails and leaves the
  -- object as it was.
  pub record_execution-records :
      (sha : Text) (phase : GitCommitPhase) (message : Text) (next : Option Time) (s : State P)
      → Post
          (λ u t. IsRecorded s.object t.object sha phase message next)
          (λ e t. t.object ≡ s.object)
          (record_execution P sha phase message next s)
  unfolding record_execution
  record_execution-records sha phase message next s =
      Post-map (execution_loop P max_retries sha phase message next s)
        (Written P (λ t fresh. patch_execution sha phase message next t s.object fresh)) _
        (Unchanged P s.object)
        (λ u t (fresh, now, e).
          patch_execution-IsRecorded sha phase message next now s.object fresh t.object e)
        (execution_loop-Post P L sha phase message next max_retries s)
