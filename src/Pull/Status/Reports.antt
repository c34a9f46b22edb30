-- ===== src/Pull/Status/Reports.antt =====
-- What `recordPRExecution` promises to its callers.
use git_change_operator.Base.{ℕ, zero, suc, ◌≤◌, ◌≡◌, refl, ap, ◌∙◌, ◌⊎◌, inl, inr, not, ◌&&◌}
use git_change_operator.Base.{Text, List, ◌∷◌, map, length, ◌==◌, Bool-cases}
use mathlib.Core.Option
use git_change_operator.Base.Words.{Time}
use git_change_operator.Effects.{Error, Result, ok, err, Exec, is_conflict}
use git_change_operator.Effects.Rules.{Post, Post-bind, Post-map, outside-bind}
use git_change_operator.Api.Pull.{PullRequest, PullRequestPhase, PrExecutionRecord}
use git_change_operator.Platform.{Platform}
use git_change_operator.Platform.Laws.{
  IsPullServer, persisted_pull, persisted_pull_record, at_second,
}
use git_change_operator.Commit.Status.Patches.{trim}
use git_change_operator.Commit.Status.Reports.{length-map, length-trim, trim-cons}
use git_change_operator.Pull.Status.{
  State, max_retries, pause, exhausted, replace_status, settle, conclude, retry_loop,
  patch_execution, patched_execution, entry, history_limit, record_pr_execution,
}

module _ (P : Platform) (old : PullRequest) (Sent : PullRequest → Type 0) where
  -- The object has the status that the server made of one that was sent.
  abbrev Stored : Unit {0} → State P → Type 0
  Stored u t = (o : PullRequest) × Sent o × (t.object.status ≡ persisted_pull o.status)

  abbrev Unchanged : Error → State P → Type 0
  Unchanged e t = t.object ≡ old

  -- A copy to send, and the caller's object as it was.
  abbrev Ready : PullRequest → State P → Type 0
  Ready o t = Sent o × (t.object ≡ old)

  settle-Post :
      (left : ℕ) (e : Error) (again : Exec (State P) Unit) (s : State P)
      → s.object ≡ old
      → ((w : P.World) → Post Stored Unchanged (again (record s { world = w })))
      → Post Stored Unchanged (settle P left e again s)
  unfolding settle
  settle-Post left e again s h retried = elim (Bool-cases (is_conflict e && not (left == 0))) [
    | inl y ↦ rw y (retried (P.sleep pause s.world))
    | inr n ↦ rw n h
  ]

  module _ (L : IsPullServer P) where
    conclude-Post :
        (left : ℕ) (again : Exec (State P) Unit) (o : PullRequest) (s : State P) (w w' : P.World)
        (r : Result PullRequest)
        → Ready o s
        → P.update_pull_status o w ≡ (r, w')
        → ((v : P.World) → Post Stored Unchanged (again (record s { world = v })))
        → Post Stored Unchanged (conclude P replace_status left again r (record s { world = w' }))
    unfolding conclude
    conclude-Post left again o s w w' (ok updated) (q, h) sent retried =
        (o, q, L.updated_status _ _ _ _ sent)
    conclude-Post left again o s w w' (err e) (q, h) sent retried =
        settle-Post left e again (record s { world = w' }) h retried

    retry_loop-Post :
        (failure : Error) (patched : Exec (State P) PullRequest)
        → ((s : State P) → s.object ≡ old → Post Ready Unchanged (patched s))
        → (n : ℕ) (s : State P) → s.object ≡ old
        → Post Stored Unchanged (retry_loop P n failure patched replace_status s)
    unfolding retry_loop
    retry_loop-Post failure patched making zero s h = h
    retry_loop-Post failure patched making (suc n) s h =
        Post-bind patched _ s Ready Stored Unchanged (making s h) (λ o t (q, k).
          conclude-Post n (retry_loop P n failure patched replace_status) o t t.world
            (P.update_pull_status o t.world).1 (P.update_pull_status o t.world).0 (q, k) refl
            (λ v. retry_loop-Post failure patched making n (record t { world = v }) k))

-- The history stays within its limit and begins with the new record; the status shows the execution.
pub record IsRecorded (old new : PullRequest) (number : ℕ) (url : Text) (phase : PullRequestPhase)
    (message : Text) : Type 0 where
  pub bounded : length new.status.execution_history ≤ history_limit old
  pub newest :
      (history_limit old ≡ 0)
      ⊎ (t : Time) × (rest : List PrExecutionRecord) × (new.status.execution_history
          ≡ entry number url phase message t ∷ rest)
  pub shows : (new.status.phase ≡ phase) × (new.status.message ≡ message)
  pub numbered : (new.status.pull_request_number ≡ number) × (new.status.pull_request_url ≡ url)
  pub last_kept :
      new.status.last_scheduled_time ≡ Option.map at_second old.status.last_scheduled_time

history_newest :
    (n : ℕ) (x : PrExecutionRecord) (xs ys : List PrExecutionRecord)
    → ys ≡ map persisted_pull_record (trim n (x ∷ xs))
    → (n ≡ 0) ⊎ (rest : List PrExecutionRecord) × (ys ≡ persisted_pull_record x ∷ rest)
history_newest n x xs ys e = elim (trim-cons n x xs) [
  | inl h ↦ inl h
  | inr (rest, f) ↦ inr (map persisted_pull_record rest, e ∙ ap (map persisted_pull_record) f)
]

patch_execution-IsRecorded :
    (number : ℕ) (url : Text) (phase : PullRequestPhase) (message : Text) (t : Time)
    (old fresh new : PullRequest)
    → new.status ≡ persisted_pull (patch_execution number url phase message t old fresh).status
    → IsRecorded old new number url phase message
unfolding patch_execution
patch_execution-IsRecorded number url phase message t old fresh new e = record {
  bounded =
      rw (ap (λ st. st.execution_history) e, length-map persisted_pull_record)
        (length-trim (history_limit old) _);
  newest = elim (history_newest _ _ _ _ (ap (λ st. st.execution_history) e)) [
    | inl h ↦ inl h
    | inr (rest, f) ↦ inr (at_second t, rest, f)
  ];
  shows = (ap (λ st. st.phase) e, ap (λ st. st.message) e);
  numbered = (ap (λ st. st.pull_request_number) e, ap (λ st. st.pull_request_url) e);
  last_kept = ap (λ st. st.last_scheduled_time) e;
}

module _ (P : Platform) (number : ℕ) (url : Text) (phase : PullRequestPhase) (message : Text) where
  -- What the loop sends: the patch of some fresh copy at some time.
  abbrev IsSent : PullRequest → PullRequest → Type 0
  IsSent old o =
      (t : Time) × (fresh : PullRequest) × (o
        ≡ patch_execution number url phase message t old fresh)

  patched_execution-Post :
      (old : PullRequest) (s : State P)
      → s.object ≡ old
      → Post
          (Ready P old (IsSent old))
          (Unchanged P old (IsSent old))
          (patched_execution P number url phase message s)
  unfolding patched_execution
  patched_execution-Post old s h =
      outside-bind (P.get_pull s.object.namespace s.object.name) _ s _ _ (λ e w k. h)
        (λ fresh w k. (
          (
            (P.now w).0,
            fresh,
            ap (λ o. patch_execution number url phase message (P.now w).0 o fresh) h,
          ),
          h,
        ))

  -- Against an API server that stores what an update sends, `recordPRExecution` either returns, and then
  -- the caller's object has a history within the limit (`maxExecutionHistory`, 10 if unset) that begins
  -- with this execution if the limit is not 0, shows the execution's phase, message, number and URL, and
  -- keeps the caller's last scheduled time; or it fails and leaves the object as it was.
  pub record_pr_execution-records :
      IsPullServer P
      → (s : State P)
      → Post
          (λ u t. IsRecorded s.object t.object number url phase message)
          (λ e t. t.object ≡ s.object)
          (record_pr_execution P number url phase message s)
  unfolding record_pr_execution
  record_pr_execution-records L s =
      Post-map
        (retry_loop P max_retries exhausted (patched_execution P number url phase message)
          replace_status s)
        (Stored P s.object (IsSent s.object)) _ (Unchanged P s.object (IsSent s.object))
        (λ u t (o, (now, fresh, sent), e).
          patch_execution-IsRecorded number url phase message now s.object fresh t.object
            (e ∙ ap (λ p. persisted_pull p.status) sent))
        (retry_loop-Post P s.object (IsSent s.object) L exhausted
          (patched_execution P number url phase message) (patched_execution-Post s.object)
          max_retries s refl)
