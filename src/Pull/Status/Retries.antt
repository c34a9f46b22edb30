-- ===== src/Pull/Status/Retries.antt =====
-- That the three writers with a retry loop get through in spite of conflicts.
use git_change_operator.Base.{ℕ, zero, suc, ◌≤◌, ◌<◌, ◌≡◌, Text, true, false, arith, ◌==◌}
use git_change_operator.Base.Words.{Time}
use git_change_operator.Effects.{Error, is_conflict, Result, ok, err, Exec}
use git_change_operator.Effects.Rules.{Post, Post-bind}
use git_change_operator.Api.Pull.{PullRequest, PullRequestPhase}
use git_change_operator.Platform.{Platform}
use git_change_operator.Pull.Status.{
  State, max_retries, exhausted, next_time_exhausted, replace_status, patch_next_time, fetch_fresh,
  try_update, pause, settle, conclude, retry_loop, patched_execution, patched_status, patched_next,
  record_pr_execution, update_schedule_status, update_next_scheduled_time,
}

-- An API server that answers, in the worlds of `Yields n`: reads succeed, and an update succeeds or is
-- refused by a conflict, after which one conflict less can follow.
pub record IsYielding (P : Platform) (Yields : ℕ → P.World → Type 0) : Type 0 where
  pub now : (n : ℕ) (w : P.World) → Yields n w → Yields n (P.now w).1
  pub sleep : (n d : ℕ) (w : P.World) → Yields n w → Yields n (P.sleep d w)
  pub read :
      (n : ℕ) (namespace name : Text) (w : P.World)
      → Yields n w
      → Post (λ o w'. Yields n w') (λ e w'. ⊥) (P.get_pull namespace name w)
  pub update :
      (n : ℕ) (o : PullRequest) (w : P.World)
      → Yields n w
      → Post
          (λ o' w'. Unit {0})
          (λ e w'. (is_conflict e ≡ true) × (m : ℕ) × (n ≡ suc m) × Yields m w')
          (P.update_pull_status o w)

module _ (P : Platform) (Yields : ℕ → P.World → Type 0) (F : IsYielding P Yields) where
  -- The call returns.
  abbrev pub Returns : Result {0} Unit × State P → Type 0
  Returns p = Post (λ u t. Unit {0}) (λ e t. ⊥) p

  -- The call prepares an update, and leaves the conflicts to come.
  abbrev Prepares : ℕ → Exec (State P) PullRequest → Type 0
  Prepares n m = (s : State P) → Yields n s.world → Post (λ o t. Yields n t.world) (λ e t. ⊥) (m s)

  -- What is left of the conflicts behind an update.
  abbrev Left : ℕ → Result PullRequest → State P → Type 0
  Left n (ok o) t = Unit
  Left n (err e) t = (is_conflict e ≡ true) × (m : ℕ) × (n ≡ suc m) × Yields m t.world

  try_update-Left :
      (n : ℕ) (o : PullRequest) (s : State P)
      → Yields n s.world
      → Post (Left n) (λ e t. ⊥) (try_update P o s)
  try_update-Left n o s y =
      go (P.update_pull_status o s.world).0 (P.update_pull_status o s.world).1
        (F.update n o s.world y)
    where
      go :
          (r : Result PullRequest) (w : P.World)
          → Post
              (λ o' w'. Unit {0})
              (λ e w'. (is_conflict e ≡ true) × (m : ℕ) × (n ≡ suc m) × Yields m w')
              (r, w)
          → Left n r (record s { world = w })
      go (ok o') w h = tt
      go (err e) w h = h

  fetch_fresh-Prepares : (n : ℕ) → Prepares n (fetch_fresh P)
  fetch_fresh-Prepares n s y =
      go (P.get_pull s.object.namespace s.object.name s.world).0
        (P.get_pull s.object.namespace s.object.name s.world).1
        (F.read n s.object.namespace s.object.name s.world y)
    where
      go :
          (r : Result PullRequest) (w : P.World)
          → Post (λ o w'. Yields n w') (λ e w'. ⊥) (r, w)
          → Post {S = State P} (λ o t. Yields n t.world) (λ e t. ⊥) (r, record s { world = w })
      go (ok o) w h = h
      go (err e) w h = h

  conclude-Returns :
      (store : PullRequest → PullRequest → PullRequest) (left n : ℕ) (again : Exec (State P) Unit)
      (r : Result PullRequest) (s : State P)
      → n ≤ left
      → Left n r s
      → ((m : ℕ) (t : State P) → m < left → Yields m t.world → Returns (again t))
      → Returns (conclude P store left again r s)
  unfolding conclude settle
  conclude-Returns store left n again (ok o) s h l k = tt
  conclude-Returns store zero n again (err e) s h (c, m, q, y) k = absurd (omega (arith, h, q))
  conclude-Returns store (suc left) n again (err e) s h (c, m, q, y) k =
      let z : (suc left == 0) ≡ false = ground arith in
      rw (c, z)
        (k m (record s { world = P.sleep pause s.world }) (omega (arith, h, q))
          (F.sleep m pause s.world y))

  retry_loop-Returns :
      (failure : Error) (patched : Exec (State P) PullRequest)
      (store : PullRequest → PullRequest → PullRequest)
      → ((n : ℕ) → Prepares n patched)
      → (left n : ℕ) (s : State P) → n < left
      → Yields n s.world
      → Returns (retry_loop P left failure patched store s)
  unfolding retry_loop
  retry_loop-Returns failure patched store p zero n s h y = absurd (omega (arith, h))
  retry_loop-Returns failure patched store p (suc left) n s h y =
      Post-bind patched _ s _ _ _ (p n s y) (λ o t y'.
        Post-bind (try_update P o) (conclude P store left (retry_loop P left failure patched store))
          t _ _ _ (try_update-Left n o t y')
          (λ r t' l.
            conclude-Returns store left n _ r t' (omega (arith, h)) l
              (λ m t'' h' y''. retry_loop-Returns failure patched store p left m t'' h' y'')))

  patched_execution-Prepares :
      (n number : ℕ) (url : Text) (phase : PullRequestPhase) (message : Text)
      → Prepares n (patched_execution P number url phase message)
  unfolding patched_execution
  patched_execution-Prepares n number url phase message s y =
      Post-bind (fetch_fresh P) _ s _ _ _ (fetch_fresh-Prepares n s y)
        (λ fresh t y'. F.now n t.world y')

  patched_status-Prepares :
      (n : ℕ) (phase : PullRequestPhase) (message : Text)
      → Prepares n (patched_status P phase message)
  unfolding patched_status
  patched_status-Prepares n phase message s y =
      Post-bind (fetch_fresh P) _ s _ _ _ (fetch_fresh-Prepares n s y)
        (λ fresh t y'. F.now n t.world y')

  patched_next-Prepares : (n : ℕ) (next : Time) → Prepares n (patched_next P next)
  unfolding patched_next
  patched_next-Prepares n next s y =
      Post-bind (fetch_fresh P) _ s _ _ _ (fetch_fresh-Prepares n s y) (λ fresh t y'. y')

  -- The three writers with a retry loop get through an API server that refuses at most two more updates
  -- by a conflict and otherwise answers: each returns without an error.
  pub pull_writers-return :
      (n : ℕ) (s : State P)
      → n ≤ 2
      → Yields n s.world
      → ((number : ℕ) (url : Text) (phase : PullRequestPhase) (message : Text)
          → Returns (record_pr_execution P number url phase message s))
        × ((phase : PullRequestPhase) (message : Text)
            → Returns (update_schedule_status P phase message s))
        × ((next : Time) → Returns (update_next_scheduled_time P next s))
  unfolding record_pr_execution update_schedule_status update_next_scheduled_time
  pull_writers-return n s h y = (
    λ number url phase message.
        retry_loop-Returns exhausted _ replace_status
          (λ k. patched_execution-Prepares k number url phase message) max_retries n s
          (omega (arith, h)) y,
    λ phase message.
        retry_loop-Returns exhausted _ replace_status (λ k. patched_status-Prepares k phase message)
          max_retries n s (omega (arith, h)) y,
    λ next.
        retry_loop-Returns next_time_exhausted _ (λ _. patch_next_time next)
          (λ k. patched_next-Prepares k next) max_retries n s (omega (arith, h)) y,
  )
