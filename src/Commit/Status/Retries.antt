-- ===== src/Commit/Status/Retries.antt =====
-- That the writers of the status get through in spite of conflicts.
use git_change_operator.Base.{ℕ, zero, suc, ◌≤◌, ◌<◌, ◌≡◌, Text, true, false, Option, arith, ◌==◌}
use git_change_operator.Base.Words.{Time}
use git_change_operator.Effects.{Error, is_conflict, Result, ok, err, Exec, get, ◌>>=◌}
use git_change_operator.Effects.Rules.{Post, Post-bind}
use git_change_operator.Api.Commit.{GitCommit, GitCommitPhase}
use git_change_operator.Platform.{Platform}
use git_change_operator.Commit.Status.Patches.{
  patch_status, patch_schedule_status, patch_execution, patch_next_time,
}
use git_change_operator.Commit.Status.{
  State, max_retries, clock, fetch_fresh, try_update, pause, conclude_status, status_loop,
  update_status, settle, conclude_update, conclude_next, execution_loop, record_execution,
  schedule_status_loop, update_schedule_status, next_time_loop, update_next_scheduled_time,
}

-- An API server that answers, in the worlds of `Yields n`: reads succeed, and an update succeeds or is
-- refused by a conflict, after which one conflict less can follow.
pub record IsYielding (P : Platform) (Yields : ℕ → P.World → Type 0) : Type 0 where
  pub now : (n : ℕ) (w : P.World) → Yields n w → Yields n (P.now w).1
  pub sleep : (n d : ℕ) (w : P.World) → Yields n w → Yields n (P.sleep d w)
  pub read :
      (n : ℕ) (namespace name : Text) (w : P.World)
      → Yields n w
      → Post (λ o w'. Yields n w') (λ e w'. ⊥) (P.get_commit namespace name w)
  pub update :
      (n : ℕ) (o : GitCommit) (w : P.World)
      → Yields n w
      → Post
          (λ o' w'. Unit {0})
          (λ e w'. (is_conflict e ≡ true) × (m : ℕ) × (n ≡ suc m) × Yields m w')
          (P.update_commit_status o w)

module _ (P : Platform) (Yields : ℕ → P.World → Type 0) (F : IsYielding P Yields) where
  -- The call returns.
  abbrev pub Returns : Result {0} Unit × State P → Type 0
  Returns p = Post (λ u t. Unit {0}) (λ e t. ⊥) p

  -- What is left of the conflicts behind an update.
  abbrev Left : ℕ → Result GitCommit → State P → Type 0
  Left n (ok o) t = Unit
  Left n (err e) t = (is_conflict e ≡ true) × (m : ℕ) × (n ≡ suc m) × Yields m t.world

  try_update-Left :
      (n : ℕ) (o : GitCommit) (s : State P)
      → Yields n s.world
      → Post (Left n) (λ e t. ⊥) (try_update P o s)
  try_update-Left n o s y =
      go (P.update_commit_status o s.world).0 (P.update_commit_status o s.world).1
        (F.update n o s.world y)
    where
      go :
          (r : Result GitCommit) (w : P.World)
          → Post
              (λ o' w'. Unit {0})
              (λ e w'. (is_conflict e ≡ true) × (m : ℕ) × (n ≡ suc m) × Yields m w')
              (r, w)
          → Left n r (record s { world = w })
      go (ok o') w h = tt
      go (err e) w h = h

  fetch_fresh-Yields :
      (n : ℕ) (s : State P)
      → Yields n s.world
      → Post (λ o t. Yields n t.world) (λ e t. ⊥) (fetch_fresh P s)
  fetch_fresh-Yields n s y =
      go (P.get_commit s.object.namespace s.object.name s.world).0
        (P.get_commit s.object.namespace s.object.name s.world).1
        (F.read n s.object.namespace s.object.name s.world y)
    where
      go :
          (r : Result GitCommit) (w : P.World)
          → Post (λ o w'. Yields n w') (λ e w'. ⊥) (r, w)
          → Post {S = State P} (λ o t. Yields n t.world) (λ e t. ⊥) (r, record s { world = w })
      go (ok o) w h = h
      go (err e) w h = h

  -- One attempt of a loop that reads a fresh copy and the clock.
  attempt-Returns :
      (n : ℕ) (patch : Time → GitCommit → GitCommit → GitCommit)
      (conclude : Result GitCommit → Exec (State P) Unit) (s : State P)
      → Yields n s.world
      → ((r : Result GitCommit) (t : State P) → Left n r t → Returns (conclude r t))
      → Returns (
          (do
            fresh ← fetch_fresh P
            t ← clock P
            old ← get (λ o. o)
            r ← try_update P (patch t old fresh)
            conclude r)
            s)
  attempt-Returns n patch conclude s y k =
      Post-bind (fetch_fresh P) _ s _ _ _ (fetch_fresh-Yields n s y) (λ fresh t y'.
        Post-bind (try_update P (patch (P.now t.world).0 t.object fresh)) conclude
          (record t { world = (P.now t.world).1 }) _ _ _
          (try_update-Left n _ _ (F.now n t.world y')) k)

  settle-Returns :
      (left n : ℕ) (e : Error) (again : Exec (State P) Unit) (s : State P)
      → n ≤ left
      → Left n (err e) s
      → ((m : ℕ) (t : State P) → m < left → Yields m t.world → Returns (again t))
      → Returns (settle P left e again s)
  unfolding settle
  settle-Returns zero n e again s h (c, m, q, y) k = absurd (omega (arith, h, q))
  settle-Returns (suc left) n e again s h (c, m, q, y) k =
      let z : (suc left == 0) ≡ false = ground arith in
      rw (c, z)
        (k m (record s { world = P.sleep pause s.world }) (omega (arith, h, q))
          (F.sleep m pause s.world y))

  conclude_update-Returns :
      (left n : ℕ) (again : Exec (State P) Unit) (r : Result GitCommit) (s : State P)
      → n ≤ left
      → Left n r s
      → ((m : ℕ) (t : State P) → m < left → Yields m t.world → Returns (again t))
      → Returns (conclude_update P left again r s)
  unfolding conclude_update
  conclude_update-Returns left n again (ok o) s h l k = tt
  conclude_update-Returns left n again (err e) s h l k = settle-Returns left n e again s h l k

  conclude_status-Returns :
      (left n : ℕ) (again : Exec (State P) Unit) (r : Result GitCommit) (s : State P)
      → n ≤ left
      → Left n r s
      → ((m : ℕ) (t : State P) → m < left → Yields m t.world → Returns (again t))
      → Returns (conclude_status P again r s)
  unfolding conclude_status
  conclude_status-Returns left n again (ok o) s h l k = tt
  conclude_status-Returns left n again (err e) s h (c, m, q, y) k =
      rw c (k m s (omega (arith, h, q)) y)

  conclude_next-Returns :
      (next : Time) (left n : ℕ) (again : Exec (State P) Unit) (r : Result GitCommit) (s : State P)
      → n ≤ left
      → Left n r s
      → ((m : ℕ) (t : State P) → m < left → Yields m t.world → Returns (again t))
      → Returns (conclude_next P next left again r s)
  unfolding conclude_next
  conclude_next-Returns next left n again (ok o) s h l k = tt
  conclude_next-Returns next left n again (err e) s h l k = settle-Returns left n e again s h l k

  status_loop-Returns :
      (phase : GitCommitPhase) (message : Text) (left n : ℕ) (s : State P)
      → n < left
      → Yields n s.world
      → Returns (status_loop P left phase message s)
  unfolding status_loop
  status_loop-Returns phase message zero n s h y = absurd (omega (arith, h))
  status_loop-Returns phase message (suc left) n s h y =
      attempt-Returns n (patch_status phase message) _ s y (λ r t l.
        conclude_status-Returns left n _ r t (omega (arith, h)) l
          (λ m t' h' y'. status_loop-Returns phase message left m t' h' y'))

  execution_loop-Returns :
      (sha : Text) (phase : GitCommitPhase) (message : Text) (next : Option Time) (left n : ℕ)
      (s : State P)
      → n < left
      → Yields n s.world
      → Returns (execution_loop P left sha phase message next s)
  unfolding execution_loop
  execution_loop-Returns sha phase message next zero n s h y = absurd (omega (arith, h))
  execution_loop-Returns sha phase message next (suc left) n s h y =
      attempt-Returns n (patch_execution sha phase message next) _ s y (λ r t l.
        conclude_update-Returns left n _ r t (omega (arith, h)) l
          (λ m t' h' y'. execution_loop-Returns sha phase message next left m t' h' y'))

  schedule_status_loop-Returns :
      (phase : GitCommitPhase) (message : Text) (left n : ℕ) (s : State P)
      → n < left
      → Yields n s.world
      → Returns (schedule_status_loop P left phase message s)
  unfolding schedule_status_loop
  schedule_status_loop-Returns phase message zero n s h y = absurd (omega (arith, h))
  schedule_status_loop-Returns phase message (suc left) n s h y =
      attempt-Returns n (patch_schedule_status phase message) _ s y (λ r t l.
        conclude_update-Returns left n _ r t (omega (arith, h)) l
          (λ m t' h' y'. schedule_status_loop-Returns phase message left m t' h' y'))

  next_time_loop-Returns :
      (next : Time) (left n : ℕ) (s : State P)
      → n < left
      → Yields n s.world
      → Returns (next_time_loop P left next s)
  unfolding next_time_loop
  next_time_loop-Returns next zero n s h y = absurd (omega (arith, h))
  next_time_loop-Returns next (suc left) n s h y =
      Post-bind (fetch_fresh P) _ s _ _ _ (fetch_fresh-Yields n s y) (λ fresh t y'.
        Post-bind (try_update P (patch_next_time next fresh))
          (conclude_next P next left (next_time_loop P left next)) t _ _ _
          (try_update-Left n _ t y')
          (λ r t' l.
            conclude_next-Returns next left n _ r t' (omega (arith, h)) l
              (λ m t'' h' y''. next_time_loop-Returns next left m t'' h' y'')))

  -- Every writer of the status gets through an API server that refuses at most two more updates by a
  -- conflict and otherwise answers: each of the four returns without an error.
  pub writers-return :
      (n : ℕ) (s : State P)
      → n ≤ 2
      → Yields n s.world
      → ((phase : GitCommitPhase) (message : Text) → Returns (update_status P phase message s))
        × ((sha : Text) (phase : GitCommitPhase) (message : Text) (next : Option Time)
            → Returns (record_execution P sha phase message next s))
        × ((phase : GitCommitPhase) (message : Text)
            → Returns (update_schedule_status P phase message s))
        × ((next : Time) → Returns (update_next_scheduled_time P next s))
  unfolding update_status record_execution update_schedule_status update_next_scheduled_time
  writers-return n s h y = (
    λ phase message. status_loop-Returns phase message max_retries n s (omega (arith, h)) y,
    λ sha phase message next.
        execution_loop-Returns sha phase message next max_retries n s (omega (arith, h)) y,
    λ phase message.
        schedule_status_loop-Returns phase message max_retries n s (omega (arith, h)) y,
    λ next. next_time_loop-Returns next max_retries n s (omega (arith, h)) y,
  )
