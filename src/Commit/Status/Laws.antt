-- ===== src/Commit/Status/Laws.antt =====
-- What the writers of the status leave in the caller's object.
use git_change_operator.Base.{ℕ, zero, suc, ◌≡◌, refl, Text, Option, not, ◌&&◌}
use git_change_operator.Base.{◌==◌, inl, inr, Bool-cases}
use git_change_operator.Base.Words.{Time}
use git_change_operator.Effects.{
  Error, not_found, conflict, other, panic, Result, ok, err, Exec, is_conflict,
}
use git_change_operator.Effects.Rules.{Post, outside-bind}
use git_change_operator.Api.Commit.{GitCommit, GitCommitPhase}
use git_change_operator.Platform.{Platform}
use git_change_operator.Platform.Laws.{IsApiServer, persisted}
use git_change_operator.Commit.Status.{
  State, pause, conclude_status, status_loop, settle, conclude_update, execution_loop,
  schedule_status_loop,
}
use git_change_operator.Commit.Status.Patches.{patch_status, patch_execution, patch_schedule_status}

module _ (P : Platform) where
  -- An error leaves the caller's object as it was.
  abbrev pub Unchanged : GitCommit → Error → State P → Type 0
  Unchanged old e s = s.object ≡ old

  -- The object has the status that the server made of what `patch` sent, for some fresh copy and time.
  abbrev pub Written : (Time → GitCommit → GitCommit) → Unit {0} → State P → Type 0
  Written patch u s =
      (fresh : GitCommit) × (t : Time) × (s.object.status ≡ persisted (patch t fresh).status)

  -- A retry and a return after an error, for the loops that pause.
  settle-Post :
      (left : ℕ) (e : Error) (again : Exec (State P) Unit) (s : State P)
      (R : Unit {0} → State P → Type 0)
      → ((w : Platform.World P) → Post R (Unchanged s.object) (again (record s { world = w })))
      → Post R (Unchanged s.object) (settle P left e again s)
  unfolding settle
  settle-Post left e again s R retried = elim (Bool-cases (is_conflict e && not (left == 0))) [
    | inl yes' ↦ rw yes' (retried (P.sleep pause s.world))
    | inr no' ↦ rw no' refl
  ]

module _ (P : Platform) (L : IsApiServer P) where
  -- The end of an attempt of `updateStatus`, which sent `patch t fresh`.
  conclude_status-Post :
      (patch : Time → GitCommit → GitCommit) (t : Time) (fresh : GitCommit)
      (again : Exec (State P) Unit) (s : State P) (w w' : Platform.World P) (r : Result GitCommit)
      → P.update_commit_status (patch t fresh) w ≡ (r, w')
      → ((v : Platform.World P)
          → Post (Written P patch) (Unchanged P s.object) (again (record s { world = v })))
      → Post
          (Written P patch)
          (Unchanged P s.object)
          (conclude_status P again r (record s { world = w' }))
  unfolding conclude_status
  conclude_status-Post patch t fresh again s w w' (ok updated) sent retried =
      (fresh, t, L.updated_status _ _ _ _ sent)
  conclude_status-Post patch t fresh again s w w' (err (conflict m)) sent retried = retried w'
  conclude_status-Post patch t fresh again s w w' (err (not_found m)) sent retried = refl
  conclude_status-Post patch t fresh again s w w' (err (other m)) sent retried = refl
  conclude_status-Post patch t fresh again s w w' (err (panic m)) sent retried = refl

  -- The same for the writers that pause before they try again.
  conclude_update-Post :
      (patch : Time → GitCommit → GitCommit) (t : Time) (fresh : GitCommit) (left : ℕ)
      (again : Exec (State P) Unit) (s : State P) (w w' : Platform.World P) (r : Result GitCommit)
      → P.update_commit_status (patch t fresh) w ≡ (r, w')
      → ((v : Platform.World P)
          → Post (Written P patch) (Unchanged P s.object) (again (record s { world = v })))
      → Post
          (Written P patch)
          (Unchanged P s.object)
          (conclude_update P left again r (record s { world = w' }))
  unfolding conclude_update
  conclude_update-Post patch t fresh left again s w w' (ok updated) sent retried =
      (fresh, t, L.updated_status _ _ _ _ sent)
  conclude_update-Post patch t fresh left again s w w' (err e) sent retried =
      settle-Post P left e again (record s { world = w' }) (Written P patch) retried

  pub status_loop-Post :
      (phase : GitCommitPhase) (message : Text) (n : ℕ) (s : State P)
      → Post
          (Written P (λ t fresh. patch_status phase message t s.object fresh))
          (Unchanged P s.object)
          (status_loop P n phase message s)
  unfolding status_loop
  status_loop-Post phase message zero s = refl
  status_loop-Post phase message (suc n) s =
      outside-bind (P.get_commit s.object.namespace s.object.name) _ s _ _ (λ e w h. refl)
        λ fresh w h.
          let (t, v) = P.now w in
          conclude_status-Post (λ t' fresh'. patch_status phase message t' s.object fresh') t fresh
            (status_loop P n phase message) s v _ _ refl
            (λ u. status_loop-Post phase message n (record s { world = u }))

  pub execution_loop-Post :
      (sha : Text) (phase : GitCommitPhase) (message : Text) (next : Option Time) (n : ℕ)
      (s : State P)
      → Post
          (Written P (λ t fresh. patch_execution sha phase message next t s.object fresh))
          (Unchanged P s.object)
          (execution_loop P n sha phase message next s)
  unfolding execution_loop
  execution_loop-Post sha phase message next zero s = refl
  execution_loop-Post sha phase message next (suc n) s =
      outside-bind (P.get_commit s.object.namespace s.object.name) _ s _ _ (λ e w h. refl)
        λ fresh w h.
          let (t, v) = P.now w in
          conclude_update-Post
            (λ t' fresh'. patch_execution sha phase message next t' s.object fresh') t fresh n
            (execution_loop P n sha phase message next) s v _ _ refl
            (λ u. execution_loop-Post sha phase message next n (record s { world = u }))

  pub schedule_status_loop-Post :
      (phase : GitCommitPhase) (message : Text) (n : ℕ) (s : State P)
      → Post
          (Written P (λ t fresh. patch_schedule_status phase message t s.object fresh))
          (Unchanged P s.object)
          (schedule_status_loop P n phase message s)
  unfolding schedule_status_loop
  schedule_status_loop-Post phase message zero s = refl
  schedule_status_loop-Post phase message (suc n) s =
      outside-bind (P.get_commit s.object.namespace s.object.name) _ s _ _ (λ e w h. refl)
        λ fresh w h.
          let (t, v) = P.now w in
          conclude_update-Post (λ t' fresh'. patch_schedule_status phase message t' s.object fresh')
            t fresh n (schedule_status_loop P n phase message) s v _ _ refl
            (λ u. schedule_status_loop-Post phase message n (record s { world = u }))
