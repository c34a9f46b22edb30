-- ===== src/Commit/Status/Attempts.antt =====
-- How many updates the writers of the status make.
use git_change_operator.Base.{ℕ, zero, suc, Text, Option, not, ◌&&◌, ◌==◌, Bool-cases, inl, inr}
use git_change_operator.Base.Words.{Time}
use git_change_operator.Effects.{Error, Result, ok, err, Exec, get, raise, is_conflict, ◌>>=◌}
use git_change_operator.Effects.Moves.{Moves, Moves-if, Moves-bind, Moves-bind_weaken}
use git_change_operator.Api.Commit.{GitCommit, GitCommitPhase}
use git_change_operator.Platform.{Platform}
use git_change_operator.Commit.Status.Patches.{
  patch_schedule_status, patch_status, patch_execution, patch_next_time,
}
use git_change_operator.Commit.Status.{
  conclude_status, status_loop, update_status, execution_loop, record_execution, State, clock,
  fetch_fresh, try_update, max_retries, pause, settle, conclude_update, conclude_next,
  schedule_status_loop, update_schedule_status, next_time_loop, update_next_scheduled_time,
}

-- `Budget n`: n more updates may be made. An update takes one of them, and no other call of a writer
-- takes any.
pub record IsBudget (P : Platform) (Budget : ℕ → P.World → Type 0) : Type 0 where
  pub now : (n : ℕ) (w : P.World) → Budget n w → Budget n (P.now w).1
  pub sleep : (n d : ℕ) (w : P.World) → Budget n w → Budget n (P.sleep d w)
  pub read :
      (n : ℕ) (namespace name : Text) (w : P.World)
      → Budget n w
      → Budget n (P.get_commit namespace name w).1
  pub update :
      (n : ℕ) (o : GitCommit) (w : P.World)
      → Budget (suc n) w
      → Budget n (P.update_commit_status o w).1
  pub less : (n : ℕ) (w : P.World) → Budget (suc n) w → Budget n w

module _ (P : Platform) (Budget : ℕ → P.World → Type 0) (F : IsBudget P Budget) where
  abbrev pub Has : ℕ → State P → Type 0
  Has n s = Budget n s.world

  -- The call makes at most n updates.
  abbrev pub Spends : ℕ → Exec (State P) Unit → Type 0
  Spends n m = Moves (Has n) (Has 0) m

  none_left : (n : ℕ) (s : State P) → Has n s → Has 0 s
  none_left zero s h = h
  none_left (suc n) s h = none_left n s (F.less n s.world h)

  fetch_fresh-Has : (n : ℕ) → Moves (Has n) (Has n) (fetch_fresh P)
  fetch_fresh-Has n = record { at = λ s h. F.read n _ _ s.world h }

  clock-Has : (n : ℕ) → Moves (Has n) (Has n) (clock P)
  clock-Has n = record { at = λ s h. F.now n s.world h }

  try_update-Has : (n : ℕ) (o : GitCommit) → Moves (Has (suc n)) (Has n) (try_update P o)
  try_update-Has n o = record { at = λ s h. F.update n o s.world h }

  fails-Spends : (n : ℕ) (e : Error) → Spends n (raise e)
  fails-Spends n e = record { at = λ s h. none_left n s h }

  settle-Spends :
      (left n : ℕ) (e : Error) (again : Exec (State P) Unit)
      → Spends n again
      → Spends n (settle P left e again)
  unfolding settle
  settle-Spends left n e again m = record {
    at = λ s h. elim (Bool-cases (is_conflict e && not (left == 0))) [
      | inl y ↦ rw y (m.at _ (F.sleep n pause s.world h))
      | inr f ↦ rw f (none_left n s h)
    ];
  }

  conclude_update-Spends :
      (left n : ℕ) (again : Exec (State P) Unit) (r : Result GitCommit)
      → Spends n again
      → Spends n (conclude_update P left again r)
  unfolding conclude_update
  conclude_update-Spends left n again (ok o) m = record { at = λ s h. none_left n s h }
  conclude_update-Spends left n again (err e) m = settle-Spends left n e again m

  conclude_next-Spends :
      (next : Time) (left n : ℕ) (again : Exec (State P) Unit) (r : Result GitCommit)
      → Spends n again
      → Spends n (conclude_next P next left again r)
  unfolding conclude_next
  conclude_next-Spends next left n again (ok o) m = record { at = λ s h. none_left n s h }
  conclude_next-Spends next left n again (err e) m = settle-Spends left n e again m

  conclude_status-Spends :
      (n : ℕ) (again : Exec (State P) Unit) (r : Result GitCommit)
      → Spends n again
      → Spends n (conclude_status P again r)
  unfolding conclude_status
  conclude_status-Spends n again (ok o) m = record { at = λ s h. none_left n s h }
  conclude_status-Spends n again (err e) m = Moves-if (is_conflict e) _ _ m (fails-Spends n e)

  -- One attempt, and what follows its answer.
  attempt-Spends :
      (n : ℕ) (patch : Time → GitCommit → GitCommit → GitCommit)
      (conclude : Result GitCommit → Exec (State P) Unit)
      → ((r : Result GitCommit) → Spends n (conclude r))
      → Spends (suc n) (do
        fresh ← fetch_fresh P
        t ← clock P
        old ← get (λ o. o)
        r ← try_update P (patch t old fresh)
        conclude r)
  attempt-Spends n patch conclude m =
      let end = λ (s : State P) (h : Has (suc n) s). none_left (suc n) s h in
      Moves-bind (fetch_fresh P) _ (fetch_fresh-Has (suc n))
        (λ fresh.
          Moves-bind (clock P) _ (clock-Has (suc n))
            (λ t.
              Moves-bind (get (λ o. o)) _ (record { at = λ s h. h })
                (λ old.
                  Moves-bind_weaken (try_update P (patch t old fresh)) conclude
                    (try_update-Has n (patch t old fresh)) m (λ s h. none_left n s h))
                end)
            end)
        end

  status_loop-Spends :
      (phase : GitCommitPhase) (message : Text) (left : ℕ)
      → Spends left (status_loop P left phase message)
  unfolding status_loop
  status_loop-Spends phase message zero = fails-Spends 0 _
  status_loop-Spends phase message (suc left) =
      let ih = status_loop-Spends phase message left in
      attempt-Spends left (patch_status phase message) _ (λ r. conclude_status-Spends left _ r ih)

  execution_loop-Spends :
      (sha : Text) (phase : GitCommitPhase) (message : Text) (next : Option Time) (left : ℕ)
      → Spends left (execution_loop P left sha phase message next)
  unfolding execution_loop
  execution_loop-Spends sha phase message next zero = fails-Spends 0 _
  execution_loop-Spends sha phase message next (suc left) =
      let ih = execution_loop-Spends sha phase message next left in
      attempt-Spends left (patch_execution sha phase message next) _
        (λ r. conclude_update-Spends left left _ r ih)

  schedule_status_loop-Spends :
      (phase : GitCommitPhase) (message : Text) (left : ℕ)
      → Spends left (schedule_status_loop P left phase message)
  unfolding schedule_status_loop
  schedule_status_loop-Spends phase message zero = fails-Spends 0 _
  schedule_status_loop-Spends phase message (suc left) =
      let ih = schedule_status_loop-Spends phase message left in
      attempt-Spends left (patch_schedule_status phase message) _
        (λ r. conclude_update-Spends left left _ r ih)

  next_time_loop-Spends : (next : Time) (left : ℕ) → Spends left (next_time_loop P left next)
  unfolding next_time_loop
  next_time_loop-Spends next zero = fails-Spends 0 _
  next_time_loop-Spends next (suc left) =
      let ih = next_time_loop-Spends next left in
      Moves-bind (fetch_fresh P) _ (fetch_fresh-Has (suc left))
        (λ fresh.
          Moves-bind_weaken (try_update P (patch_next_time next fresh))
            (conclude_next P next left (next_time_loop P left next)) (try_update-Has left _)
            (λ r. conclude_next-Spends next left left _ r ih) (λ s h. none_left left s h))
        (λ s h. none_left (suc left) s h)

  -- Every writer of the status stops after at most three updates, whatever the API server answers, also
  -- where every one of them is refused by a conflict.
  pub writers-Spends :
      ((phase : GitCommitPhase) (message : Text) → Spends 3 (update_status P phase message))
      × ((sha : Text) (phase : GitCommitPhase) (message : Text) (next : Option Time)
          → Spends 3 (record_execution P sha phase message next))
      × ((phase : GitCommitPhase) (message : Text)
          → Spends 3 (update_schedule_status P phase message))
      × ((next : Time) → Spends 3 (update_next_scheduled_time P next))
  unfolding update_status record_execution update_schedule_status update_next_scheduled_time
  writers-Spends = (
    λ phase message. status_loop-Spends phase message max_retries,
    λ sha phase message next. execution_loop-Spends sha phase message next max_retries,
    λ phase message. schedule_status_loop-Spends phase message max_retries,
    λ next. next_time_loop-Spends next max_retries,
  )
