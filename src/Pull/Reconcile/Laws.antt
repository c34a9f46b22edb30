-- ===== src/Pull/Reconcile/Laws.antt =====
-- A reconcile of a PullRequest without a schedule, once it is finished or expired, and of one that is
-- gone.
use git_change_operator.Base.{Text, ◌≡◌, ◌⊎◌, inl, inr, true, false, [], if◌then◌else◌, none, some}
use git_change_operator.Base.Words.{pos}
use git_change_operator.Effects.{
  Error, ok, err, Result-cases, not_found, conflict, other, panic, is_not_found,
}
use git_change_operator.Api.Pull.{PullRequest, created, failed}
use git_change_operator.Platform.{Platform}
use git_change_operator.Commit.Outcome.{minutes, requeue}
use git_change_operator.Commit.Reconcile.Laws.{after_delete}
use git_change_operator.Pull.Reconcile.{
  check_ttl_expired, dispatch, handle, unscheduled, by_phase, delete_expired, deleted, reconcile,
}

module _ (P : Platform) (namespace name : Text) (w w₁ w₂ : P.World) (o : PullRequest)
    (found : P.get_pull namespace name w ≡ (ok o, w₁)) (unscheduled' : o.spec.schedule ≡ []) where
  -- A PullRequest without a schedule that is Created or Failed and has not expired is left alone: the
  -- world is the one behind the read of the object and the check of its time to live, and the next
  -- reconcile is asked for a minute later.
  pub pull_reconcile-finished :
      (o.status.phase ≡ created) ⊎ (o.status.phase ≡ failed)
      → check_ttl_expired P o w₁ ≡ (ok false, w₂)
      → reconcile P namespace name w ≡ (requeue (minutes 1), w₂)
  unfolding reconcile dispatch handle unscheduled by_phase
  pull_reconcile-finished (inl h) e = simp (found, unscheduled', e, h)
  pull_reconcile-finished (inr h) e = simp (found, unscheduled', e, h)

  -- A PullRequest without a schedule that has expired is deleted, whatever its phase, and nothing else
  -- is done to the world; a deletion that fails is returned as an error, with a requeue of a minute.
  pub pull_reconcile-expired :
      check_ttl_expired P o w₁ ≡ (ok true, w₂)
      → reconcile P namespace name w ≡ (after_delete (P.delete_pull o w₂).0, (P.delete_pull o w₂).1)
  unfolding reconcile dispatch handle unscheduled delete_expired deleted
  pull_reconcile-expired e = elim (Result-cases (P.delete_pull o w₂).0) [
    | inl (u, h) ↦ simp (found, unscheduled', e, h)
    | inr (x, h) ↦ simp (found, unscheduled', e, h)
  ]

module _ (P : Platform) (namespace name : Text) (w w₁ : P.World) where
  -- A read of the PullRequest that fails ends the reconcile, with no further call: without an error if
  -- the object is not found, and with the error of the read if it fails otherwise.
  pub pull_reconcile-missing :
      (e : Error)
      → P.get_pull namespace name w ≡ (err e, w₁)
      → reconcile P namespace name w
        ≡ (record { requeue_after = pos 0; error = if is_not_found e then none else some e }, w₁)
  unfolding reconcile dispatch
  pull_reconcile-missing (not_found m) h = simp h
  pull_reconcile-missing (conflict m) h = simp h
  pull_reconcile-missing (other m) h = simp h
  pull_reconcile-missing (panic m) h = simp h
