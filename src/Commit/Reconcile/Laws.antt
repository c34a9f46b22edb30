-- ===== src/Commit/Reconcile/Laws.antt =====
-- A reconcile of a GitCommit without a schedule, once it is finished or expired, and of one that is gone.
use git_change_operator.Base.{Text, ◌≡◌, ◌⊎◌, inl, inr, true, false, [], if◌then◌else◌, none, some}
use git_change_operator.Base.Words.{pos}
use git_change_operator.Effects.{
  Error, Result, ok, err, Result-cases, not_found, conflict, other, panic, is_not_found,
}
use git_change_operator.Api.Commit.{GitCommit, committed, failed}
use git_change_operator.Platform.{Platform}
use git_change_operator.Commit.Ttl.{check_ttl_expired}
use git_change_operator.Commit.Outcome.{Outcome, done, minutes, requeue}
use git_change_operator.Commit.Reconcile.{
  dispatch, handle, unscheduled, by_phase, delete_expired, deleted, reconcile,
}

-- What the API server answers to a deletion decides the outcome: none is asked for after a success.
abbrev pub after_delete : Result {0} Unit → Outcome
after_delete (ok u) = done
after_delete (err e) = record { requeue_after = minutes 1; error = some e }

module _ (P : Platform) (namespace name : Text) (w w₁ w₂ : P.World) (o : GitCommit)
    (found : P.get_commit namespace name w ≡ (ok o, w₁)) (unscheduled' : o.spec.schedule ≡ []) where
  -- A GitCommit without a schedule that is Committed or Failed and has not expired is left alone: the
  -- world is the one behind the read of the object and the check of its time to live, and the next
  -- reconcile is asked for a minute later.
  pub reconcile-finished :
      (o.status.phase ≡ committed) ⊎ (o.status.phase ≡ failed)
      → check_ttl_expired P o w₁ ≡ (ok false, w₂)
      → reconcile P namespace name w ≡ (requeue (minutes 1), w₂)
  unfolding reconcile dispatch handle unscheduled by_phase
  reconcile-finished (inl h) e = simp (found, unscheduled', e, h)
  reconcile-finished (inr h) e = simp (found, unscheduled', e, h)

  pub reconcile-expired :
      check_ttl_expired P o w₁ ≡ (ok true, w₂)
      → reconcile P namespace name w
        ≡ (after_delete (P.delete_commit o w₂).0, (P.delete_commit o w₂).1)
  unfolding reconcile dispatch handle unscheduled delete_expired deleted
  reconcile-expired e = elim (Result-cases (P.delete_commit o w₂).0) [
    | inl (u, h) ↦ simp (found, unscheduled', e, h)
    | inr (x, h) ↦ simp (found, unscheduled', e, h)
  ]

module _ (P : Platform) (namespace name : Text) (w w₁ : P.World) where
  -- A read of the object that fails ends the reconcile, with no further call: without an error if the
  -- object is not found, and with the error of the read if it fails otherwise.
  pub reconcile-missing :
      (e : Error)
      → P.get_commit namespace name w ≡ (err e, w₁)
      → reconcile P namespace name w
        ≡ (record { requeue_after = pos 0; error = if is_not_found e then none else some e }, w₁)
  unfolding reconcile dispatch
  reconcile-missing (not_found m) h = simp h
  reconcile-missing (conflict m) h = simp h
  reconcile-missing (other m) h = simp h
  reconcile-missing (panic m) h = simp h
