-- ===== src/Operator/Reconcile/Laws.antt =====
-- A GitChangeOperator that is deleted, and a metrics service that is not.
use git_change_operator.Base.{refl, true, ◌≡◌, ◌≢◌, sym, Text, false, some}
use git_change_operator.Base.Words.{pos}
use git_change_operator.Effects.{Error, Result, ok, err, is_not_found}
use git_change_operator.Effects.Moves.{Moves, Moves-pure, Moves-raise, Moves-if, Moves-bind_attempt}
use git_change_operator.Commit.Outcome.{Outcome, done}
use git_change_operator.Api.Operator.{GitChangeOperator}
use git_change_operator.Operator.Cluster.{Cluster}
use git_change_operator.Operator.Exposure.{service_name, deleted_service_name}
use git_change_operator.Operator.Exposure.Laws.{service_name-ne}
use git_change_operator.Operator.Reconcile.{
  finalizer_name, gone, ensure_gone, delete_metrics_service, keep_installed, ensure_finalizer,
  reconcile_found, dispatch, reconcile,
}

-- What the API server answers to the update decides the outcome.
abbrev pub after_update : Result GitChangeOperator → Outcome
after_update (ok updated) = done
after_update (err e) = record { requeue_after = pos 0; error = some e }

module _ (C : Cluster) (namespace name : Text) (w w₁ w₂ : C.World) (o : GitChangeOperator)
    (e : Error) (found : C.get_operator namespace name w ≡ (ok o, w₁))
    (alive : C.is_zero o.deletion_timestamp ≡ true)
    (new : C.contains_finalizer o finalizer_name ≡ false)
    (refused : C.update_operator (C.add_finalizer o finalizer_name) w₁ ≡ (err e, w₂)) where
  -- A GitChangeOperator without the finalizer, not being deleted, whose update with the finalizer fails:
  -- the reconcile ends with that error behind the read and the update, so nothing is installed that a
  -- deletion would not wait for.
  pub operator_reconcile-unfinalized :
      reconcile C namespace name w ≡ (record { requeue_after = pos 0; error = some e }, w₂)
  unfolding reconcile dispatch reconcile_found keep_installed ensure_finalizer
  operator_reconcile-unfinalized = rw (found, alive, new, refused) refl

module _ (C : Cluster) (I : C.World → Type 0) where
  gone-Moves : (r : Result {0} Unit) → Moves I I (gone r)
  unfolding gone
  gone-Moves (ok u) = Moves-pure tt
  gone-Moves (err e) = Moves-if (is_not_found e) _ _ (Moves-pure tt) (Moves-raise e)

  -- Where the deletions of all services but that of the name under which the metrics service is created
  -- keep `I`, so does the deletion of the metrics service.
  pub delete_metrics_service-keeps :
      (o : GitChangeOperator)
      → ((namespace name : Text)
          → name ≢ service_name o
          → Moves I I (C.services.delete namespace name))
      → Moves I I (delete_metrics_service C o)
  unfolding delete_metrics_service ensure_gone
  delete_metrics_service-keeps o others =
      Moves-bind_attempt (C.services.delete o.namespace (deleted_service_name o)) gone
        (others o.namespace (deleted_service_name o) (λ e. service_name-ne o (sym e)))
        (λ e. gone-Moves (err e)) (λ u. gone-Moves (ok u))
