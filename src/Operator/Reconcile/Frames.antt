-- ===== src/Operator/Reconcile/Frames.antt =====
-- What the steps of a reconcile of a GitChangeOperator leave, but for that of the deployment.
use git_change_operator.Base.{◌≡◌, false, Text}
use git_change_operator.Effects.{Result, Exec, lift, is_not_found, ◌>>=◌}
use git_change_operator.Effects.Moves.{
  Moves, Moves-pure, Moves-raise, Moves-if, Moves-lift, Keeps-bind, Keeps-attempt_bind,
}
use git_change_operator.Api.Operator.{GitChangeOperator}
use git_change_operator.Operator.Cluster.{Meta, Kind, Cluster}
use git_change_operator.Operator.Reconcile.{
  found_or_created, ensure, gone, ensure_gone, reconcile_service_account, reconcile_role,
  reconcile_role_binding, reconcile_metrics_service, delete_metrics_service,
  reconcile_service_monitor, delete_service_monitor, reconcile_ingress, delete_ingress,
  account_step, rbac_step, monitor_step, metrics_step, ingress_step, report_ready,
}

-- The calls for one kind of object keep `I`.
pub record IsKindFrame {W A : Type 0} (I : W → Type 0) (kind : Kind W A) : Type 0 where
  pub got : (namespace name : Text) → Moves I I (kind.get namespace name)
  pub created : (a : A) → Moves I I (kind.create a)
  pub updated : (a : A) → Moves I I (kind.update a)
  pub deleted : (namespace name : Text) → Moves I I (kind.delete namespace name)

module _ {W A : Type 0} {I : W → Type 0} {kind : Kind W A} (F : IsKindFrame I kind) where
  pub ensure-Keeps :
      (namespace name : Text) (wanted : A) (change : A → Exec W Unit)
      → ((found : A) → Moves I I (change found))
      → Moves I I (ensure kind namespace name wanted change)
  unfolding ensure found_or_created
  ensure-Keeps namespace name wanted change k =
      Keeps-attempt_bind (kind.get namespace name) (found_or_created change (kind.create wanted))
        (F.got namespace name)
        (λ e. Moves-if (is_not_found e) _ _ (F.created wanted) (Moves-raise e)) k

  placed-Keeps :
      (r : Result Meta) (namespace name : Text) (wanted : Meta → A) (change : Meta → A → A)
      → Moves I I (
          lift r >>= λ meta.
          ensure kind namespace name (wanted meta) (λ found. kind.update (change meta found)))
  placed-Keeps r namespace name wanted change =
      Keeps-bind (lift r) _ (Moves-lift r) (λ meta.
        ensure-Keeps namespace name (wanted meta) _ (λ found. F.updated (change meta found)))

  ensure_gone-Keeps : (namespace name : Text) → Moves I I (ensure_gone kind namespace name)
  unfolding ensure_gone gone
  ensure_gone-Keeps namespace name =
      Keeps-attempt_bind (kind.delete namespace name) gone (F.deleted namespace name)
        (λ e. Moves-if (is_not_found e) _ _ (Moves-pure tt) (Moves-raise e)) (λ u. Moves-pure tt)

-- Calls for objects other than deployments and services leave `I`.
pub record IsBeside (C : Cluster) (I : C.World → Type 0) : Type 0 where
  pub accounts : IsKindFrame I C.service_accounts
  pub roles : IsKindFrame I C.roles
  pub bindings : IsKindFrame I C.role_bindings
  pub monitors : IsKindFrame I C.service_monitors
  pub ingresses : IsKindFrame I C.ingresses
  pub read : (namespace name : Text) → Moves I I (C.get_operator namespace name)
  pub status : (o : GitChangeOperator) → Moves I I (C.update_operator_status o)
  pub retried : (m : Exec C.World Unit) → Moves I I m → Moves I I (C.retry_on_conflict m)

-- The same of services.
pub record IsApart (C : Cluster) (I : C.World → Type 0) : Type 0 where
  pub beside : IsBeside C I
  pub services : IsKindFrame I C.services

module _ (C : Cluster) {I : C.World → Type 0} (F : IsBeside C I) (o : GitChangeOperator) where
  pub account_step-Keeps : Moves I I (account_step C o)
  unfolding account_step reconcile_service_account
  account_step-Keeps =
      Moves-if o.spec.service_account.create _ _ (placed-Keeps F.accounts _ _ _ _ _) (Moves-pure tt)

  pub rbac_step-Keeps : Moves I I (rbac_step C o)
  unfolding rbac_step reconcile_role reconcile_role_binding
  rbac_step-Keeps =
      Moves-if o.spec.rbac.create _ _
        (Keeps-bind _ _ (placed-Keeps F.roles _ _ _ _ _) (λ u. placed-Keeps F.bindings _ _ _ _ _))
        (Moves-pure tt)

  monitor_step-Keeps : Moves I I (monitor_step C o)
  unfolding monitor_step reconcile_service_monitor delete_service_monitor
  monitor_step-Keeps =
      Moves-if o.spec.metrics.service_monitor.enabled _ _ (placed-Keeps F.monitors _ _ _ _ _)
        (ensure_gone-Keeps F.monitors _ _)

  pub metrics_step-Keeps : IsKindFrame I C.services → Moves I I (metrics_step C o)
  unfolding metrics_step reconcile_metrics_service delete_metrics_service delete_service_monitor
  metrics_step-Keeps G =
      Moves-if o.spec.metrics.enabled _ _
        (Keeps-bind _ _ (placed-Keeps G _ _ _ _ _) (λ u. monitor_step-Keeps))
        (Keeps-bind _ _ (ensure_gone-Keeps G _ _) (λ u. ensure_gone-Keeps F.monitors _ _))

  -- Where the metrics are disabled, no service is touched but the one that is deleted.
  pub metrics_step-Keeps_disabled :
      o.spec.metrics.enabled ≡ false
      → Moves I I (delete_metrics_service C o)
      → Moves I I (metrics_step C o)
  unfolding metrics_step delete_service_monitor
  metrics_step-Keeps_disabled off k =
      simp off (Keeps-bind _ _ k (λ u. ensure_gone-Keeps F.monitors _ _))

  pub ingress_step-Keeps : Moves I I (ingress_step C o)
  unfolding ingress_step reconcile_ingress delete_ingress
  ingress_step-Keeps =
      Moves-if o.spec.ingress.enabled _ _ (placed-Keeps F.ingresses _ _ _ _ _)
        (ensure_gone-Keeps F.ingresses _ _)

  pub report_ready-Keeps : (namespace name : Text) → Moves I I (report_ready C namespace name o)
  unfolding report_ready
  report_ready-Keeps namespace name = F.retried _ (
      Keeps-bind _ _ (F.read namespace name)
        (λ fresh. Keeps-bind _ _ (F.status _) (λ u. Moves-pure tt)))
