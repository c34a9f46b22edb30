-- ===== src/Operator/Reconcile.antt =====
-- `Reconcile` of the GitChangeOperator controller and what it calls.
pub mod Laws
pub mod Converges
pub mod Frames
pub mod Installs
pub mod Leftovers
use git_change_operator.Base.{
  ℕ, Text, text, Bool, true, false, not, Option, none, some, List, [], ◌∷◌, ◌++◌, ◌==◌,
}
use git_change_operator.Base.{if◌then◌else◌, ◌||◌, text_eq}
use git_change_operator.Effects.{
  Error, is_not_found, Result, ok, err, Exec, pure, raise, lift, attempt, ◌>>=◌, ◌>>◌, Held,
  outside, get, modify,
}
use git_change_operator.Commit.Outcome.{Outcome, done, or_error}
use git_change_operator.Base.Words.{Time, pos}
use git_change_operator.Api.Operator.{GitChangeOperator}
use git_change_operator.Operator.Cluster.{
  Meta, Deployment, ServiceAccount, Role, RoleBinding, Service, ServiceMonitor, Ingress, Kind,
  Cluster,
}
use git_change_operator.Operator.Objects.{
  operand_image, operator_account, deployment_name, operator_deployment, patched_deployment,
  manager_account, manager_service_account, role_name, manager_role, binding_name, manager_binding,
}
use git_change_operator.Operator.Exposure.{
  service_name, deleted_service_name, metrics_service, monitor_name, service_monitor, ingress_name,
  wanted_ingress,
}

abbrev pub finalizer_name : Text
finalizer_name = text "gitchangeoperator.gco.galos.one/finalizer"

module _ {W A : Type 0} where
  -- An object that is read is changed; one that is not found is created.
  found_or_created : (A → Exec W Unit) → Exec W Unit → Result A → Exec W Unit
  found_or_created change creation (ok found) = change found
  found_or_created change creation (err e) = if is_not_found e then creation else raise e

  -- `Get`, then `Create` or the change.
  unfoldable pub ensure : Kind W A → Text → Text → A → (A → Exec W Unit) → Exec W Unit
  unfolding found_or_created
  ensure kind namespace name wanted change = do
    r ← attempt (kind.get namespace name)
    found_or_created change (kind.create wanted) r

module _ {W : Type 0} where
  gone : Result {0} Unit → Exec W Unit
  gone (ok u) = pure tt
  gone (err e) = if is_not_found e then pure tt else raise e

module _ {W A : Type 0} where
  -- A deletion of what may not be there.
  unfoldable pub ensure_gone : Kind W A → Text → Text → Exec W Unit
  unfolding gone
  ensure_gone kind namespace name = do r ← attempt (kind.delete namespace name); gone r

module _ (C : Cluster) where
  open C use {World, getenv, get_operator, update_operator, update_operator_status}
  open C use {is_zero, contains_finalizer, add_finalizer, remove_finalizer}
  open C use {retry_on_conflict, set_controller, deployments, patch_deployment}
  open C use {service_accounts, roles, role_bindings, services, service_monitors, ingresses}

  unfoldable pub reconcile_deployment : GitChangeOperator → Exec World Unit
  reconcile_deployment o = do
    image ← lift (operand_image (getenv (text "OPERAND_IMAGE")) o)
    let wanted =
        operator_deployment image (operator_account (getenv (text "OPERATOR_SERVICE_ACCOUNT")) o) o
    meta ← lift (set_controller o wanted.meta)
    ensure deployments o.namespace (deployment_name o) (record wanted { meta = meta })
        (λ found. patch_deployment found (patched_deployment image o found))

  -- The update sends the object that would have been created.
  unfoldable pub reconcile_service_account : GitChangeOperator → Exec World Unit
  reconcile_service_account o = do
    meta ← lift (set_controller o (manager_service_account o).meta)
    let wanted : ServiceAccount = record { meta = meta }
    ensure service_accounts o.namespace (manager_account o) wanted
        (λ found. service_accounts.update wanted)

  unfoldable pub reconcile_role : GitChangeOperator → Exec World Unit
  reconcile_role o = do
    meta ← lift (set_controller o (manager_role o).meta)
    ensure roles o.namespace (role_name o) (record (manager_role o) { meta = meta })
        (λ found. roles.update (record found { rules = (manager_role o).rules }))

  unfoldable pub reconcile_role_binding : GitChangeOperator → Exec World Unit
  reconcile_role_binding o = do
    meta ← lift (set_controller o (manager_binding o).meta)
    ensure role_bindings o.namespace (binding_name o) (record (manager_binding o) { meta = meta })
        (λ found. role_bindings.update (record found { subjects = (manager_binding o).subjects }))

  unfoldable pub reconcile_metrics_service : GitChangeOperator → Exec World Unit
  reconcile_metrics_service o = do
    meta ← lift (set_controller o (metrics_service o).meta)
    ensure services o.namespace (service_name o) (record (metrics_service o) { meta = meta })
        (λ found.
          services.update
            (record found { kind = (metrics_service o).kind; ports = (metrics_service o).ports }))

  unfoldable pub delete_metrics_service : GitChangeOperator → Exec World Unit
  delete_metrics_service o = ensure_gone services o.namespace (deleted_service_name o)

  unfoldable pub reconcile_service_monitor : GitChangeOperator → Exec World Unit
  reconcile_service_monitor o = do
    meta ← lift (set_controller o (service_monitor o).meta)
    ensure service_monitors o.namespace (monitor_name o)
        (record (service_monitor o) { meta = meta })
        (λ found. service_monitors.update (record (service_monitor o) {
          meta = record meta { resource_version = found.meta.resource_version };
        }))

  unfoldable pub delete_service_monitor : GitChangeOperator → Exec World Unit
  delete_service_monitor o = ensure_gone service_monitors o.namespace (monitor_name o)

  unfoldable pub reconcile_ingress : GitChangeOperator → Exec World Unit
  reconcile_ingress o = do
    meta ← lift (set_controller o (wanted_ingress o).meta)
    ensure ingresses o.namespace (ingress_name o) (record (wanted_ingress o) { meta = meta })
        (λ found. ingresses.update (record (wanted_ingress o) {
          meta = record found.meta { labels = meta.labels; annotations = meta.annotations };
        }))

  unfoldable pub delete_ingress : GitChangeOperator → Exec World Unit
  delete_ingress o = ensure_gone ingresses o.namespace (ingress_name o)

  pub account_step : GitChangeOperator → Exec World Unit
  account_step o = if o.spec.service_account.create then reconcile_service_account o else pure tt

  pub rbac_step : GitChangeOperator → Exec World Unit
  rbac_step o =
      if o.spec.rbac.create then (do reconcile_role o; reconcile_role_binding o) else pure tt

  monitor_step : GitChangeOperator → Exec World Unit
  monitor_step o =
      if o.spec.metrics.service_monitor.enabled
      then reconcile_service_monitor o
      else delete_service_monitor o

  pub metrics_step : GitChangeOperator → Exec World Unit
  metrics_step o =
      if o.spec.metrics.enabled
      then (do reconcile_metrics_service o; monitor_step o)
      else (do delete_metrics_service o; delete_service_monitor o)

  pub ingress_step : GitChangeOperator → Exec World Unit
  ingress_step o = if o.spec.ingress.enabled then reconcile_ingress o else delete_ingress o

  -- The status of a fresh copy: ready, at the generation that was reconciled.
  ready_status : GitChangeOperator → GitChangeOperator → GitChangeOperator
  ready_status o fresh = record fresh {
    status = record fresh.status { phase = text "Ready"; observed_generation = o.generation };
  }

  pub report_ready : Text → Text → GitChangeOperator → Exec World Unit
  unfolding ready_status
  report_ready namespace name o = retry_on_conflict (do
    fresh ← get_operator namespace name
    _ ← update_operator_status (ready_status o fresh)
    pure tt)

  -- The resources, one after the other, up to the first error.
  install : GitChangeOperator → Exec World Unit
  install o = do reconcile_deployment o; account_step o; rbac_step o; metrics_step o; ingress_step o

  -- `Update` fills the object in with what the server stores.
  ensure_finalizer : Exec (Held World GitChangeOperator) Unit
  ensure_finalizer = do
    o ← get (λ o. o)
    if contains_finalizer o finalizer_name then pure tt else do
      updated ← outside (update_operator (add_finalizer o finalizer_name))
      modify (λ _. updated)

  handle_deletion : GitChangeOperator → Exec World Outcome
  handle_deletion o =
      if contains_finalizer o finalizer_name
      then (do _ ← update_operator (remove_finalizer o finalizer_name); pure done)
      else pure done

  keep_installed : Text → Text → Exec (Held World GitChangeOperator) Outcome
  keep_installed namespace name = do
    ensure_finalizer
    o ← get (λ o. o)
    outside (install o)
    outside (report_ready namespace name o)
    pure done

  reconcile_found : Text → Text → GitChangeOperator → Exec World Outcome
  reconcile_found namespace name o w =
      if is_zero o.deletion_timestamp
      then (let (r, s) = keep_installed namespace name (record { world = w; object = o }) in
          (r, s.world))
      else handle_deletion o w

  -- `client.IgnoreNotFound`
  dispatch : Text → Text → Result GitChangeOperator → World → Outcome × World
  dispatch namespace name (ok o) w =
      let (r, w') = reconcile_found namespace name o w in (or_error r, w')
  dispatch namespace name (err e) w =
      if is_not_found e then (done, w) else (record { requeue_after = pos 0; error = some e }, w)

  unfoldable pub reconcile : Text → Text → World → Outcome × World
  unfolding dispatch reconcile_found handle_deletion keep_installed ensure_finalizer install
      report_ready ingress_step metrics_step monitor_step rbac_step account_step
  reconcile namespace name w =
      let (r, w') = get_operator namespace name w in dispatch namespace name r w'
