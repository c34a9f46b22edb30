-- ===== src/Operator/Reconcile/Leftovers.antt =====
-- The metrics service of a GitChangeOperator whose metrics are disabled.
use git_change_operator.Base.{
  ◌≡◌, ◌≢◌, refl, ap, sym, ◌∙◌, Text, text, false, ◌++◌, Bool-cases, inl, inr,
}
use git_change_operator.Effects.{
  is_not_found, modify, and_then, Result, ok, err, pure, ◌>>◌, Held, outside,
}
use git_change_operator.Effects.Moves.{
  Moves, Moves-if, Moves-pure, Moves-lift, Moves-bind_weaken, Keeps-bind, Within-outside,
}
use git_change_operator.Commit.Outcome.{done}
use git_change_operator.Api.Operator.{GitChangeOperator}
use git_change_operator.Operator.Cluster.{Deployment, Cluster}
use git_change_operator.Operator.Exposure.{service_name}
use git_change_operator.Operator.Reconcile.{
  install, reconcile_deployment, ensure, finalizer_name, ensure_finalizer, keep_installed,
  handle_deletion, reconcile_found, dispatch, reconcile, report_ready,
}
use git_change_operator.Operator.Reconcile.Frames.{
  IsKindFrame, IsBeside, ensure-Keeps, account_step-Keeps, rbac_step-Keeps,
  metrics_step-Keeps_disabled, ingress_step-Keeps, report_ready-Keeps,
}
use git_change_operator.Operator.Reconcile.Installs.{IsEchoing}
use git_change_operator.Operator.Reconcile.Laws.{delete_metrics_service-keeps}

-- Calls for deployments and for the GitChangeOperator, and deletions of services other than `service`,
-- leave `I`, as do the calls for all other objects.
pub record IsSpared (C : Cluster) (service : Text) (I : C.World → Type 0) : Type 0 where
  pub beside : IsBeside C I
  pub deployments : IsKindFrame I C.deployments
  pub patched : (before after : Deployment) → Moves I I (C.patch_deployment before after)
  pub operator : (o : GitChangeOperator) → Moves I I (C.update_operator o)
  pub others :
      (namespace name : Text) → name ≢ service → Moves I I (C.services.delete namespace name)

-- What decides about the metrics service: the name of the object's, and that its metrics are disabled.
abbrev pub Disabled : Text → GitChangeOperator → Type 0
Disabled service o = (service_name o ≡ service) × (o.spec.metrics.enabled ≡ false)

service_name-name : (o o' : GitChangeOperator) → o.name ≡ o'.name → service_name o ≡ service_name o'
service_name-name o o' e = ap (λ n. n ++ text "-metrics") e

module _ (C : Cluster) (U : IsEchoing C) (service : Text) (I : C.World → Type 0)
    (F : IsSpared C service I) where
  ensure_deployment-Keeps :
      (namespace name : Text) (wanted : Deployment) (change : Deployment → Deployment)
      → Moves I I (
          ensure C.deployments namespace name wanted
            (λ found. C.patch_deployment found (change found)))
  ensure_deployment-Keeps namespace name wanted change =
      ensure-Keeps F.deployments namespace name wanted _ (λ found. F.patched found (change found))

  reconcile_deployment-Keeps : (o : GitChangeOperator) → Moves I I (reconcile_deployment C o)
  unfolding reconcile_deployment
  reconcile_deployment-Keeps o = search (Keeps-bind, Moves-lift, ensure_deployment-Keeps) depth 8

  install-Keeps : (o : GitChangeOperator) → Disabled service o → Moves I I (install C o)
  unfolding install
  install-Keeps o (n, off) = Keeps-bind _ _ (reconcile_deployment-Keeps o) (λ u.
      Keeps-bind _ _ (account_step-Keeps C F.beside o) (λ u.
        Keeps-bind _ _ (rbac_step-Keeps C F.beside o) (λ u.
          Keeps-bind _ _
            (metrics_step-Keeps_disabled C F.beside o off (
              delete_metrics_service-keeps C I o
                (λ namespace name e. F.others namespace name (λ h. e (h ∙ sym n)))))
            (λ u. ingress_step-Keeps C F.beside o))))

  abbrev HeldDisabled : Held C.World GitChangeOperator → Type 0
  HeldDisabled s = I s.world × Disabled service s.object

  ensure_finalizer-Keeps : Moves HeldDisabled HeldDisabled (ensure_finalizer C)
  unfolding ensure_finalizer
  ensure_finalizer-Keeps = record {
    at = λ s h. elim (Bool-cases (C.contains_finalizer s.object finalizer_name)) [
      | inl y ↦ rw y h
      | inr n ↦ rw n (answered s h _ _ refl ((F.operator _).at s.world h.0))
    ];
  }
    where
      answered :
          (s : Held C.World GitChangeOperator)
          → HeldDisabled s
          → (r : Result GitChangeOperator) (w : C.World)
          → C.update_operator (C.add_finalizer s.object finalizer_name) s.world ≡ (r, w)
          → I w
          → HeldDisabled (and_then r (λ updated. modify (λ o. updated)) (record s { world = w })).1
      answered s h (err x) w e i = (i, h.1)
      answered s h (ok o) w e i =
          let (n, k, same) = U.echoed s.object o s.world w e in
          (i, (service_name-name o s.object n ∙ h.1.0, ap (λ p. p.metrics.enabled) same ∙ h.1.1))

  keep_installed-Keeps :
      (namespace name : Text)
      → Moves HeldDisabled (λ s. I s.world) (keep_installed C namespace name)
  unfolding keep_installed
  keep_installed-Keeps namespace name =
      Moves-bind_weaken _ _ ensure_finalizer-Keeps
        (λ u. record { at = λ s h. (after s.object h.1).at s h.0 }) (λ s h. h.0)
    where
      after :
          (o : GitChangeOperator)
          → Disabled service o
          → Moves {S = Held C.World GitChangeOperator}
              (λ s. I s.world)
              (λ s. I s.world)
              (outside (install C o) >> (outside (report_ready C namespace name o) >> pure done))
      after o d = Keeps-bind _ _ (Within-outside _ (install-Keeps o d)) (λ u.
          Keeps-bind _ _ (Within-outside _ (report_ready-Keeps C F.beside o namespace name))
            (λ u. Moves-pure done))

  handle_deletion-Keeps : (o : GitChangeOperator) → Moves I I (handle_deletion C o)
  unfolding handle_deletion
  handle_deletion-Keeps o =
      Moves-if (C.contains_finalizer o finalizer_name) _ _
        (Keeps-bind _ _ (F.operator _) (λ u. Moves-pure done)) (Moves-pure done)

  dispatch-Keeps :
      (namespace name : Text) (r : Result GitChangeOperator) (w : C.World)
      → ((o : GitChangeOperator) → r ≡ ok o → Disabled service o)
      → I w
      → I (dispatch C namespace name r w).1
  unfolding dispatch reconcile_found
  dispatch-Keeps namespace name (err x) w d i = elim (Bool-cases (is_not_found x)) [
    | inl y ↦ rw y i
    | inr n ↦ rw n i
  ]
  dispatch-Keeps namespace name (ok o) w d i = elim (Bool-cases (C.is_zero o.deletion_timestamp)) [
    | inl y ↦
        rw y (
          (keep_installed-Keeps namespace name).at (record { world = w; object = o }) (i, d o refl))
    | inr n ↦ rw n ((handle_deletion-Keeps o).at w i)
  ]

  -- The metrics service stays when the metrics are disabled. `I` is a property of the world that only
  -- the deletion of services under one name can end, the name under which the metrics service of the
  -- GitChangeOperator is created: for instance, that this service is there. Where the object that is
  -- read has the metrics disabled, and the API server answers to the update of its finalizer with its
  -- name and spec, `I` still holds behind the whole reconcile, whatever fails in it and whether the
  -- object is being deleted or not.
  pub operator_reconcile-service_name :
      (namespace name : Text) (w : C.World)
      → ((o : GitChangeOperator) → (C.get_operator namespace name w).0 ≡ ok o → Disabled service o)
      → I w
      → I (reconcile C namespace name w).1
  unfolding reconcile
  operator_reconcile-service_name namespace name w d i =
      dispatch-Keeps namespace name (C.get_operator namespace name w).0
        (C.get_operator namespace name w).1 d ((F.beside.read namespace name).at w i)
