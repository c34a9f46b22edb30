-- ===== src/Operator/Reconcile/Installs.antt =====
-- What stands in the cluster after a whole reconcile of a GitChangeOperator that returns.
use mathlib.Core.Path.{subst}
use git_change_operator.Base.{
  ◌≡◌, ◌≢◌, refl, ap, ◌∙◌, ℕ, Text, text, true, Option, none, some, List, ◌++◌, Bool-cases, inl,
  inr,
}
use git_change_operator.Effects.{Error, Result, ok, err, pure, ◌>>◌, Held, outside}
use git_change_operator.Effects.Rules.{Post, Post-bind, Post-map, outside-bind}
use git_change_operator.Effects.Moves.{Keeps-bind}
use git_change_operator.Commit.Outcome.{Outcome, done, or_error}
use git_change_operator.Api.Operator.{GitChangeOperator}
use git_change_operator.Operator.Cluster.{Cluster}
use git_change_operator.Operator.Objects.{
  operand_image, operator_args, replicas_of, deployment_name,
}
use git_change_operator.Operator.Reconcile.Converges.{
  IsStore, IsOwning, IsPatching, running_part, wanted_part, same_place, reconcile_deployment-runs,
}
use git_change_operator.Operator.Reconcile.{
  report_ready, install, reconcile_deployment, finalizer_name, ensure_finalizer, keep_installed,
  reconcile_found, dispatch, reconcile,
}
use git_change_operator.Effects.Moves.{kept}
use git_change_operator.Operator.Reconcile.Frames.{
  IsApart, account_step-Keeps, rbac_step-Keeps, metrics_step-Keeps, ingress_step-Keeps,
  report_ready-Keeps,
}

module _ (C : Cluster) {I : C.World → Type 0} (F : IsApart C I) (o : GitChangeOperator) where
  install-Makes :
      (w : C.World)
      → Post (λ u w'. I w') (λ e w'. Unit) (reconcile_deployment C o w)
      → Post (λ u w'. I w') (λ e w'. Unit) (install C o w)
  unfolding install
  install-Makes w h = Post-bind (reconcile_deployment C o) _ w _ _ _ h (λ u w' i.
      kept _ w'
        (Keeps-bind _ _ (account_step-Keeps C F.beside o) (λ u.
          Keeps-bind _ _ (rbac_step-Keeps C F.beside o) (λ u.
            Keeps-bind _ _ (metrics_step-Keeps C F.beside o F.services)
              (λ u. (ingress_step-Keeps C F.beside o)))))
        i)

  -- The steps of a reconcile behind the finalizer.
  tail-Makes :
      (namespace name : Text) (s : Held C.World GitChangeOperator)
      → Post (λ u w'. I w') (λ e w'. Unit) (reconcile_deployment C o s.world)
      → Post
          (λ out s'. I s'.world)
          (λ e s'. Unit)
          ((outside (install C o) >> (outside (report_ready C namespace name o) >> pure done)) s)
  tail-Makes namespace name s h =
      outside-bind (install C o) _ s _ _ (λ e w g. tt)
        (λ u w g.
          outside-bind (report_ready C namespace name o) _ (record s { world = w }) _ _
            (λ e w' g'. tt)
            (λ u' w' g'.
              subst (λ p. I p.1) g'
                ((report_ready-Keeps C F.beside o namespace name).at w
                  (subst (Post (λ u w'. I w') (λ e w'. Unit)) g (install-Makes s.world h)))))

-- The API server answers to the update of a finalizer with the object under its name and its spec.
pub record IsEchoing (C : Cluster) : Type 0 where
  pub echoed :
      (o o' : GitChangeOperator) (w w' : C.World)
      → C.update_operator (C.add_finalizer o finalizer_name) w ≡ (ok o', w')
      → (o'.name ≡ o.name) × (o'.namespace ≡ o.namespace) × (o'.spec ≡ o.spec)

same_part :
    (image : Text) (o o' : GitChangeOperator)
    → o'.spec ≡ o.spec
    → wanted_part image o' ≡ wanted_part image o
unfolding replicas_of operator_args
same_part image o o' e = ap (λ s. wanted_part image (record o' { spec = s })) e

same_image :
    (from_env : Text) (o o' : GitChangeOperator)
    → o'.spec ≡ o.spec
    → operand_image from_env o' ≡ operand_image from_env o
unfolding operand_image
same_image from_env o o' e = ap (λ s. operand_image from_env (record o' { spec = s })) e

finished :
    {W : Type 0} (Q : W → Type 0) (r : Result Outcome) (s : Held W GitChangeOperator)
    → Post (λ out t. Q t.world) (λ e t. Unit) (r, s)
    → (or_error r).error ≡ none
    → Q s.world
finished Q (ok out) s h e = h
finished Q (err x) s h e = absurd (some_ne_none x e)
  where
    some_ne_none : (x : Error) → some x ≢ none
    some_ne_none x h = cc

module _ (C : Cluster) (L : IsOwning C)
    (stored : C.World → Text → Text → Option (Option ℕ × Option (Text × List Text)))
    (S : IsStore C.deployments (λ d. d.meta) running_part stored) (D : IsPatching C stored)
    (F : (namespace name : Text) (part : Option ℕ × Option (Text × List Text))
      → IsApart C (λ w. stored w namespace name ≡ some part))
    (U : IsEchoing C) where
  -- The object that is installed, whether it is the one that was read or the server's answer to the
  -- update of its finalizer, is the same one in what a deployment depends on.
  tail-runs :
      (o o' : GitChangeOperator) (image : Text) (namespace name : Text)
      (s : Held C.World GitChangeOperator)
      → operand_image (C.getenv (text "OPERAND_IMAGE")) o ≡ ok image
      → (o'.name ≡ o.name) × (o'.namespace ≡ o.namespace) × (o'.spec ≡ o.spec)
      → Post
          (λ out t. stored t.world o.namespace (deployment_name o) ≡ some (wanted_part image o))
          (λ e t. Unit)
          ((outside (install C o') >> (outside (report_ready C namespace name o') >> pure done)) s)
  tail-runs o o' image namespace name s env (n, k, e) =
      tail-Makes C (F o.namespace (deployment_name o) (wanted_part image o)) o' namespace name s (
        Post-map (reconcile_deployment C o' s.world) _ _ _
          (λ u w h.
            same_place stored w _ _ _ _ _ k (ap (λ t. t ++ text "-operator") n) h
            ∙ ap some (same_part image o o' e))
          (reconcile_deployment-runs C L stored S D o' image s.world (same_image _ o o' e ∙ env)))

  ensure_finalizer-same :
      (o : GitChangeOperator) (w : C.World)
      → Post
          (λ u t.
            (t.object.name ≡ o.name)
            × (t.object.namespace ≡ o.namespace)
            × (t.object.spec ≡ o.spec))
          (λ e t. Unit)
          (ensure_finalizer C (record { world = w; object = o }))
  unfolding ensure_finalizer
  ensure_finalizer-same o w = elim (Bool-cases (C.contains_finalizer o finalizer_name)) [
    | inl y ↦ rw y (refl, refl, refl)
    | inr n ↦ rw n (
        outside-bind (C.update_operator (C.add_finalizer o finalizer_name)) _ _ _ _ (λ e t h. tt)
          (λ o' w' h. U.echoed o o' w w' h))
  ]

  keep_installed-runs :
      (o : GitChangeOperator) (image : Text) (namespace name : Text) (w : C.World)
      → operand_image (C.getenv (text "OPERAND_IMAGE")) o ≡ ok image
      → Post
          (λ out t. stored t.world o.namespace (deployment_name o) ≡ some (wanted_part image o))
          (λ e t. Unit)
          (keep_installed C namespace name (record { world = w; object = o }))
  unfolding keep_installed
  keep_installed-runs o image namespace name w env =
      Post-bind (ensure_finalizer C) _ (record { world = w; object = o }) _ _ _
        (ensure_finalizer-same o w)
        (λ u t same. tail-runs o t.object image namespace name t env same)

  module _ (namespace name image : Text) (w w₁ : C.World) (o : GitChangeOperator)
      (found : C.get_operator namespace name w ≡ (ok o, w₁))
      (alive : C.is_zero o.deletion_timestamp ≡ true)
      (env : operand_image (C.getenv (text "OPERAND_IMAGE")) o ≡ ok image) where
    -- A reconcile of a GitChangeOperator that is not being deleted, if it returns no error, leaves the
    -- operator's deployment with the image, the arguments and the replicas that are asked for, whatever
    -- stood there before and whichever of the other resources are enabled. This is so on an API server
    -- that stores what it is sent, answers to the update of the finalizer with the object's name and
    -- spec, and changes no deployment in the calls for other objects.
    pub operator_reconcile-installs :
        (reconcile C namespace name w).0.error ≡ none
        → stored (reconcile C namespace name w).1 o.namespace (deployment_name o)
          ≡ some (wanted_part image o)
    unfolding reconcile dispatch reconcile_found
    operator_reconcile-installs =
        simp (found, alive)
          (finished (λ v. stored v o.namespace (deployment_name o) ≡ some (wanted_part image o)) _ _
            (keep_installed-runs o image namespace name w₁ env))
