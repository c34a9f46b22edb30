-- ===== src/Operator/Reconcile/Converges.antt =====
-- What stands in the cluster after a step that returns, on an API that stores what it is sent.
use git_change_operator.Base.{
  ◌≡◌, ◌≢◌, refl, ap, sym, ◌∙◌, ℕ, Text, text, Option, none, some, List, [], ◌∷◌, Bool-cases, inl,
  inr,
}
use git_change_operator.Effects.{Result, ok, err, Exec, lift, is_not_found, ◌>>=◌}
use git_change_operator.Effects.Rules.{Post}
use git_change_operator.Api.Operator.{GitChangeOperator}
use git_change_operator.Operator.Cluster.{
  Meta, Container, Deployment, Role, PolicyRule, Kind, Cluster,
}
use git_change_operator.Operator.Objects.{
  operand_image, operator_args, replicas_of, operator_account, deployment_name, operator_deployment,
  operator_container, patched_deployment, set_container, role_name, manager_role, manager_rules,
}
use git_change_operator.Operator.Reconcile.{
  found_or_created, ensure, reconcile_deployment, reconcile_role,
}

-- The API server, in what `part` shows of an object: an object that is read is the stored one, and what
-- is created or updated is stored under its own name.
pub record IsStore {W A S : Type 0} (kind : Kind W A) (meta_of : A → Meta) (part : A → S)
    (stored : W → Text → Text → Option S) : Type 0 where
  pub got :
      (namespace name : Text) (a : A) (w w' : W)
      → kind.get namespace name w ≡ (ok a, w')
      → ((meta_of a).namespace ≡ namespace)
        × ((meta_of a).name ≡ name)
        × (stored w' namespace name ≡ some (part a))
  pub created :
      (a : A) (w w' : W)
      → kind.create a w ≡ (ok tt, w')
      → stored w' (meta_of a).namespace (meta_of a).name ≡ some (part a)
  pub updated :
      (a : A) (w w' : W)
      → kind.update a w ≡ (ok tt, w')
      → stored w' (meta_of a).namespace (meta_of a).name ≡ some (part a)

-- `SetControllerReference` adds an owner and leaves the names.
pub record IsOwning (C : Cluster) : Type 0 where
  pub keeps :
      (o : GitChangeOperator) (m m' : Meta)
      → C.set_controller o m ≡ ok m'
      → (m'.namespace ≡ m.namespace) × (m'.name ≡ m.name)

-- A call that returns has made `Q`.
abbrev Makes : {W : Type 0} → (W → Type 0) → Result {0} Unit × W → Type 0
Makes Q p = Post (λ u w. Q w) (λ e w. Unit) p

module _ {W : Type 0} (Q : W → Type 0) where
  returned-Makes : (m : Exec W Unit) (w : W) → ((w' : W) → m w ≡ (ok tt, w') → Q w') → Makes Q (m w)
  returned-Makes m w k = go (m w).0 (m w).1 refl
    where
      go : (r : Result Unit) (w' : W) → m w ≡ (r, w') → Makes Q (r, w')
      go (ok u) w' e = k w' e
      go (err x) w' e = tt

  lift-Makes :
      {B : Type 0} (r : Result B) (f : B → Exec W Unit) (w : W)
      → ((b : B) → r ≡ ok b → Makes Q (f b w))
      → Makes Q ((lift r >>= f) w)
  lift-Makes (ok b) f w k = k b refl
  lift-Makes (err e) f w k = tt

module _ {W A : Type 0} (Q : W → Type 0) where
  ensure-Makes :
      (kind : Kind W A) (namespace name : Text) (wanted : A) (change : A → Exec W Unit) (w : W)
      → ((a : A) (w' : W) → kind.get namespace name w ≡ (ok a, w') → Makes Q (change a w'))
      → ((w' : W) → Makes Q (kind.create wanted w'))
      → Makes Q (ensure kind namespace name wanted change w)
  unfolding ensure found_or_created
  ensure-Makes kind namespace name wanted change w changed created =
      go (kind.get namespace name w).0 (kind.get namespace name w).1 refl
    where
      go :
          (r : Result A) (w' : W)
          → kind.get namespace name w ≡ (r, w')
          → Makes Q (found_or_created change (kind.create wanted) r w')
      go (ok a) w' e = changed a w' e
      go (err x) w' e = elim (Bool-cases (is_not_found x)) [
        | inl y ↦ rw y (created w')
        | inr n ↦ rw n tt
      ]

-- The same place under equal names.
pub same_place :
    {W S : Type 0} (stored : W → Text → Text → Option S) (w : W) (s : Option S) (n n' k k' : Text)
    → n ≡ n'
    → k ≡ k'
    → stored w n k ≡ s
    → stored w n' k' ≡ s
same_place stored w s n n' k k' e f h = cc

module _ (C : Cluster) (L : IsOwning C) (stored : C.World → Text → Text → Option (List PolicyRule))
    (S : IsStore C.roles (λ role. role.meta) (λ role. role.rules) stored) where
  -- On an API server that stores what it is sent, a `reconcileRole` that returns leaves the manager's
  -- role with exactly the rules of the manager, whether there was such a role before or not.
  pub reconcile_role-grants :
      (o : GitChangeOperator) (w : C.World)
      → Post
          (λ u w'. stored w' o.namespace (role_name o) ≡ some manager_rules)
          (λ e w'. Unit)
          (reconcile_role C o w)
  unfolding reconcile_role manager_role
  reconcile_role-grants o w =
      lift-Makes Granted (C.set_controller o (manager_role o).meta) _ w (λ meta e.
        let (n, k) = L.keeps o _ meta e in
        let wanted : Role = record (manager_role o) { meta = meta } in
        ensure-Makes Granted C.roles o.namespace (role_name o) wanted _ w
          (λ found w' g.
            let (n', k', h) = S.got o.namespace (role_name o) found w w' g in
            let changed : Role = record found { rules = manager_rules } in
            returned-Makes Granted (C.roles.update changed) w'
              (λ w'' u. same_place stored w'' _ _ _ _ _ n' k' (S.updated changed w' w'' u)))
          (λ w'.
            returned-Makes Granted (C.roles.create wanted) w'
              (λ w'' u. same_place stored w'' _ _ _ _ _ n k (S.created wanted w' w'' u))))
    where
      Granted : C.World → Type 0
      Granted w' = stored w' o.namespace (role_name o) ≡ some manager_rules

-- Of a deployment: the replicas, and the image and the arguments of the first container.
abbrev pub shown : List Container → Option (Text × List Text)
shown [] = none
shown (c ∷ cs) = some (c.image, c.args)

abbrev pub running_part : Deployment → Option ℕ × Option (Text × List Text)
running_part d = (d.replicas, shown d.pod.containers)

-- A stored deployment has a container, and a merge patch of what is stored leaves what was asked for.
pub record IsPatching (C : Cluster)
    (stored : C.World → Text → Text → Option (Option ℕ × Option (Text × List Text))) : Type 0 where
  pub has_container :
      (namespace name : Text) (d : Deployment) (w w' : C.World)
      → C.deployments.get namespace name w ≡ (ok d, w')
      → d.pod.containers ≢ []
  pub patched :
      (before after : Deployment) (w w' : C.World)
      → stored w before.meta.namespace before.meta.name ≡ some (running_part before)
      → C.patch_deployment before after w ≡ (ok tt, w')
      → stored w' before.meta.namespace before.meta.name ≡ some (running_part after)

-- What is to run: the replicas of the spec, and its arguments under an image.
abbrev pub wanted_part : Text → GitChangeOperator → Option ℕ × Option (Text × List Text)
wanted_part image o = (some (replicas_of o), some (image, operator_args o))

shown-set_container :
    (image : Text) (args : List Text) (cs : List Container)
    → cs ≢ []
    → shown (set_container image args cs) ≡ some (image, args)
unfolding set_container
shown-set_container image args [] h = absurd (h refl)
shown-set_container image args (c ∷ cs) h = refl

patched_deployment-part :
    (image : Text) (o : GitChangeOperator) (found : Deployment)
    → found.pod.containers ≢ []
    → running_part (patched_deployment image o found) ≡ wanted_part image o
unfolding patched_deployment
patched_deployment-part image o found h =
    ap (λ s. (some (replicas_of o), s))
      (shown-set_container image (operator_args o) found.pod.containers h)

operator_deployment-part :
    (image account : Text) (o : GitChangeOperator) (meta : Meta)
    → running_part (record (operator_deployment image account o) { meta = meta })
      ≡ wanted_part image o
unfolding operator_deployment operator_container
operator_deployment-part image account o meta = refl

module _ (C : Cluster) (L : IsOwning C)
    (stored : C.World → Text → Text → Option (Option ℕ × Option (Text × List Text)))
    (S : IsStore C.deployments (λ d. d.meta) running_part stored) (D : IsPatching C stored) where
  -- On an API server that stores what it is sent, a `reconcileDeployment` that returns leaves the
  -- operator's deployment with the image of the environment (or of the spec, where the environment names
  -- none), the arguments of the spec, and its replica count, which is 1 where the spec leaves it open,
  -- whether there was such a deployment before or not and whatever it ran.
  pub reconcile_deployment-runs :
      (o : GitChangeOperator) (image : Text) (w : C.World)
      → operand_image (C.getenv (text "OPERAND_IMAGE")) o ≡ ok image
      → Post
          (λ u w'. stored w' o.namespace (deployment_name o) ≡ some (wanted_part image o))
          (λ e w'. Unit)
          (reconcile_deployment C o w)
  unfolding reconcile_deployment operator_deployment
  reconcile_deployment-runs o image w env = rw env (
      lift-Makes Running (C.set_controller o (wanted image).meta) _ w (λ meta e.
        let (n, k) = L.keeps o _ meta e in
        let d : Deployment = record (wanted image) { meta = meta } in
        ensure-Makes Running C.deployments o.namespace (deployment_name o) d _ w
          (λ found w' g.
            let (n', k', h) = S.got o.namespace (deployment_name o) found w w' g in
            let full = D.has_container o.namespace (deployment_name o) found w w' g in
            returned-Makes Running (C.patch_deployment found (patched_deployment image o found)) w'
              (λ w'' u. same_place stored w'' _ _ _ _ _ n' k' (
                D.patched found (patched_deployment image o found) w' w''
                  (same_place stored w' _ _ _ _ _ (sym n') (sym k') h) u
                ∙ ap some (patched_deployment-part image o found full))))
          (λ w'. returned-Makes Running (C.deployments.create d) w' (λ w'' u.
            same_place stored w'' _ _ _ _ _ n k
              (S.created d w' w'' u ∙ ap some (operator_deployment-part image account o meta))))))
    where
      account : Text
      account = operator_account (C.getenv (text "OPERATOR_SERVICE_ACCOUNT")) o

      wanted : Text → Deployment
      wanted i = operator_deployment i account o

      Running : C.World → Type 0
      Running w' = stored w' o.namespace (deployment_name o) ≡ some (wanted_part image o)
