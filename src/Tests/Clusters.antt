-- ===== src/Tests/Clusters.antt =====
-- A cluster in memory, and what the theorems ask of one.
use git_change_operator.Base.{
  ℕ, ◌≡◌, ◌≢◌, refl, sym, ap, ◌∙◌, Text, text, Bool, true, false, ◌&&◌, ◌||◌, not, Option, none,
  some, List, [], ◌∷◌, if◌then◌else◌, text_eq, text_eq_refl,
}
use mathlib.Core.Option
use git_change_operator.Effects.{Error, not_found, Result, ok, err, Exec}
use git_change_operator.Effects.Rules.{err_ne_ok}
use git_change_operator.Effects.Collect.{ok_injective}
use git_change_operator.Api.Operator.{GitChangeOperator}
use git_change_operator.Operator.Cluster.{
  Meta, Container, Deployment, Role, Service, PolicyRule, Kind, Cluster,
}
use git_change_operator.Operator.Objects.{new_meta}
use git_change_operator.Operator.Reconcile.Frames.{IsKindFrame, IsApart}
use git_change_operator.Operator.Reconcile.Installs.{IsEchoing}
use git_change_operator.Operator.Reconcile.Converges.{
  IsStore, IsOwning, IsPatching, running_part, shown,
}

-- The roles and the deployments by their places; `operator` is the only GitChangeOperator, and `services`
-- says where there is a service.
pub record Rack : Type 0 where
  pub roles : Text → Text → Option (List PolicyRule)
  pub deployments : Text → Text → Option Deployment
  pub operator : Option GitChangeOperator
  pub services : Text → Text → Bool

abbrev pub put : {S : Type 0} → Meta → S → (Text → Text → Option S) → Text → Text → Option S
put m s old namespace name =
    if text_eq m.namespace namespace && text_eq m.name name then some s else old namespace name

put-same :
    {S : Type 0} (m : Meta) (s : S) (old : Text → Text → Option S)
    → put m s old m.namespace m.name ≡ some s
put-same m s old = rw (text_eq_refl m.namespace, text_eq_refl m.name) refl

abbrev pub missing : Error
missing = not_found (text "not found")

abbrev role_at : Text → Text → Option (List PolicyRule) → Result Role
role_at namespace name none = err missing
role_at namespace name (some rules) = ok (record { meta = new_meta name namespace; rules = rules })

-- A deployment is found under the name that it is asked for, if it has a container.
abbrev with_containers : Text → Text → Deployment → List Container → Result Deployment
with_containers namespace name d [] = err missing
with_containers namespace name d (c ∷ cs) =
    ok (record d { meta = new_meta name namespace; pod = record d.pod { containers = c ∷ cs } })

abbrev deployment_at : Text → Text → Option Deployment → Result Deployment
deployment_at namespace name none = err missing
deployment_at namespace name (some d) = with_containers namespace name d d.pod.containers

abbrev idle : {A : Type 0} → Kind Rack A
idle = record {
  get = λ namespace name w. (err missing, w);
  create = λ a w. (ok tt, w);
  update = λ a w. (ok tt, w);
  delete = λ namespace name w. (ok tt, w);
}

abbrev store_role : Role → Exec Rack Unit
store_role a w = (ok tt, record w { roles = put a.meta a.rules w.roles })

abbrev store_deployment : Deployment → Exec Rack Unit
store_deployment d w = (ok tt, record w { deployments = put d.meta d w.deployments })

abbrev operator_of : Option GitChangeOperator → Result GitChangeOperator
operator_of none = err missing
operator_of (some o) = ok o

abbrev pub without : Text → Text → (Text → Text → Bool) → Text → Text → Bool
without namespace name old a b = not (text_eq name b && text_eq namespace a) && old a b

abbrev service_at : Text → Text → Bool → Result Service
service_at namespace name false = err missing
service_at namespace name true =
    ok (record { meta = new_meta name namespace; kind = []; ports = []; selector = [] })

abbrev pub deleted_at : Text → Text → Bool → Rack → Result {0} Unit × Rack
deleted_at namespace name false w = (err missing, w)
deleted_at namespace name true w =
    (ok tt, record w { services = without namespace name w.services })

abbrev is_finalizer : Text → List Text → Bool
is_finalizer name [] = false
is_finalizer name (f ∷ fs) = text_eq f name || is_finalizer name fs

abbrev pub rack : Cluster
rack = record {
  World = Rack;
  getenv = λ name. text "image:1";
  get_operator = λ namespace name w. (operator_of w.operator, w);
  update_operator = λ o w. (ok o, record w { operator = some o });
  update_operator_status = λ o w. (ok o, w);
  retry_on_conflict = λ m. m;
  is_zero = λ t. elim t [ none ↦ true | some s ↦ false ];
  contains_finalizer = λ o name. is_finalizer name o.finalizers;
  add_finalizer = λ o name. record o { finalizers = name ∷ o.finalizers };
  remove_finalizer = λ o name. record o { finalizers = [] };
  set_controller = λ o m. ok (record m { owners = o.name ∷ [] });
  deployments = record {
    get = λ namespace name w. (deployment_at namespace name (w.deployments namespace name), w);
    create = store_deployment;
    update = store_deployment;
    delete = λ namespace name w. (ok tt, w);
  };
  patch_deployment =
      λ before after w. (ok tt, record w { deployments = put before.meta after w.deployments });
  service_accounts = idle;
  roles = record {
    get = λ namespace name w. (role_at namespace name (w.roles namespace name), w);
    create = store_role;
    update = store_role;
    delete = λ namespace name w. (ok tt, w);
  };
  role_bindings = idle;
  services = record {
    get = λ namespace name w. (service_at namespace name (w.services namespace name), w);
    create = λ a w. (
      ok tt,
      record w {
        services = λ namespace name.
            text_eq a.meta.namespace namespace && text_eq a.meta.name name
            || w.services namespace name;
      },
    );
    update = λ a w. (ok tt, w);
    delete = λ namespace name w. deleted_at namespace name (w.services namespace name) w;
  };
  service_monitors = idle;
  ingresses = idle;
}

abbrev pub stored_rules : Rack → Text → Text → Option (List PolicyRule)
stored_rules w = w.roles

role_at-same :
    (namespace name : Text) (r : Option (List PolicyRule)) (a : Role)
    → role_at namespace name r ≡ ok a
    → (a.meta.namespace ≡ namespace) × (a.meta.name ≡ name) × (r ≡ some a.rules)
role_at-same namespace name none a e = absurd (err_ne_ok e)
role_at-same namespace name (some rules) a e =
    let k = ok_injective e in
    (sym (ap (λ r. r.meta.namespace) k), sym (ap (λ r. r.meta.name) k), ap (λ r. some r.rules) k)

pub rack-IsStore-roles : IsStore rack.roles (λ role. role.meta) (λ role. role.rules) stored_rules
rack-IsStore-roles = record {
  got = λ namespace name a w w' e.
      let (n, k, h) = role_at-same namespace name (w.roles namespace name) a (ap (λ p. p.0) e) in
      (n, k, ap (λ p. p.1.roles namespace name) (sym e) ∙ h);
  created = λ a w w' e.
      ap (λ p. p.1.roles a.meta.namespace a.meta.name) (sym e) ∙ put-same a.meta a.rules w.roles;
  updated = λ a w w' e.
      ap (λ p. p.1.roles a.meta.namespace a.meta.name) (sym e) ∙ put-same a.meta a.rules w.roles;
}

pub rack-IsOwning : IsOwning rack
rack-IsOwning = record {
  keeps = λ o m m' e.
      (sym (ap (λ k. k.namespace) (ok_injective e)), sym (ap (λ k. k.name) (ok_injective e)));
}

abbrev pub stored_parts : Rack → Text → Text → Option (Option ℕ × Option (Text × List Text))
stored_parts w namespace name = Option.map running_part (w.deployments namespace name)

with_containers-same :
    (namespace name : Text) (d : Deployment) (cs : List Container) (a : Deployment)
    → with_containers namespace name d cs ≡ ok a
    → (a.meta.namespace ≡ namespace)
      × (a.meta.name ≡ name)
      × ((d.replicas, shown cs) ≡ running_part a)
      × (a.pod.containers ≢ [])
with_containers-same namespace name d [] a e = absurd (err_ne_ok e)
with_containers-same namespace name d (c ∷ cs) a e =
    let k = ok_injective e in
    (
      sym (ap (λ r. r.meta.namespace) k),
      sym (ap (λ r. r.meta.name) k),
      ap running_part k,
      λ h. full (ap (λ r. r.pod.containers) k ∙ h),
    )
  where
    full : c ∷ cs ≢ []
    full h = cc

put_deployment :
    (at d : Deployment) (w w' : Rack)
    → w' ≡ record w { deployments = put at.meta d w.deployments }
    → stored_parts w' at.meta.namespace at.meta.name ≡ some (running_part d)
put_deployment at d w w' e =
    ap (λ r. Option.map running_part (r.deployments at.meta.namespace at.meta.name)) e
    ∙ ap (Option.map running_part) (put-same at.meta d w.deployments)

deployment_at-same :
    (namespace name : Text) (r : Option Deployment) (a : Deployment)
    → deployment_at namespace name r ≡ ok a
    → (a.meta.namespace ≡ namespace)
      × (a.meta.name ≡ name)
      × (Option.map running_part r ≡ some (running_part a))
      × (a.pod.containers ≢ [])
deployment_at-same namespace name none a e = absurd (err_ne_ok e)
deployment_at-same namespace name (some d) a e =
    let (n, k, h, c) = with_containers-same namespace name d d.pod.containers a e in
    (n, k, ap some h, c)

pub rack-IsStore-deployments : IsStore rack.deployments (λ d. d.meta) running_part stored_parts
rack-IsStore-deployments = record {
  got = λ namespace name a w w' e.
      let (n, k, h, c) =
        deployment_at-same namespace name (w.deployments namespace name) a (ap (λ p. p.0) e) in
      (n, k, ap (λ p. Option.map running_part (p.1.deployments namespace name)) (sym e) ∙ h);
  created = λ a w w' e. put_deployment a a w w' (ap (λ p. p.1) (sym e));
  updated = λ a w w' e. put_deployment a a w w' (ap (λ p. p.1) (sym e));
}

pub rack-IsPatching : IsPatching rack stored_parts
rack-IsPatching = record {
  has_container = λ namespace name d w w' e.
      (deployment_at-same namespace name (w.deployments namespace name) d (ap (λ p. p.0) e)).3;
  patched = λ before after w w' h e. put_deployment before after w w' (ap (λ p. p.1) (sym e));
}

pub rack-IsEchoing : IsEchoing rack
rack-IsEchoing = record {
  echoed = λ o o' w w' e.
      let k = ok_injective (ap (λ p. p.0) e) in
      (sym (ap (λ r. r.name) k), sym (ap (λ r. r.namespace) k), sym (ap (λ r. r.spec) k));
}

pub idle-IsKindFrame : {A : Type 0} (I : Rack → Type 0) → IsKindFrame {A = A} I idle
idle-IsKindFrame I = record {
  got = λ namespace name. record { at = λ w h. h };
  created = λ a. record { at = λ w h. h };
  updated = λ a. record { at = λ w h. h };
  deleted = λ namespace name. record { at = λ w h. h };
}

deleted-deployments :
    (namespace name a b : Text) (there : Bool) (w : Rack)
    → stored_parts (deleted_at namespace name there w).1 a b ≡ stored_parts w a b
deleted-deployments namespace name a b true w = refl
deleted-deployments namespace name a b false w = refl

pub rack-IsApart :
    (namespace name : Text) (part : Option ℕ × Option (Text × List Text))
    → IsApart rack (λ w. stored_parts w namespace name ≡ some part)
rack-IsApart namespace name part = record {
  beside = record {
    accounts = idle-IsKindFrame _;
    roles = record {
      got = λ namespace name. record { at = λ w h. h };
      created = λ a. record { at = λ w h. h };
      updated = λ a. record { at = λ w h. h };
      deleted = λ namespace name. record { at = λ w h. h };
    };
    bindings = idle-IsKindFrame _;
    monitors = idle-IsKindFrame _;
    ingresses = idle-IsKindFrame _;
    read = λ namespace name. record { at = λ w h. h };
    status = λ o. record { at = λ w h. h };
    retried = λ m k. k;
  };
  services = record {
    got = λ namespace name. record { at = λ w h. h };
    created = λ a. record { at = λ w h. h };
    updated = λ a. record { at = λ w h. h };
    deleted =
        λ a b. record { at = λ w h. deleted-deployments a b namespace name (w.services a b) w ∙ h };
  };
}
