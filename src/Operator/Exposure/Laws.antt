-- ===== src/Operator/Exposure/Laws.antt =====
-- The names and the rules of what is exposed.
use mathlib.Core.List.{append_cancel_left}
use git_change_operator.Base.{◌≡◌, ◌≢◌, refl, ap, sym, ◌∙◌, Text, text, List, [], ◌∷◌, ◌++◌, map}
use git_change_operator.Api.Operator.{GitChangeOperator, IngressHost, IngressPath}
use git_change_operator.Operator.Cluster.{HttpPath, IngressRule}
use git_change_operator.Operator.Objects.{or_default}
use git_change_operator.Operator.Exposure.{
  service_name, deleted_service_name, http_paths, ingress_rules, wanted_ingress,
}

-- No metrics service is deleted under the name that it is created under.
pub service_name-ne : (o : GitChangeOperator) → service_name o ≢ deleted_service_name o
unfolding text
service_name-ne o e = different (append_cancel_left o.name _ _ e)
  where
    different : ◌≢◌ {A = Text} (text "-metrics") (text "-metrics-service")
    different h = cc

-- The rule of a host, and the path of one of its paths.
abbrev path_of : IngressPath → HttpPath
path_of p = record {
  path = p.path;
  path_type = or_default p.path_type (text "Prefix");
  service_name = p.backend.service.name;
  service_port = p.backend.service.port.number;
}

abbrev rule_of : IngressHost → IngressRule
rule_of h = record { host = h.host; paths = map path_of h.paths }

append_one {ℓ} : {A : Type ℓ} (xs ys : List A) (x : A) → (xs ++ x ∷ []) ++ ys ≡ xs ++ (x ∷ ys)
append_one [] ys x = refl
append_one (y ∷ xs) ys x = ap (λ zs. y ∷ zs) (append_one xs ys x)

append_nil {ℓ} : {A : Type ℓ} (xs : List A) → xs ++ [] ≡ xs
append_nil [] = refl
append_nil (x ∷ xs) = ap (λ zs. x ∷ zs) (append_nil xs)

http_paths-map :
    (ps : List IngressPath) (made : List HttpPath) → http_paths ps made ≡ made ++ map path_of ps
unfolding http_paths
http_paths-map [] made = sym (append_nil made)
http_paths-map (p ∷ ps) made =
    http_paths-map ps (made ++ path_of p ∷ []) ∙ append_one made (map path_of ps) (path_of p)

ingress_rules-map :
    (hs : List IngressHost) (made : List IngressRule)
    → ingress_rules hs made ≡ made ++ map rule_of hs
unfolding ingress_rules
ingress_rules-map [] made = sym (append_nil made)
ingress_rules-map (h ∷ hs) made =
    rw (http_paths-map h.paths [])
      (ingress_rules-map hs (made ++ rule_of h ∷ []) ∙ append_one made (map rule_of hs) (rule_of h))

-- The ingress has one rule for each host, in order, and in it one path for each of the host's, with the
-- path's service and port, and the type `Prefix` where none is given.
wanted_ingress-map :
    (o : GitChangeOperator) → (wanted_ingress o).rules ≡ map rule_of o.spec.ingress.hosts
unfolding wanted_ingress
wanted_ingress-map o = ingress_rules-map o.spec.ingress.hosts []
