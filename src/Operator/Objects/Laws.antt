-- ===== src/Operator/Objects/Laws.antt =====
-- The accounts of the operator's pod and of its role.
use mathlib.Core.List.{append_cancel_left}
use git_change_operator.Base.{◌≢◌, Text, text, [], All, Nil-cases, is_nil-ne, inl, inr}
use git_change_operator.Api.Operator.{GitChangeOperator}
use git_change_operator.Operator.Objects.{
  operator_account, operator_deployment, deployment_name, manager_account, manager_service_account,
  manager_binding,
}

manager_account-ne :
    (o : GitChangeOperator)
    → o.spec.service_account.name ≢ deployment_name o
    → manager_account o ≢ deployment_name o
unfolding manager_account text
manager_account-ne o other = elim (Nil-cases o.spec.service_account.name) [
  | inl e ↦ rw e (λ h. different (append_cancel_left o.name _ _ h))
  | inr n ↦ rw (is_nil-ne o.spec.service_account.name n) other
]
  where
    different : ◌≢◌ {A = Text} (text "-controller-manager") (text "-operator")
    different h = cc

-- Where the environment names no account, and the spec none or another one than the deployment's name,
-- the operator's pod runs under an account that the controller does not create and that no subject of
-- the role's binding names, for every image.
pub operator_account-IsUnbound :
    (image : Text) (o : GitChangeOperator)
    → o.spec.service_account.name ≢ deployment_name o
    → let account =
        (operator_deployment image (operator_account [] o) o).pod.service_account_name in
      ((manager_service_account o).meta.name ≢ account)
      × All (λ subject. subject.name ≢ account) (manager_binding o).subjects
unfolding operator_deployment operator_account manager_service_account manager_binding
operator_account-IsUnbound image o other =
    (manager_account-ne o other, (manager_account-ne o other, tt))
